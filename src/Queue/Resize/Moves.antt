-- ===== src/Queue/Resize/Moves.antt =====
-- What memmove, memcpy and realloc leave in each cell of an array.
use hound.Base.{
  ℕ, none, lt→leb, ◌+◌, ◌-◌, ◌≤◌, ◌<◌, ◌≡◌, ap, ◌∙◌, List, ◌++◌, arith, some, take, drop, lt→ltb,
  le→ltb, le→leb, length, length-take, length-drop, length-append, get_or, get_or-take, get_or-drop,
  get_or-append,
}
use hound.Queue.{cells, malloc_slots}
use hound.Queue.Valid.{max_cap, length-malloc_slots}
use hound.Queue.Resize.{move_cells, memmove, memcpy, realloc_slots}

module _ (dst src n : ℕ) (xs : List ℕ) (to : dst + n ≤ length xs) (from : src + n ≤ length xs) where
  pub length-move_cells : length (move_cells dst src n xs) ≡ length xs
  unfolding move_cells
  length-move_cells = omega (
    arith,
    length-append (take dst xs) (take n (drop src xs) ++ drop (dst + n) xs),
    length-append (take n (drop src xs)) (drop (dst + n) xs),
    length-take dst xs,
    length-take n (drop src xs),
    length-drop src xs,
    length-drop (dst + n) xs,
  )

  -- Inside the region moved to, a cell has the content of the cell that it came from.
  pub get_or-move_in :
      (j : ℕ)
      → dst ≤ j
      → j < dst + n
      → get_or (move_cells dst src n xs) j 0 ≡ get_or xs (src + (j - dst)) 0
  unfolding move_cells
  get_or-move_in j a b =
      let l₁ : length (take dst xs) ≡ dst = omega (arith, length-take dst xs) in
      let l₂ : length (take n (drop src xs)) ≡ n =
        omega (arith, length-take n (drop src xs), length-drop src xs) in
      get_or-append (take dst xs) (take n (drop src xs) ++ drop (dst + n) xs) j 0
      ∙ rw
          (
            l₁,
            le→ltb j dst a,
            get_or-append (take n (drop src xs)),
            l₂,
            lt→ltb (j - dst) n (omega arith),
          )
          (get_or-take n (drop src xs) (j - dst) 0 (omega arith) ∙ get_or-drop src xs (j - dst) 0)

  -- Outside it, its own.
  pub get_or-move_before : (j : ℕ) → j < dst → get_or (move_cells dst src n xs) j 0 ≡ get_or xs j 0
  unfolding move_cells
  get_or-move_before j a =
      let l₁ : length (take dst xs) ≡ dst = omega (arith, length-take dst xs) in
      get_or-append (take dst xs) (take n (drop src xs) ++ drop (dst + n) xs) j 0
      ∙ rw (l₁, lt→ltb j dst a) (get_or-take dst xs j 0 a)

  pub get_or-move_after :
      (j : ℕ) → dst + n ≤ j → get_or (move_cells dst src n xs) j 0 ≡ get_or xs j 0
  unfolding move_cells
  get_or-move_after j a =
      let l₁ : length (take dst xs) ≡ dst = omega (arith, length-take dst xs) in
      let l₂ : length (take n (drop src xs)) ≡ n =
        omega (arith, length-take n (drop src xs), length-drop src xs) in
      get_or-append (take dst xs) (take n (drop src xs) ++ drop (dst + n) xs) j 0
      ∙ rw
          (
            l₁,
            le→ltb j dst (omega arith),
            get_or-append (take n (drop src xs)),
            l₂,
            le→ltb (j - dst) n (omega arith),
          )
          (get_or-drop (dst + n) xs (j - dst - n) 0 ∙ ap (λ i. get_or xs i 0) (omega arith))

  pub memmove_lem : n < max_cap → memmove dst src n xs ≡ some (move_cells dst src n xs)
  unfolding memmove
  memmove_lem small =
      let e : cells n ≡ n = omega arith in
      rw (e, le→leb (dst + n) (length xs) to, le→leb (src + n) (length xs) from)

  -- memcpy does what memmove does where the regions lie apart.
  pub memcpy_below :
      n < max_cap → dst + n ≤ src → memcpy dst src n xs ≡ some (move_cells dst src n xs)
  unfolding memcpy memmove
  memcpy_below small apart =
      let e : cells n ≡ n = omega arith in
      rw (
        e,
        le→leb (dst + n) src apart,
        le→leb (dst + n) (length xs) to,
        le→leb (src + n) (length xs) from,
      )

  pub memcpy_above :
      n < max_cap → src + n ≤ dst → memcpy dst src n xs ≡ some (move_cells dst src n xs)
  unfolding memcpy memmove
  memcpy_above small apart =
      let e : cells n ≡ n = omega arith in
      rw
        (
          e,
          le→leb (src + n) dst apart,
          le→leb (dst + n) (length xs) to,
          le→leb (src + n) (length xs) from,
        )
        (ground arith)

-- A copy that would leave the array is a fault.
pub memmove_outside :
    (dst src n : ℕ) (xs : List ℕ) → length xs < dst + cells n → memmove dst src n xs ≡ none
unfolding memmove
memmove_outside dst src n xs h = rw (lt→leb (dst + cells n) (length xs) h)

pub memcpy_outside :
    (dst src n : ℕ) (xs : List ℕ) → length xs < dst + cells n → memcpy dst src n xs ≡ none
unfolding memcpy
memcpy_outside dst src n xs h = rw (memmove_outside dst src n xs h) (ground arith)

module _ (fill : ℕ → ℕ) (n : ℕ) (xs : List ℕ) (small : n < max_cap) where
  pub length-realloc_slots : length (realloc_slots fill n xs) ≡ n
  unfolding realloc_slots
  length-realloc_slots = omega (
    arith,
    length-malloc_slots fill n small,
    length-append (take (length (malloc_slots fill n)) xs) (drop (length xs) (malloc_slots fill n)),
    length-take (length (malloc_slots fill n)) xs,
    length-drop (length xs) (malloc_slots fill n),
  )

  -- realloc keeps the cells that both blocks have.
  pub get_or-realloc_slots :
      (j : ℕ) → j < n → j < length xs → get_or (realloc_slots fill n xs) j 0 ≡ get_or xs j 0
  unfolding realloc_slots
  get_or-realloc_slots j a b =
      let l : length (malloc_slots fill n) ≡ n = length-malloc_slots fill n small in
      get_or-append (take (length (malloc_slots fill n)) xs)
        (drop (length xs) (malloc_slots fill n)) j 0
      ∙ rw l (
          rw (lt→ltb j (length (take n xs)) (omega (arith, length-take n xs)))
            (get_or-take n xs j 0 a))
