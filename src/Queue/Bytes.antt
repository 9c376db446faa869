-- ===== src/Queue/Bytes.antt =====
-- `pop_bytes` and `queue_pop_bytes_nowait`: as many whole records as fit a number of bytes.
use native.Mathlib.Nat.{mod-lt, mod-add-mod, mod_self, lt_of_lt_of_le}
use native.Mathlib.Decide.{dec_lt}
use hound.Base.{
  ℕ, zero, suc, ◌+◌, ◌-◌, ◌%◌, ◌≤◌, ◌<◌, ◌≡◌, ◌≢◌, refl, ap, ◌∙◌, sym, subst, List, [], ◌∷◌, ◌++◌,
  arith, Option, none, some, take, ltb, lt→ltb, le→ltb, eq→==, ne→==, ◌==◌, if◌then◌else◌, length,
  get_or, true, false, get_elem?, get_elem?-of_lt, mod_below, word_mod, ◌⊎◌, inl,
}
use hound.Records.{Heap, RecordInfo}
use hound.Records.Owned.{AllLive, IsOwned, IsOwned-AllLive}
use hound.Queue.{Queue, scan_bytes, pop_bytes}
use hound.Queue.Window.{window, length-window}
use hound.Queue.Valid.{IsValid, contents, advance}
use hound.Queue.Pop.{pop_helper_lem}

abbrev pub size_of : Option RecordInfo → ℕ
size_of none = 0
size_of (some info) = info.rec.size

-- The bytes of a list of records together.
abbrev pub total : Heap → List ℕ → ℕ
total h [] = 0
total h (p ∷ ps) = size_of (h p) + total h ps

-- How many records fit, from the oldest on.
abbrev pub fit : Heap → List ℕ → ℕ → ℕ
fit h [] bytes = 0
fit h (p ∷ ps) bytes =
    if ltb bytes (size_of (h p)) then 0 else suc (fit h ps (bytes - size_of (h p)))

pub fit-le : (h : Heap) (ps : List ℕ) (bytes : ℕ) → fit h ps bytes ≤ length ps
fit-le h [] bytes = omega arith
fit-le h (p ∷ ps) bytes = ground (arith, fit-le h ps (bytes - size_of (h p)))

-- The records that fit take up no more than the bytes given, and one more would.
pub fit_fits : (h : Heap) (ps : List ℕ) (bytes : ℕ) → total h (take (fit h ps bytes) ps) ≤ bytes
fit_fits h [] bytes = omega arith
fit_fits h (p ∷ ps) bytes = ground (arith, fit_fits h ps (bytes - size_of (h p)))

pub fit_most :
    (h : Heap) (ps : List ℕ) (bytes : ℕ)
    → (fit h ps bytes ≡ length ps) ⊎ (bytes < total h (take (suc (fit h ps bytes)) ps))
fit_most h [] bytes = inl refl
fit_most h (p ∷ ps) bytes = ground (arith, fit_most h ps (bytes - size_of (h p)))

-- `++i; if (i == max_len) i = 0;`
step_index : (a c : ℕ) → 0 < c → (if a % c + 1 == c then 0 else a % c + 1) ≡ (a + 1) % c
step_index a c pos = elim (dec_lt (a % c + 1) c) [
  | yes lt ↦
      rw (ne→== (a % c + 1) c (omega arith)) (sym (mod_below (a % c + 1) c lt) ∙ mod-add-mod a c 1)
  | no ge ↦
      let e : a % c + 1 ≡ c = omega (arith, mod-lt a pos) in
      rw (eq→== (a % c + 1) c e) (sym (sym (mod-add-mod a c 1) ∙ ap (λ k. k % c) e ∙ mod_self c))
]

scan_all :
    (fuel : ℕ) (q : Queue) (h : Heap) (i remainder records : ℕ)
    → records ≡ q.len
    → scan_bytes (suc fuel) q h i remainder records ≡ some (records, remainder)
unfolding scan_bytes
scan_all fuel q h i remainder records e = rw (eq→== records q.len e, scan_bytes)

scan_step :
    (fuel : ℕ) (q : Queue) (h : Heap) (i remainder records p : ℕ) (info : RecordInfo)
    → records ≢ q.len
    → get_elem? q.slots i ≡ some p
    → h p ≡ some info
    → scan_bytes (suc fuel) q h i remainder records ≡ (
        if ltb remainder info.rec.size
        then some (records, remainder)
        else scan_bytes fuel q h
            (if i + 1 == q.max_len then 0 else i + 1)
            (remainder - info.rec.size)
            (records + 1))
unfolding scan_bytes
scan_step fuel q h i remainder records p info ne e at =
    rw (ne→== records q.len ne, scan_bytes)
      (rw e (
        rw at
          (elim (ltb remainder info.rec.size)
            as (λ b.
              (elim b [
                | true ↦ some (records, remainder)
                | false ↦
                    scan_bytes fuel q h (if i + 1 == q.max_len then 0 else i + 1)
                      (remainder - info.rec.size) (records + 1)
              ])
              ≡ (if b
                  then some (records, remainder)
                  else scan_bytes fuel q h (if i + 1 == q.max_len then 0 else i + 1)
                      (remainder - info.rec.size) (records + 1))) [ true ↦ refl | false ↦ refl ])))

abbrev scanned : ℕ → ℕ → Option (ℕ × ℕ)
scanned records remainder = some (records, remainder)

fit-cons :
    (h : Heap) (p : ℕ) (rest : List ℕ) (remainder records : ℕ) (info : RecordInfo)
    → h p ≡ some info
    → let less = remainder - info.rec.size in
      let n = fit h (p ∷ rest) remainder in
      (if ltb remainder info.rec.size
        then scanned records remainder
        else scanned (records + 1 + fit h rest less) (less - total h (take (fit h rest less) rest)))
      ≡ scanned (records + n) (remainder - total h (take n (p ∷ rest)))
fit-cons h p rest remainder records info at =
    let e : size_of (h p) ≡ info.rec.size = ap size_of at in
    rw e (elim (dec_lt remainder info.rec.size) [
      | yes lt ↦ rw (lt→ltb remainder info.rec.size lt) (ground arith)
      | no ge ↦ rw (le→ltb remainder info.rec.size (omega arith)) (ground (arith, e))
    ])

scan_lem :
    (k : ℕ) (q : Queue) (h : Heap) (remainder records : ℕ)
    → IsValid q
    → q.len ≡ records + k
    → AllLive h (window q.slots q.max_len (q.front + records) k)
    → let rest = window q.slots q.max_len (q.front + records) k in
      let n = fit h rest remainder in
      scan_bytes (suc k) q h ((q.front + records) % q.max_len) remainder records
      ≡ some (records + n, remainder - total h (take n rest))
scan_lem zero q h remainder records v e live =
    scan_all 0 q h ((q.front + records) % q.max_len) remainder records (omega arith) ∙ ground arith
scan_lem (suc k) q h remainder records v e ((info, at), live) =
    let i = (q.front + records) % q.max_len in
    let p = get_or q.slots i 0 in
    let rest = window q.slots q.max_len (q.front + records + 1) k in
    let next : window q.slots q.max_len (q.front + (records + 1)) k ≡ rest =
      ap (λ j. window q.slots q.max_len j k) (omega arith) in
    let less = remainder - info.rec.size in
    let index : (if i + 1 == q.max_len then 0 else i + 1) ≡ (q.front + (records + 1)) % q.max_len =
      step_index (q.front + records) q.max_len v.positive ∙ ap (λ j. j % q.max_len) (omega arith) in
    let rec_call : scan_bytes (suc k) q h (if i + 1 == q.max_len then 0 else i + 1) less
          (records + 1)
        ≡ some (records + 1 + fit h rest less, less - total h (take (fit h rest less) rest)) =
      ap (λ j. scan_bytes (suc k) q h j less (records + 1)) index
      ∙ scan_lem k q h less (records + 1) v (omega arith) (subst (AllLive h) (sym next) live)
      ∙ ap (λ r. some (records + 1 + fit h r less, less - total h (take (fit h r less) r))) next in
    scan_step (suc k) q h i remainder records p info (omega arith)
      (get_elem?-of_lt q.slots i 0
        (lt_of_lt_of_le (mod-lt (q.front + records) v.positive) v.storage))
      at
    ∙ ap (λ r. if ltb remainder info.rec.size then scanned records remainder else r) rec_call
    ∙ fit-cons h p rest remainder records info at

-- What `pop_bytes` does to a valid queue that owns its entries, when the buffer has room: it takes
-- out the longest run of oldest records that fits the bytes asked for, in order, returns their
-- bytes, and hands back the first sequence number.
pub pop_bytes_lem :
    (room : ℕ) (q : Queue) (bytes : ℕ) (held : List ℕ) (h : Heap)
    → IsValid q
    → IsOwned (contents q ++ held) h
    → bytes < word_mod
    → let n = fit h (contents q) bytes in
      n ≤ room
      → pop_bytes room q bytes h
        ≡ some (
          total h (take n (contents q)),
          record { buf = take n (contents q); first_seqno = q.front_seqno; queue = advance q n },
        )
unfolding pop_bytes
pop_bytes_lem room q bytes held h v own small fits =
    let xs = contents q in
    let n = fit h xs bytes in
    let start : window q.slots q.max_len (q.front + 0) q.len ≡ xs =
      ap (λ j. window q.slots q.max_len j q.len) (omega arith) in
    let scan : scan_bytes (q.len + 1) q h q.front bytes 0
        ≡ scanned n (bytes - total h (take n xs)) =
      ap (λ f. scan_bytes f q h q.front bytes 0) {y = suc q.len} (omega arith)
      ∙ ap (λ j. scan_bytes (suc q.len) q h j bytes 0)
          (sym (mod_below q.front q.max_len v.front_in) ∙ ap (λ j. j % q.max_len) (omega arith))
      ∙ scan_lem q.len q h bytes 0 v (omega arith)
          (subst (AllLive h) (sym start) (IsOwned-AllLive xs held h own))
      ∙ ap (λ r. scanned (0 + fit h r bytes) (bytes - total h (take (fit h r bytes) r))) start
      ∙ ap (λ m. scanned m (bytes - total h (take n xs))) (omega arith) in
    let le : n ≤ q.len =
      omega (arith, fit-le h xs bytes, length-window q.slots q.max_len q.front q.len) in
    rw (scan, pop_helper_lem room q n v le fits)
      (ap
        (λ b.
          some (b, record { buf = take n xs; first_seqno = q.front_seqno; queue = advance q n }))
        (omega (arith, fit_fits h xs bytes)))
