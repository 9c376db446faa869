-- ===== src/Records/Owned.antt =====
-- Who owns a record: its reference count is the number of places that hold it.
use hound.Base.{
  ℕ, ◌+◌, ◌≤◌, ◌≢◌, count-append, ◌<◌, ◌≡◌, refl, Option, none, some, ◌==◌, if◌then◌else◌, List, [],
  ◌∷◌, ◌++◌, arith, count, word_mod, sub_size, Bool-cases, inl, inr, ==→eq,
}
use hound.Records.{RecordInfo, Heap, update, free_record_info, record_ref_dec, release}

-- The references that the heap counts for an address; a freed or unallocated object has none.
abbrev pub refs_of : Option RecordInfo → ℕ
refs_of none = 0
refs_of (some info) = info.refcount

abbrev pub refs : Heap → ℕ → ℕ
refs h p = refs_of (h p)

-- Exactly the entries of `held` hold references, no count reaches the width of a word, and an object
-- that nobody holds is gone.
abbrev pub IsOwned : List ℕ → Heap → Type 0
IsOwned held h =
    (p : ℕ) → (refs h p ≡ count p held) × (refs h p < word_mod) × (refs h p ≡ 0 → h p ≡ none)

-- What one decrement does to the object at `q`.
abbrev Dropped : ℕ → Heap → Heap → ℕ → Type 0
Dropped p h h' q =
    (refs h q ≡ refs h' q + (if p == q then 1 else 0))
    × ((refs h q ≡ 0 → h q ≡ none) → refs h' q ≡ 0 → h' q ≡ none)

dec_at :
    (p : ℕ) (h : Heap) (info : RecordInfo) (q : ℕ)
    → h p ≡ some info
    → 0 < info.refcount
    → info.refcount < word_mod
    → let h' = update h p (some (record info { refcount = sub_size info.refcount 1 })) in
      Dropped p h (if info.refcount == 1 then free_record_info p h' else h') q
unfolding free_record_info
dec_at p h info q e lt w = elim (Bool-cases (p == q)) [
  | inl same ↦ let pq : p ≡ q = ==→eq p q same in ground arith
  | inr other ↦ ground arith
]

dec_cases :
    (p : ℕ) (h : Heap) (o : Option RecordInfo)
    → h p ≡ o
    → 0 < refs_of o
    → refs_of o < word_mod
    → (h' : Heap) × (record_ref_dec p h ≡ some h') × ((q : ℕ) → Dropped p h h' q)
unfolding record_ref_dec
dec_cases p h none e lt w = elim lt [ ]
dec_cases p h (some info) e lt w =
    let h' = update h p (some (record info { refcount = sub_size info.refcount 1 })) in
    (
      if info.refcount == 1 then free_record_info p h' else h',
      ground arith,
      λ q. dec_at p h info q e lt w,
    )

-- A held reference can be dropped: the count falls by one, and at 0 the object is freed.
pub record_ref_dec-IsOwned :
    (p : ℕ) (held : List ℕ) (h : Heap)
    → IsOwned (p ∷ held) h
    → (h' : Heap) × (record_ref_dec p h ≡ some h') × IsOwned held h'
record_ref_dec-IsOwned p held h own =
    let (h', e, d) = dec_cases p h (h p) refl (ground (arith, own p)) ((own p).1) in
    (h', e, λ q. ground (arith, own q, d q))

-- The references of a list can be dropped one by one without a fault, and leave exactly those of the
-- other holders, so that a record is freed with its last reference and not before.
pub release-IsOwned :
    (ps held : List ℕ) (h : Heap)
    → IsOwned (ps ++ held) h
    → (h' : Heap) × (release ps h ≡ some h') × IsOwned held h'
unfolding release
release-IsOwned [] held h own = (h, refl, own)
release-IsOwned (p ∷ ps) held h own =
    let (h₁, e₁, own₁) = record_ref_dec-IsOwned p (ps ++ held) h own in
    let (h₂, e₂, own₂) = release-IsOwned ps held h₁ own₁ in (h₂, rw (e₁, e₂), own₂)

-- Ownership does not depend on the order of the holders.
pub IsOwned-reorder :
    (xs ys : List ℕ) (h : Heap) → ((p : ℕ) → count p xs ≡ count p ys) → IsOwned xs h → IsOwned ys h
IsOwned-reorder xs ys h same own p = ground (arith, same p, own p)

-- A record that joins the end of a list counts as one more holder.
pub count_moved :
    (p rec : ℕ) (xs held : List ℕ)
    → count p (rec ∷ xs ++ held) ≡ count p ((xs ++ (rec ∷ [])) ++ held)
count_moved p rec xs held = ground (
  arith,
  count-append p xs held,
  count-append p (xs ++ (rec ∷ [])) held,
  count-append p xs (rec ∷ []),
)

-- Where nothing is allocated at NULL, no holder is NULL.
pub held_ne_null : (x : ℕ) (held : List ℕ) (h : Heap) → IsOwned (x ∷ held) h → h 0 ≡ none → x ≢ 0
held_ne_null x held h own null e = ground (arith, own 0)

-- Every address of a list is that of an allocated record.
abbrev pub AllLive : Heap → List ℕ → Type 0
AllLive h [] = Unit {0}
AllLive h (p ∷ ps) = ((info : RecordInfo) × (h p ≡ some info)) × AllLive h ps

pub live_at : (o : Option RecordInfo) → 0 < refs_of o → (info : RecordInfo) × (o ≡ some info)
live_at none h = elim h [ ]
live_at (some info) h = (info, refl)

counted-AllLive : (xs : List ℕ) (h : Heap) → ((p : ℕ) → count p xs ≤ refs h p) → AllLive h xs
counted-AllLive [] h c = tt
counted-AllLive (x ∷ xs) h c =
    (live_at (h x) (ground (arith, c x)), counted-AllLive xs h (λ p. ground (arith, c p)))

pub IsOwned-AllLive : (xs held : List ℕ) (h : Heap) → IsOwned (xs ++ held) h → AllLive h xs
IsOwned-AllLive xs held h own =
    counted-AllLive xs h (λ p. omega (arith, own p, count-append p xs held))
