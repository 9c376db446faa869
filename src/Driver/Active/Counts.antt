-- ===== src/Driver/Active/Counts.antt =====
-- What the active data of a driver stand for: how many references each request has.
use hound.Base.{
  ℕ, suc, ◌+◌, ◌≤◌, ◌<◌, ◌≡◌, refl, ap, ◌∙◌, subst, Bool, true, false, ◌==◌, if◌then◌else◌, List,
  [], ◌∷◌, ◌++◌, length, get_or, set, arith, Bool-cases, inl, inr,
}
use hound.Driver.Calls.{DataRq, Data}
use hound.Driver.Active.{same, index_from}
use hound.Base.{sum_by, sum_by-append, sum_by-set, sum_by-get}

abbrev pub bit : Bool → ℕ
bit true = 1
bit false = 0

-- The number of entries, and of references, for a request.
abbrev pub entry : DataRq → Data → ℕ
entry k d = bit (same d.rq k)

abbrev pub share : DataRq → Data → ℕ
share k d = if same d.rq k then d.refcount else 0

abbrev pub idle : Data → ℕ
idle d = bit (d.refcount == 0)

-- How often a list of requests names a request.
abbrev pub times : DataRq → List DataRq → ℕ
times k [] = 0
times k (rq ∷ rqs) = bit (same rq k) + times k rqs

-- The active data hold just the references `refs`, at most one entry for each request, and no entry
-- without references.
pub record Holds (ds : List Data) (refs : DataRq → ℕ) : Type 0 where
  pub shares : (k : DataRq) → sum_by (share k) ds ≡ refs k
  pub alone : (k : DataRq) → sum_by (entry k) ds ≤ 1
  pub busy : sum_by idle ds ≡ 0

pub same→eq : (a b : DataRq) → same a b ≡ true → a ≡ b
same→eq a b e =
    let i : a.id ≡ b.id = ground arith in
    let p : a.period_ns ≡ b.period_ns = ground arith in λ j. record { id = i j; period_ns = p j }

pub same_self : (a : DataRq) → same a a ≡ true
same_self a = ground arith

-- The search finds an entry of the request, or there is none.
pub index_from_found :
    (ds : List Data) (rq : DataRq) (i j : ℕ) (d : Data)
    → index_from ds rq i ≡ (true, j)
    → (m : ℕ) × (j ≡ i + m) × (m < length ds) × (same (get_or ds m d).rq rq ≡ true)
unfolding index_from
index_from_found [] rq i j d e = cc
index_from_found (x ∷ ds) rq i j d e = elim (Bool-cases (same x.rq rq)) [
  | inl hit ↦ (
    0,
    (let here : (true, i) ≡ (true, j) = rw (index_from, hit) at e in
        omega (arith, ap (λ r. r.1) here)),
    omega arith,
    hit,
  )
  | inr miss ↦
      let (m, here, lt, hit) = index_from_found ds rq (i + 1) j d (rw (index_from, miss) at e) in
      (suc m, omega (arith, here), omega (arith, lt), hit)
]

pub index_from_missing :
    (ds : List Data) (rq : DataRq) (i j : ℕ)
    → index_from ds rq i ≡ (false, j)
    → sum_by (entry rq) ds ≡ 0
unfolding index_from
index_from_missing [] rq i j e = refl
index_from_missing (x ∷ ds) rq i j e = elim (Bool-cases (same x.rq rq)) [
  | inl hit ↦
      (let here : (true, i) ≡ (false, j) = rw (index_from, hit) at e in
        let t : true ≡ false = ap (λ r. r.0) here in cc)
  | inr miss ↦
      rw (miss) (omega (arith, index_from_missing ds rq (i + 1) j (rw (index_from, miss) at e)))
]

-- One more reference to an entry found, one more entry, and one reference fewer.
module _ {ds : List Data} {refs : DataRq → ℕ} (holds : Holds ds refs) (rq : DataRq) where
  alone_after :
      sum_by (entry rq) ds ≡ 0
      → (k : DataRq) → sum_by (entry k) (ds ++ (record { refcount = 1; rq = rq } ∷ [])) ≤ 1
  alone_after none_yet k =
      let s : sum_by (entry k) (ds ++ (record { refcount = 1; rq = rq } ∷ []))
          ≡ sum_by (entry k) ds + bit (same rq k) =
        sum_by-append (entry k) ds (record { refcount = 1; rq = rq }) in
      elim (Bool-cases (same rq k)) [
        | inl hit ↦
            let z : sum_by (entry k) ds ≡ 0 =
              subst (λ r. sum_by (entry r) ds ≡ 0) (same→eq rq k hit) none_yet in
            omega (arith, s, z, ap bit hit)
        | inr miss ↦ omega (arith, s, ap bit miss, holds.alone k)
      ]

  pub append-Holds :
      sum_by (entry rq) ds ≡ 0
      → Holds (ds ++ (record { refcount = 1; rq = rq } ∷ [])) (λ k. refs k + bit (same rq k))
  append-Holds none_yet = record {
    shares = λ k.
        sum_by-append (share k) ds (record { refcount = 1; rq = rq })
        ∙ ground (arith, holds.shares k);
    alone = alone_after none_yet;
    busy = sum_by-append idle ds (record { refcount = 1; rq = rq }) ∙ omega (arith, holds.busy);
  }

  module _ (m : ℕ) (d : Data) (lt : m < length ds) (hit : same (get_or ds m d).rq rq ≡ true) where
    pub the_rq : (get_or ds m d).rq ≡ rq
    the_rq = same→eq (get_or ds m d).rq rq hit

    pub count_le : (get_or ds m d).refcount ≤ refs rq
    count_le = ground (arith, sum_by-get (share rq) ds m d lt, holds.shares rq)

    pub count_pos : 0 < (get_or ds m d).refcount
    count_pos = ground (arith, sum_by-get idle ds m d lt, holds.busy)

    -- What the sums come to when the entry has `n` references.
    pub changed_share :
        (k : DataRq) (n : ℕ)
        → sum_by (share k) (set ds m (record (get_or ds m d) { refcount = n }))
            + (if same rq k then (get_or ds m d).refcount else 0)
          ≡ refs k + (if same rq k then n else 0)
    changed_share k n =
        let e : same (get_or ds m d).rq k ≡ same rq k = ap (λ r. same r k) the_rq in
        let s : sum_by (share k) (set ds m (record (get_or ds m d) { refcount = n }))
              + (if same (get_or ds m d).rq k then (get_or ds m d).refcount else 0)
            ≡ sum_by (share k) ds + (if same (get_or ds m d).rq k then n else 0) =
          sum_by-set (share k) ds m (record (get_or ds m d) { refcount = n }) d lt in
        omega (arith, rw (e) at s, holds.shares k)

    pub changed_entry :
        (k : DataRq) (n : ℕ)
        → sum_by (entry k) (set ds m (record (get_or ds m d) { refcount = n }))
          ≡ sum_by (entry k) ds
    changed_entry k n =
        ground (arith, sum_by-set (entry k) ds m (record (get_or ds m d) { refcount = n }) d lt)

    pub changed_idle :
        (n : ℕ) → sum_by idle (set ds m (record (get_or ds m d) { refcount = n })) ≡ bit (n == 0)
    changed_idle n = ground (
      arith,
      sum_by-set idle ds m (record (get_or ds m d) { refcount = n }) d lt,
      count_pos,
      holds.busy,
    )

pub Holds-cong :
    {ds : List Data} {refs refs' : DataRq → ℕ}
    → Holds ds refs
    → ((k : DataRq) → refs k ≡ refs' k)
    → Holds ds refs'
Holds-cong holds e = record {
  shares = λ k. holds.shares k ∙ e k;
  alone = holds.alone;
  busy = holds.busy;
}
