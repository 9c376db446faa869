-- ===== src/Ctx/Life/Walks.antt =====
-- What the loops of `ref_drivers` and `unref_drivers` of src/core/ctx.c do to the references that the
-- drivers hold.
use hound.Base.{
  ℕ, ◌+◌, ◌<◌, ◌≡◌, refl, Option, some, true, false, ◌==◌, if◌then◌else◌, List, [], ◌∷◌, ◌++◌,
  arith, Bool-cases, inl, inr, word_mod, subst, sym, append_assoc, append-nil,
}
use hound.Driver.Calls.{Result, good, is_ok, DataRq, Data, Calls, IsVec}
use hound.Driver.Active.Counts.{times}
use hound.Ctx.Life.{Fleet, unref_all, ref_all}
use hound.Ctx.Life.Booked.{
  Entries, booked, uses, Remains, no_entry, keeps_entry, leaves_entry, At, At-cong, ref_at_lem,
  unref_at_lem,
}

module _ {W : Type 0} where
  -- The references that all but the entries of `map` make, and those of `map`.
  pub record Holding (s : Fleet W) (refs : ℕ → DataRq → ℕ) (count : ℕ → ℕ) (map : Entries)
      : Type 0 where
    pub at : At s (λ x k. refs x k + booked map x k) (λ x. count x + uses map x)

  -- What unreferencing the drivers of a map leaves: the references of some of its entries stay where
  -- their drivers refuse, and an error says so.
  pub record Left (c : ℕ → Calls W) (queue : ℕ) (err : Result) (refs : ℕ → DataRq → ℕ)
      (count : ℕ → ℕ) (map : Entries) (r : Option (Result × Fleet W)) : Type 0 where
    pub error : Result
    pub state : Fleet W
    pub returns : r ≡ some (error, state)
    pub stay : Entries
    pub part : Remains c queue stay map
    pub holding : Holding state refs count stay
    pub told : is_ok error ≡ true → (stay ≡ []) × (is_ok err ≡ true)

  -- What referencing them leaves: the references of all entries, or an error, with those of some of the
  -- entries where the driver refuses to be unreferenced again.
  pub record Taken (c : ℕ → Calls W) (queue : ℕ) (refs : ℕ → DataRq → ℕ) (count : ℕ → ℕ)
      (before map : Entries) (r : Option (Result × Fleet W)) : Type 0 where
    pub error : Result
    pub state : Fleet W
    pub returns : r ≡ some (error, state)
    pub all_held : is_ok error ≡ true → Holding state refs count (before ++ map)
    pub stay : Entries
    pub part : is_ok error ≡ false → Remains c queue stay (before ++ map)
    pub holding : is_ok error ≡ false → Holding state refs count stay

booked-append :
    (a b : Entries) (x : ℕ) (k : DataRq) → booked (a ++ b) x k ≡ booked a x k + booked b x k
booked-append [] b x k = omega arith
booked-append ((drv, rqs) ∷ a) b x k = omega (arith, booked-append a b x k)

uses-append : (a b : Entries) (x : ℕ) → uses (a ++ b) x ≡ uses a x + uses b x
uses-append [] b x = omega arith
uses-append ((drv, rqs) ∷ a) b x = omega (arith, uses-append a b x)

Remains-append :
    {W : Type 0}
    → (c : ℕ → Calls W) (queue : ℕ) (later : Entries) {stay map : Entries}
    → Remains c queue stay map
    → Remains c queue stay (map ++ later)
Remains-append c queue [] no_entry = no_entry
Remains-append c queue ((drv, rqs) ∷ later) no_entry =
    leaves_entry drv rqs [] later (Remains-append c queue later no_entry)
Remains-append c queue later (keeps_entry drv rqs stay map err s t e bad p) =
    keeps_entry drv rqs stay (map ++ later) err s t e bad (Remains-append c queue later p)
Remains-append c queue later (leaves_entry drv rqs stay map p) =
    leaves_entry drv rqs stay (map ++ later) (Remains-append c queue later p)

module _ {W : Type 0} (c : ℕ → Calls W) (vec : (x : ℕ) → IsVec (c x))
    (memory : (x : ℕ) (ds : List Data) (d : Data) (v : W) → ((c x).pushp ds d v).0 ≡ true) where
  pub unref_all_lem :
      (queue : ℕ) (map : Entries) (err : Result) (s : Fleet W) (refs : ℕ → DataRq → ℕ)
      (count : ℕ → ℕ)
      → Holding s refs count map
      → ((x : ℕ) (k : DataRq) → refs x k + booked map x k < word_mod)
      → ((x : ℕ) → count x + uses map x < word_mod)
      → Left c queue err refs count map (unref_all c queue map err s)
  unfolding unref_all
  unref_all_lem queue [] err s refs count h small room = record {
    error = err;
    state = s;
    returns = refl;
    stay = [];
    part = no_entry;
    holding = h;
    told = λ ok. (refl, ok);
  }
  unref_all_lem queue ((drv, rqs) ∷ map) err s refs count h small room =
      let m =
        unref_at_lem c vec memory drv queue rqs s (λ x k. refs x k + booked ((drv, rqs) ∷ map) x k)
          (λ x k. refs x k + booked map x k) (λ x. count x + uses ((drv, rqs) ∷ map) x)
          (λ x. count x + uses map x) h.at (λ x k. omega arith) (λ x. omega arith) small room in
      elim (Bool-cases (is_ok m.error)) [
        | inl fine ↦
            let r =
              unref_all_lem queue map err m.state refs count (record { at = m.done fine })
                (λ x k. omega (arith, small x k)) (λ x. omega (arith, room x)) in
            record {
              error = r.error;
              state = r.state;
              returns = rw (unref_all, m.returns, fine) r.returns;
              stay = r.stay;
              part = leaves_entry drv rqs r.stay map r.part;
              holding = r.holding;
              told = r.told;
            }
        | inr bad ↦
            let refs' : ℕ → DataRq → ℕ = λ x k. refs x k + (if drv == x then times k rqs else 0) in
            let count' : ℕ → ℕ = λ x. count x + (if drv == x then 1 else 0) in
            let again : Holding m.state refs' count' map = record {
              at =
                  At-cong m.state (λ x k. refs x k + booked ((drv, rqs) ∷ map) x k)
                    (λ x k. refs' x k + booked map x k) (λ x. count x + uses ((drv, rqs) ∷ map) x)
                    (λ x. count' x + uses map x) (m.undone bad) (λ x k. omega arith)
                    (λ x. omega arith);
            } in
            let r =
              unref_all_lem queue map m.error m.state refs' count' again
                (λ x k. omega (arith, small x k)) (λ x. omega (arith, room x)) in
            record {
              error = r.error;
              state = r.state;
              returns = rw (unref_all, m.returns, bad) r.returns;
              stay = (drv, rqs) ∷ r.stay;
              part = keeps_entry drv rqs r.stay map m.error s m.state m.returns bad r.part;
              holding = record {
                at =
                    At-cong r.state (λ x k. refs' x k + booked r.stay x k)
                      (λ x k. refs x k + booked ((drv, rqs) ∷ r.stay) x k)
                      (λ x. count' x + uses r.stay x) (λ x. count x + uses ((drv, rqs) ∷ r.stay) x)
                      r.holding.at (λ x k. omega arith) (λ x. omega arith);
              };
              told = λ ok. cc (bad, (r.told ok).1);
            }
      ]

  pub ref_all_lem :
      (queue : ℕ) (before map : Entries) (s : Fleet W) (refs : ℕ → DataRq → ℕ) (count : ℕ → ℕ)
      → Holding s refs count before
      → ((x : ℕ) (k : DataRq) → refs x k + booked (before ++ map) x k < word_mod)
      → ((x : ℕ) → count x + uses (before ++ map) x < word_mod)
      → Taken c queue refs count before map (ref_all c queue before map s)
  unfolding ref_all
  ref_all_lem queue before [] s refs count h small room = record {
    error = good;
    state = s;
    returns = refl;
    all_held = λ ok. subst (Holding s refs count) (sym (append-nil before)) h;
    stay = [];
    part = λ bad. cc;
    holding = λ bad. cc;
  }
  ref_all_lem queue before ((drv, rqs) ∷ map) s refs count h small room =
      let here : Entries = before ++ ((drv, rqs) ∷ []) in
      let whole : here ++ map ≡ before ++ ((drv, rqs) ∷ map) =
        append_assoc before ((drv, rqs) ∷ []) map in
      let b = λ (x : ℕ) (k : DataRq). booked-append before ((drv, rqs) ∷ []) x k in
      let u = λ (x : ℕ). uses-append before ((drv, rqs) ∷ []) x in
      let b' = λ (x : ℕ) (k : DataRq). booked-append before ((drv, rqs) ∷ map) x k in
      let u' = λ (x : ℕ). uses-append before ((drv, rqs) ∷ map) x in
      let m =
        ref_at_lem c vec memory drv queue rqs s (λ x k. refs x k + booked before x k)
          (λ x k. refs x k + booked here x k) (λ x. count x + uses before x)
          (λ x. count x + uses here x) h.at (λ x k. omega (arith, b x k)) (λ x. omega (arith, u x))
          (λ x k. omega (arith, b x k, b' x k, small x k))
          (λ x. omega (arith, u x, u' x, room x)) in
      elim (Bool-cases (is_ok m.error)) [
        | inl fine ↦
            let r =
              ref_all_lem queue here map m.state refs count (record { at = m.done fine })
                (subst
                  (λ (es : Entries). (x : ℕ) (k : DataRq) → refs x k + booked es x k < word_mod)
                  (sym whole) small)
                (subst (λ (es : Entries). (x : ℕ) → count x + uses es x < word_mod) (sym whole)
                  room) in
            record {
              error = r.error;
              state = r.state;
              returns = rw (ref_all, m.returns, fine) r.returns;
              all_held = λ ok. subst (Holding r.state refs count) whole (r.all_held ok);
              stay = r.stay;
              part = λ bad. subst (Remains c queue r.stay) whole (r.part bad);
              holding = r.holding;
            }
        | inr bad ↦
            let r =
              unref_all_lem queue before good m.state refs count (record { at = m.undone bad })
                (λ x k. omega (arith, b' x k, small x k)) (λ x. omega (arith, u' x, room x)) in
            record {
              error = m.error;
              state = r.state;
              returns = rw (ref_all, m.returns, bad, r.returns) refl;
              all_held = λ ok. cc (bad, ok);
              stay = r.stay;
              part = λ e. Remains-append c queue ((drv, rqs) ∷ map) r.part;
              holding = λ e. r.holding;
            }
      ]
