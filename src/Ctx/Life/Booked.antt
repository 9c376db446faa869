-- ===== src/Ctx/Life/Booked.antt =====
-- What `driver_ref` and `driver_unref` of one driver do to the references that all drivers hold.
use hound.Base.{
  ℕ, ◌+◌, ◌<◌, ◌≡◌, refl, ap, ◌∙◌, subst, Option, some, true, false, ◌==◌, ==_self, ==→eq,
  if◌then◌else◌, List, [], ◌∷◌, arith, Bool-cases, inl, inr, word_mod,
}
use hound.Driver.Calls.{Result, is_ok, DataRq, Data, Calls, IsVec}
use hound.Driver.Refs.{Driver}
use hound.Driver.Refs.Ref.{driver_ref_lem}
use hound.Driver.Refs.Unref.{driver_unref_lem}
use hound.Driver.Active.Counts.{Holds, Holds-cong, times}
use hound.Ctx.Life.{Fleet, put_driver, ref_at, unref_at}

abbrev pub Entries : Type 0
Entries = List (ℕ × List DataRq)

-- The references to a request that the entries of a map ask of a driver, and their number.
abbrev pub booked : Entries → ℕ → DataRq → ℕ
booked [] x k = 0
booked ((drv, rqs) ∷ rest) x k = (if drv == x then times k rqs else 0) + booked rest x k

abbrev pub uses : Entries → ℕ → ℕ
uses [] x = 0
uses ((drv, rqs) ∷ rest) x = (if drv == x then 1 else 0) + uses rest x

-- What is left of a map: some of the entries, in order, each of which its driver refused to give back
-- at some time.
pub data Remains {W : Type 0} (c : ℕ → Calls W) (queue : ℕ) : Entries → Entries → Type 0 where
  no_entry : Remains c queue [] []
  keeps_entry :
      (drv : ℕ) (rqs : List DataRq) (stay map : Entries) (err : Result) (s t : Fleet W)
      → unref_at c drv queue rqs s ≡ some (err, t)
      → is_ok err ≡ false
      → Remains c queue stay map
      → Remains c queue ((drv, rqs) ∷ stay) ((drv, rqs) ∷ map)
  leaves_entry :
      (drv : ℕ) (rqs : List DataRq) (stay map : Entries)
      → Remains c queue stay map
      → Remains c queue stay ((drv, rqs) ∷ map)

pub nothing_stays :
    {W : Type 0} → (c : ℕ → Calls W) (queue : ℕ) (map : Entries) → Remains c queue [] map
nothing_stays c queue [] = no_entry
nothing_stays c queue ((drv, rqs) ∷ map) = leaves_entry drv rqs [] map (nothing_stays c queue map)

module _ {W : Type 0} where
  -- Each driver holds just the references `refs` of its data, and has been referenced `count` times.
  pub record At (s : Fleet W) (refs : ℕ → DataRq → ℕ) (count : ℕ → ℕ) : Type 0 where
    pub holds : (x : ℕ) → Holds (s.drivers x).active_data (refs x)
    pub counts : (x : ℕ) → (s.drivers x).refcount ≡ count x

  pub At-cong :
      (s : Fleet W) (refs refs' : ℕ → DataRq → ℕ) (count count' : ℕ → ℕ)
      → At s refs count
      → ((x : ℕ) (k : DataRq) → refs x k ≡ refs' x k)
      → ((x : ℕ) → count x ≡ count' x)
      → At s refs' count'
  At-cong s refs refs' count count' at e f = record {
    holds = λ x. Holds-cong (at.holds x) (e x);
    counts = λ x. at.counts x ∙ f x;
  }

  put_driver-At :
      (s : Fleet W) (refs refs' : ℕ → DataRq → ℕ) (count count' : ℕ → ℕ) (x : ℕ) (d : Driver)
      (w : W)
      → At s refs count
      → Holds d.active_data (refs' x)
      → d.refcount ≡ count' x
      → ((y : ℕ) → (x == y) ≡ false → ((k : DataRq) → refs y k ≡ refs' y k) × (count y ≡ count' y))
      → At (put_driver W x d w s) refs' count'
  put_driver-At s refs refs' count count' x d w at h n others = record {
    holds = λ y. elim (Bool-cases (x == y)) [
      | inl same ↦ rw (same) (subst (λ z. Holds d.active_data (refs' z)) (==→eq x y same) h)
      | inr other ↦ rw (other) (Holds-cong (at.holds y) (others y other).0)
    ];
    counts = λ y. elim (Bool-cases (x == y)) [
      | inl same ↦ rw (same) (subst (λ z. d.refcount ≡ count' z) (==→eq x y same) n)
      | inr other ↦ rw (other) (at.counts y ∙ (others y other).1)
    ];
  }

-- Vectors of xlib, and memory for the active data.
module _ {W : Type 0} (c : ℕ → Calls W) (vec : (x : ℕ) → IsVec (c x))
    (memory : (x : ℕ) (ds : List Data) (d : Data) (v : W) → ((c x).pushp ds d v).0 ≡ true) where
  -- One driver, from the references `refs` of it and others: with the entry's, or as before.
  pub record Moved (refs refs' : ℕ → DataRq → ℕ) (count count' : ℕ → ℕ)
      (r : Option (Result × Fleet W)) : Type 0 where
    pub error : Result
    pub state : Fleet W
    pub returns : r ≡ some (error, state)
    pub done : is_ok error ≡ true → At state refs' count'
    pub undone : is_ok error ≡ false → At state refs count

  pub ref_at_lem :
      (x queue : ℕ) (rqs : List DataRq) (s : Fleet W) (refs refs' : ℕ → DataRq → ℕ)
      (count count' : ℕ → ℕ)
      → At s refs count
      → ((y : ℕ) (k : DataRq) → refs' y k ≡ refs y k + (if x == y then times k rqs else 0))
      → ((y : ℕ) → count' y ≡ count y + (if x == y then 1 else 0))
      → ((y : ℕ) (k : DataRq) → refs' y k < word_mod)
      → ((y : ℕ) → count' y < word_mod)
      → Moved refs refs' count count' (ref_at c x queue rqs s)
  unfolding ref_at
  ref_at_lem x queue rqs s refs refs' count count' at e f small room =
      let d = s.drivers x in
      let self = ==_self x in
      let more : (k : DataRq) → refs x k + times k rqs ≡ refs' x k =
        λ k. ground (arith, e x k, self) in
      let one_more : count x + 1 ≡ count' x = ground (arith, f x, self) in
      let r =
        driver_ref_lem (c x) (vec x) d queue (refs x) rqs s.rest (at.holds x)
          (λ k. omega (arith, more k, small x k)) (omega (arith, at.counts x, one_more, room x))
          (memory x) in
      record {
        error = r.error;
        state = put_driver W x r.driver r.world s;
        returns = rw (r.returns) refl;
        done = λ ok.
            put_driver-At s refs refs' count count' x r.driver r.world at
              (Holds-cong (r.done ok).0 more)
              ((r.done ok).1 ∙ ap (λ n. n + 1) (at.counts x) ∙ one_more)
              (λ y other. (λ k. ground (arith, e y k), ground (arith, f y)));
        undone = λ bad.
            put_driver-At s refs refs count count x r.driver r.world at (r.undone bad).0
              ((r.undone bad).1 ∙ at.counts x) (λ y other. (λ k. refl, refl));
      }

  pub unref_at_lem :
      (x queue : ℕ) (rqs : List DataRq) (s : Fleet W) (refs refs' : ℕ → DataRq → ℕ)
      (count count' : ℕ → ℕ)
      → At s refs count
      → ((y : ℕ) (k : DataRq) → refs y k ≡ refs' y k + (if x == y then times k rqs else 0))
      → ((y : ℕ) → count y ≡ count' y + (if x == y then 1 else 0))
      → ((y : ℕ) (k : DataRq) → refs y k < word_mod)
      → ((y : ℕ) → count y < word_mod)
      → Moved refs refs' count count' (unref_at c x queue rqs s)
  unfolding unref_at
  unref_at_lem x queue rqs s refs refs' count count' at e f small room =
      let d = s.drivers x in
      let self = ==_self x in
      let fewer : (k : DataRq) → refs' x k + times k rqs ≡ refs x k =
        λ k. ground (arith, e x k, self) in
      let one_less : count' x + 1 ≡ count x = ground (arith, f x, self) in
      let r =
        driver_unref_lem (c x) (vec x) d queue (refs x) rqs s.rest (at.holds x)
          (λ k. omega (arith, fewer k)) (small x) (omega (arith, at.counts x, one_less))
          (omega (arith, at.counts x, room x)) (memory x) in
      record {
        error = r.error;
        state = put_driver W x r.driver r.world s;
        returns = rw (r.returns) refl;
        done = λ ok.
            put_driver-At s refs refs' count count' x r.driver r.world at
              (Holds-cong (r.done ok).0 (λ k. omega (arith, fewer k)))
              ((r.done ok).1 ∙ omega (arith, at.counts x, one_less))
              (λ y other. (λ k. ground (arith, e y k), ground (arith, f y)));
        undone = λ bad.
            put_driver-At s refs refs count count x r.driver r.world at (r.undone bad).0
              ((r.undone bad).1 ∙ at.counts x) (λ y other. (λ k. refl, refl));
      }
