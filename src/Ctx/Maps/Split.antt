-- ===== src/Ctx/Maps/Split.antt =====
-- The maps split the requests by driver.
use hound.Base.{
  ℕ, ◌≡◌, refl, ap, sym, subst, ◌∙◌, Option, none, some, Bool, true, false, ◌==◌, if◌then◌else◌,
  List, [], ◌∷◌, ◌++◌, append_assoc, append-nil, Bool-cases, inl, inr, ==→eq,
}
use hound.Driver.Calls.{good, DataRq}
use hound.Driver.Descs.{DriverInfo, driver_get}
use hound.Io.Calls.{Vecs, IsVecs}
use hound.Ctx.Maps.{
  DataMaps, vec_at, put_vec, Mapping, add_on_demand, add_rq, maps_loop, make_driver_data_maps,
}

-- Every request has a driver.
abbrev pub AllKnown : (ℕ → Option DriverInfo) → List DataRq → Type 0
AllKnown data_map [] = Unit {0}
AllKnown data_map (rq ∷ rqs) =
    ((drv : DriverInfo) × (data_map rq.id ≡ some drv)) × AllKnown data_map rqs

abbrev pub serves : (ℕ → Option DriverInfo) → ℕ → DataRq → Bool
serves data_map d rq = elim (data_map rq.id) [ none ↦ false | some drv ↦ drv.id == d ]

-- The requests of a driver, and the IDs of those on demand.
abbrev pub requests_of : (ℕ → Option DriverInfo) → ℕ → List DataRq → List DataRq
requests_of data_map d [] = []
requests_of data_map d (rq ∷ rqs) =
    if serves data_map d rq then rq ∷ requests_of data_map d rqs else requests_of data_map d rqs

abbrev pub demands : List DataRq → List ℕ
demands [] = []
demands (rq ∷ rqs) = if rq.period_ns == 0 then rq.id ∷ demands rqs else demands rqs

-- A driver without any has no entry.
abbrev pub entry_of : {A : Type 0} → Option (List A) → List A → Option (List A)
entry_of none [] = none
entry_of none (x ∷ xs) = some (x ∷ xs)
entry_of (some ys) xs = some (ys ++ xs)

entry_of-some :
    {A : Type 0} (o : Option (List A)) (x : A) (xs : List A)
    → entry_of (some ((elim o [ none ↦ [] | some ys ↦ ys ]) ++ (x ∷ []))) xs ≡ entry_of o (x ∷ xs)
entry_of-some none x xs = refl
entry_of-some (some ys) x xs = ap some (append_assoc ys (x ∷ []) xs)

entry_of-put :
    {A : Type 0} (m : ℕ → Option (List A)) (drv d : ℕ) (x : A) (xs : List A)
    → entry_of (put_vec m drv (vec_at m drv ++ (x ∷ [])) d) xs
      ≡ entry_of (m d) (if drv == d then x ∷ xs else xs)
entry_of-put m drv d x xs = elim (Bool-cases (drv == d)) [
  | inl e ↦ rw (e) (entry_of-some (m drv) x xs ∙ ap (λ k. entry_of (m k) (x ∷ xs)) (==→eq drv d e))
  | inr e ↦ rw (e) refl
]

entry_of-nil : {A : Type 0} (o : Option (List A)) → o ≡ entry_of o []
entry_of-nil none = refl
entry_of-nil (some ys) = ap some (sym (append-nil ys))

demands-if :
    (b z : Bool) (rq : DataRq) (rqs : List DataRq)
    → (rq.period_ns == 0) ≡ z
    → (if z then (if b then rq.id ∷ demands rqs else demands rqs) else demands rqs)
      ≡ demands (if b then rq ∷ rqs else rqs)
demands-if true true rq rqs e = rw (e) refl
demands-if true false rq rqs e = rw (e) refl
demands-if false true rq rqs e = refl
demands-if false false rq rqs e = refl

on_demand-put :
    (f : ℕ → Option (List ℕ)) (drv d : ℕ) (z : Bool) (rq : DataRq) (rqs : List DataRq)
    → (rq.period_ns == 0) ≡ z
    → entry_of ((if z then put_vec f drv (vec_at f drv ++ (rq.id ∷ [])) else f) d) (demands rqs)
      ≡ entry_of (f d) (demands (if drv == d then rq ∷ rqs else rqs))
on_demand-put f drv d true rq rqs e =
    entry_of-put f drv d rq.id (demands rqs)
    ∙ ap (entry_of (f d)) (demands-if (drv == d) true rq rqs e)
on_demand-put f drv d false rq rqs e = ap (entry_of (f d)) (demands-if (drv == d) false rq rqs e)

driver_get_known :
    (data_map : ℕ → Option DriverInfo) (id : ℕ) (drv : DriverInfo)
    → data_map id ≡ some drv
    → driver_get data_map id ≡ (good, some drv)
unfolding driver_get
driver_get_known data_map id drv e = rw (driver_get, e) refl

-- What adding one request leaves.
record AddedRq {W : Type 0} (drv : ℕ) (rq : DataRq) (m a : Mapping W) : Type 0 where
  complete : a.complete ≡ true
  err : a.err ≡ good
  drv_data : a.maps.drv_data ≡ put_vec m.maps.drv_data drv (vec_at m.maps.drv_data drv ++ (rq ∷ []))
  on_demand : a.maps.on_demand ≡ (
      if rq.period_ns == 0
      then put_vec m.maps.on_demand drv (vec_at m.maps.on_demand drv ++ (rq.id ∷ []))
      else m.maps.on_demand)

-- What the loop leaves.
pub record SplitBy {W : Type 0} (data_map : ℕ → Option DriverInfo) (rqs : List DataRq)
    (m a : Mapping W) : Type 0 where
  pub complete : a.complete ≡ true
  pub err : a.err ≡ good
  pub drv_data :
      (d : ℕ) → a.maps.drv_data d ≡ entry_of (m.maps.drv_data d) (requests_of data_map d rqs)
  pub on_demand :
      (d : ℕ)
      → a.maps.on_demand d ≡ entry_of (m.maps.on_demand d) (demands (requests_of data_map d rqs))

module _ {W : Type 0} (v : Vecs W) (l : IsVecs v)
    (memory : (A : Type 0) (xs : List A) (x : A) (w : W) → (v.pushp xs x w).0 ≡ true)
    (put : W → Bool × W) (puts : (w : W) → (put w).0 ≡ true)
    (data_map : ℕ → Option DriverInfo) where
  add_rq_lem :
      (drv : ℕ) (rq : DataRq) (m : Mapping W) → AddedRq drv rq m (add_rq v put data_map drv rq m)
  unfolding add_rq add_on_demand
  add_rq_lem drv rq m =
      let w₁ = (put m.world).1 in
      let rqs = vec_at m.maps.drv_data drv in
      let ok = memory DataRq rqs rq w₁ in
      let pushed = l.push_appends rqs rq w₁ ok in
      let w₂ = (v.pushp rqs rq w₁).2 in
      let w₃ = (put w₂).1 in
      let ids = vec_at m.maps.on_demand drv in
      let ok' = memory ℕ ids rq.id w₃ in
      let pushed' = l.push_appends ids rq.id w₃ ok' in
      elim (Bool-cases (rq.period_ns == 0)) [
        | inl e ↦ record {
          complete = rw (add_rq, puts m.world, ok, e, add_on_demand, puts w₂) ok';
          err = rw (add_rq, puts m.world, ok, e, add_on_demand, puts w₂) refl;
          drv_data =
              rw (add_rq, puts m.world, ok, e, add_on_demand, puts w₂)
                (ap (put_vec m.maps.drv_data drv) pushed);
          on_demand =
              rw (add_rq, puts m.world, ok, e, add_on_demand, puts w₂)
                (ap (put_vec m.maps.on_demand drv) pushed');
        }
        | inr e ↦ record {
          complete = rw (add_rq, puts m.world, ok, e) refl;
          err = rw (add_rq, puts m.world, ok, e) refl;
          drv_data = rw (add_rq, puts m.world, ok, e) (ap (put_vec m.maps.drv_data drv) pushed);
          on_demand = rw (add_rq, puts m.world, ok, e) refl;
        }
      ]

  requests_of-cons :
      (drv : DriverInfo) (rq : DataRq) (rqs : List DataRq) (d : ℕ)
      → data_map rq.id ≡ some drv
      → (if drv.id == d then rq ∷ requests_of data_map d rqs else requests_of data_map d rqs)
        ≡ requests_of data_map d (rq ∷ rqs)
  requests_of-cons drv rq rqs d e =
      let rest = requests_of data_map d rqs in
      sym (
        ap
          (λ (o : Option DriverInfo).
            if elim o [ none ↦ false | some x ↦ x.id == d ] then rq ∷ rest else rest)
          e)

  maps_loop_cons :
      (rq : DataRq) (rqs : List DataRq) (m : Mapping W) (drv : DriverInfo)
      → driver_get data_map rq.id ≡ (good, some drv)
      → (add_rq v put data_map drv.id rq m).complete ≡ true
      → maps_loop v put data_map (rq ∷ rqs) m
        ≡ maps_loop v put data_map rqs (add_rq v put data_map drv.id rq m)
  unfolding maps_loop
  maps_loop_cons rq rqs m drv e c = rw (maps_loop, e, c) refl

  maps_loop_lem :
      (rqs : List DataRq) (m : Mapping W)
      → m.complete ≡ true
      → m.err ≡ good
      → AllKnown data_map rqs
      → SplitBy data_map rqs m (maps_loop v put data_map rqs m)
  unfolding maps_loop
  maps_loop_lem [] m complete err known = record {
    complete = complete;
    err = err;
    drv_data = λ d. entry_of-nil (m.maps.drv_data d);
    on_demand = λ d. entry_of-nil (m.maps.on_demand d);
  }
  maps_loop_lem (rq ∷ rqs) m complete err ((drv, e), known) =
      let a = add_rq_lem drv.id rq m in
      let added = add_rq v put data_map drv.id rq m in
      let rest = maps_loop_lem rqs added a.complete a.err known in
      let runs = maps_loop_cons rq rqs m drv (driver_get_known data_map rq.id drv e) a.complete in
      let whole : SplitBy data_map (rq ∷ rqs) m (maps_loop v put data_map rqs added) = record {
        complete = rest.complete;
        err = rest.err;
        drv_data = λ d.
            rest.drv_data d
            ∙ ap (λ f. entry_of (f d) (requests_of data_map d rqs)) a.drv_data
            ∙ entry_of-put m.maps.drv_data drv.id d rq (requests_of data_map d rqs)
            ∙ ap (entry_of (m.maps.drv_data d)) (requests_of-cons drv rq rqs d e);
        on_demand = λ d.
            rest.on_demand d
            ∙ ap (λ f. entry_of (f d) (demands (requests_of data_map d rqs))) a.on_demand
            ∙ on_demand-put m.maps.on_demand drv.id d (rq.period_ns == 0) rq
                (requests_of data_map d rqs) refl
            ∙ ap (λ xs. entry_of (m.maps.on_demand d) (demands xs))
                (requests_of-cons drv rq rqs d e);
      } in
      subst (SplitBy data_map (rq ∷ rqs) m) (sym runs) whole

  -- `make_driver_data_maps` where the memory does not run out and every request has a driver: it
  -- succeeds and stores both maps; the first has for each driver its requests in their order, the second
  -- the IDs of those on demand (with the period 0), and neither has an entry for a driver without any.
  pub make_driver_data_maps_lem :
      (rqs : List DataRq) (w : W)
      → AllKnown data_map rqs
      → (maps : DataMaps) × (w' : W) × (make_driver_data_maps v put data_map rqs w
          ≡ some (good, some maps, w'))
        × ((d : ℕ) → maps.drv_data d ≡ entry_of none (requests_of data_map d rqs))
        × ((d : ℕ) → maps.on_demand d ≡ entry_of none (demands (requests_of data_map d rqs)))
  unfolding make_driver_data_maps
  make_driver_data_maps_lem rqs w known =
      let w₁ = (put w).1 in
      let empty : DataMaps = record { drv_data = λ d. none; on_demand = λ d. none } in
      let start : Mapping W = record {
        complete = true;
        err = good;
        maps = empty;
        world = (put w₁).1;
      } in
      let s = maps_loop_lem rqs start refl refl known in
      let m = maps_loop v put data_map rqs start in
      (
        m.maps,
        m.world,
        rw (make_driver_data_maps, puts w, puts w₁, s.complete, s.err) refl,
        s.drv_data,
        s.on_demand,
      )
