-- ===== src/Ctx/Life/Start.antt =====
-- What starting and stopping a context does to the references that the drivers hold.
use hound.Base.{
  ℕ, ◌+◌, ◌<◌, ◌≡◌, refl, Option, some, true, false, List, [], arith, Bool-cases, inl, inr,
  word_mod,
}
use hound.Err.{HoundErr}
use hound.Queue.{queue_interrupt}
use hound.Driver.Calls.{Result, good, is_ok, DataRq, Data, Calls, IsVec}
use hound.Ctx.Read.{HoundCtx}
use hound.Ctx.Life.{Fleet, unref_drivers, ref_drivers, ctx_start, ctx_stop}
use hound.Ctx.Life.Booked.{Entries, booked, uses, Remains, nothing_stays, At, At-cong}
use hound.Ctx.Life.Walks.{Holding, unref_all_lem, ref_all_lem}

module _ {W : Type 0} where
  -- What a run of `ctx_start` leaves: the references of the map, or a context as before, with those of
  -- some entries of the map.
  pub record Started (c : ℕ → Calls W) (ctx : HoundCtx) (refs : ℕ → DataRq → ℕ) (count : ℕ → ℕ)
      (r : Option (Result × HoundCtx × Fleet W)) : Type 0 where
    pub error : Result
    pub context : HoundCtx
    pub state : Fleet W
    pub returns : r ≡ some (error, context, state)
    pub starts :
        is_ok error ≡ true
        → (ctx.active ≡ false)
          × (context ≡ record ctx { active = true })
          × Holding state refs count ctx.drv_data_map
    pub stay : Entries
    pub stays :
        is_ok error ≡ false
        → (context ≡ ctx)
          × Remains c ctx.queue_ptr stay ctx.drv_data_map
          × Holding state refs count stay

  -- What `ctx_stop` leaves: the references of the entries that are unreferenced are gone.
  pub record Stopped (c : ℕ → Calls W) (ctx : HoundCtx) (refs : ℕ → DataRq → ℕ) (count : ℕ → ℕ)
      (r : Option (Result × HoundCtx × Fleet W)) : Type 0 where
    pub error : Result
    pub state : Fleet W
    pub returns :
        r ≡ some (error, record ctx { active = false; queue = queue_interrupt ctx.queue }, state)
    pub stay : Entries
    pub part : Remains c ctx.queue_ptr stay ctx.drv_data_map
    pub holding : Holding state refs count stay
    pub all_gone : is_ok error ≡ true → At state refs count

  none_booked :
      (s : Fleet W) (refs : ℕ → DataRq → ℕ) (count : ℕ → ℕ)
      → At s refs count
      → Holding s refs count []
  none_booked s refs count at = record {
    at =
        At-cong s refs (λ x k. refs x k + booked [] x k) count (λ x. count x + uses [] x) at
          (λ x k. omega arith) (λ x. omega arith);
  }

  Holding-nil :
      (s : Fleet W) (refs : ℕ → DataRq → ℕ) (count : ℕ → ℕ) (stay : Entries)
      → Holding s refs count stay
      → stay ≡ []
      → At s refs count
  Holding-nil s refs count stay h e =
      At-cong s (λ x k. refs x k + booked stay x k) refs (λ x. count x + uses stay x) count h.at
        (λ x k. rw (e) (omega arith)) (λ x. rw (e) (omega arith))

module _ {W : Type 0} (c : ℕ → Calls W) (vec : (x : ℕ) → IsVec (c x))
    (memory : (x : ℕ) (ds : List Data) (d : Data) (v : W) → ((c x).pushp ds d v).0 ≡ true) where
  -- `ctx_start` over drivers whose references are counted has no fault, where the counts stay below
  -- 2 ^ 64. Where it succeeds the context was not active and is, and the drivers have the references of
  -- all entries of its map as well. Where it fails the context is as before, and the drivers keep, beside
  -- the references that they had, only those of entries whose driver then refused to be unreferenced. The memory for the active data does not run out.
  pub ctx_start_lem :
      (ctx : HoundCtx) (s : Fleet W) (refs : ℕ → DataRq → ℕ) (count : ℕ → ℕ)
      → At s refs count
      → ((x : ℕ) (k : DataRq) → refs x k + booked ctx.drv_data_map x k < word_mod)
      → ((x : ℕ) → count x + uses ctx.drv_data_map x < word_mod)
      → Started c ctx refs count (ctx_start c ctx s)
  unfolding ctx_start ref_drivers
  ctx_start_lem ctx s refs count at small room =
      let r =
        ref_all_lem c vec memory ctx.queue_ptr [] ctx.drv_data_map s refs count
          (none_booked s refs count at) small room in
      elim (Bool-cases ctx.active) [
        | inl on ↦ record {
          error = Result.library HoundErr.ctx_active;
          context = ctx;
          state = s;
          returns = rw (on) refl;
          starts = λ ok. cc;
          stay = [];
          stays = λ bad.
              (refl, nothing_stays c ctx.queue_ptr ctx.drv_data_map, none_booked s refs count at);
        }
        | inr off ↦ elim (Bool-cases (is_ok r.error)) [
          | inl fine ↦ record {
            error = good;
            context = record ctx { active = true };
            state = r.state;
            returns = rw (off, r.returns, fine) refl;
            starts = λ ok. (off, refl, r.all_held fine);
            stay = [];
            stays = λ bad. cc;
          }
          | inr bad ↦ record {
            error = r.error;
            context = ctx;
            state = r.state;
            returns = rw (off, r.returns, bad) refl;
            starts = λ ok. cc (bad, ok);
            stay = r.stay;
            stays = λ e. (refl, r.part bad, r.holding bad);
          }
        ]
      ]

  -- `ctx_stop` of an active context, whose drivers hold the references of its map beside others, has no
  -- fault: its queue is interrupted, it is not active any more, and the drivers keep the other
  -- references and only those of entries whose driver refused to be unreferenced; where it returns HOUND_OK, they keep just
  -- the others. The memory for the active data does not run out.
  pub ctx_stop_lem :
      (ctx : HoundCtx) (s : Fleet W) (refs : ℕ → DataRq → ℕ) (count : ℕ → ℕ)
      → ctx.active ≡ true
      → Holding s refs count ctx.drv_data_map
      → ((x : ℕ) (k : DataRq) → refs x k + booked ctx.drv_data_map x k < word_mod)
      → ((x : ℕ) → count x + uses ctx.drv_data_map x < word_mod)
      → Stopped c ctx refs count (ctx_stop c ctx s)
  unfolding ctx_stop unref_drivers
  ctx_stop_lem ctx s refs count on held small room =
      let r =
        unref_all_lem c vec memory ctx.queue_ptr ctx.drv_data_map good s refs count held small
          room in
      record {
        error = r.error;
        state = r.state;
        returns = rw (on, r.returns) refl;
        stay = r.stay;
        part = r.part;
        holding = r.holding;
        all_gone = λ ok. Holding-nil r.state refs count r.stay r.holding (r.told ok).0;
      }
