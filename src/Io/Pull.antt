-- ===== src/Io/Pull.antt =====
-- The pull mode of src/core/io.c: `struct pull_timeout_info`, `struct pull_info`, the map from file
-- descriptors to them, and `io_default_pull`, which asks a driver for the data that are due. Times are
-- 64-bit numbers of nanoseconds of a clock that does not go back.
pub mod Schedule
pub mod Paced
pub mod Rate
use hound.Base.{
  ℕ, Option, none, some, Bool, true, false, ◌==◌, if◌then◌else◌, List, [], ◌∷◌, leb, min, ◌-◌,
  ◌>>=◌, sub_size, word_mod,
}
use hound.Driver.Calls.{Result, good}
use hound.Io.Calls.{IoCalls, Events, Polled, make_records}

pub record PullTimeoutInfo : Type 0 where
  pub id : ℕ
  pub current_timeout : ℕ
  pub max_timeout : ℕ

pub record PullInfo : Type 0 where
  pub last_pull : ℕ
  pub timeout_info : List PullTimeoutInfo

-- `s_pull_map`.
abbrev pub PullMap : Type 0
PullMap = ℕ → Option PullInfo

abbrev pub put : PullMap → ℕ → Option PullInfo → PullMap
put m fd v x = if fd == x then v else m x

-- UINT64_MAX.
abbrev pub no_timeout : ℕ
no_timeout = word_mod - 1

-- The new value of `current_timeout`.
unfoldable pub next_timeout : ℕ → PullTimeoutInfo → ℕ
next_timeout elapsed t =
    let lateness = sub_size elapsed t.current_timeout in
    if leb t.current_timeout elapsed
    then (if leb t.max_timeout lateness then 0 else sub_size t.max_timeout lateness)
    else sub_size t.current_timeout elapsed

-- What `io_default_pull` hands back.
pub record Pull (W : Type 0) : Type 0 where
  pub polled : Polled W
  pub timeout : ℕ
  pub pull_map : PullMap

module _ {W : Type 0} (c : IoCalls W) where
  -- The loop over the entries: the entries, `min_timeout` and the state. A `next` that fails is logged.
  unfoldable pub pull_loop : ℕ → List PullTimeoutInfo → ℕ → W → List PullTimeoutInfo × ℕ × W
  unfolding next_timeout
  pull_loop elapsed [] min_timeout w = ([], min_timeout, w)
  pull_loop elapsed (t ∷ ts) min_timeout w =
      let w' = if leb t.current_timeout elapsed then (c.op_next t.id w).1 else w in
      let t' : PullTimeoutInfo = record t { current_timeout = next_timeout elapsed t } in
      let rest = pull_loop elapsed ts (min min_timeout t'.current_timeout) w' in
      (t' ∷ rest.0, rest.1, rest.2)

  unfoldable pub io_default_pull : ℕ → Events → ℕ → PullMap → W → Option (Pull W)
  io_default_pull fd events poll_time pull_map w = do
    info ← pull_map fd
    let pulled = pull_loop (sub_size poll_time info.last_pull) info.timeout_info no_timeout w
    (err, w') ← if events.pollin then make_records c fd pulled.2 else some (good, pulled.2)
    let info' : PullInfo = record { last_pull = poll_time; timeout_info = pulled.0 }
    let polled : Polled W = record {
      err = err;
      next_events = record { pollin = true; other = false };
      timeout_enabled = true;
      world = w';
    }
    let out : Pull W = record {
      polled = polled;
      timeout = pulled.1;
      pull_map = put pull_map fd (some info');
    }
    some out
