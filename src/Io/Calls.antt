-- ===== src/Io/Calls.antt =====
-- What src/core/io.c calls: `read` of the system, the operations of a driver and the vectors of xlib;
-- and `make_records`, which turns what was read into records by the driver's `parse`.
use mathlib.Core.List.{Permᴰ}
use hound.Base.{
  List, [], ◌∷◌, ◌++◌, ℕ, ◌≡◌, length, get_elem?, set, ◌≤◌, Bool, true, false, ◌==◌, if◌then◌else◌,
  Option, none, some,
}
use hound.Err.{HoundErr}
use hound.Driver.Calls.{Result, good, is_ok}

-- The values of `errno` after a `read` that the code tells apart.
pub data Errno : Type 0 where
  again would_block interrupted io_failed other_errno : Errno

-- The answer of `read`: the number of bytes, or -1 with `errno`.
pub data Answer : Type 0 where
  bytes : ℕ → Answer
  failed : Errno → Answer

-- The bits of `events` and `revents` of `struct pollfd`: POLLIN, and whether another one is set.
pub record Events : Type 0 where
  pub pollin : Bool
  pub other : Bool

-- Each call takes the state of the rest of the program and gives the next one.
pub record IoCalls (W : Type 0) : Type 0 where
  pub read : ℕ → W → Answer × W
  pub op_parse : ℕ → W → Result × W
  pub op_next : ℕ → W → Result × W

module _ {W : Type 0} (c : IoCalls W) where
  -- What `make_records` does after `read`; `none` is the failed assertion at an unexpected `errno`.
  unfoldable pub parse_answer : Answer → W → Option (Result × W)
  parse_answer (bytes n) w =
      let (err, w') = c.op_parse n w in
      some (if n == 0 then (good, w) else if is_ok err then (good, w') else (err, w'))
  parse_answer (failed again) w = some (good, w)
  parse_answer (failed would_block) w = some (good, w)
  parse_answer (failed interrupted) w = some (Result.library HoundErr.intr, w)
  parse_answer (failed io_failed) w = some (Result.library HoundErr.io_error, w)
  parse_answer (failed other_errno) w = none

  unfoldable pub make_records : ℕ → W → Option (Result × W)
  unfolding parse_answer
  make_records fd w = let (answer, w') = c.read fd w in parse_answer answer w'

-- What `poll` of a driver hands back: its result, `*next_events`, and the timeout where one is enabled.
pub record Polled (W : Type 0) : Type 0 where
  pub err : Result
  pub next_events : Events
  pub timeout_enabled : Bool
  pub world : W

-- `io_default_push`; the timeout is not written.
module _ {W : Type 0} (c : IoCalls W) where
  unfoldable pub io_default_push : ℕ → Events → W → Option (Polled W)
  unfolding make_records
  io_default_push fd events w =
      let next : Events = record { pollin = true; other = false } in
      let quiet : Polled W = record {
        err = good;
        next_events = next;
        timeout_enabled = false;
        world = w;
      } in
      let polled : Option (Polled W) = elim (make_records c fd w) [
        | none ↦ none
        | some r ↦ some (record quiet { err = r.0; world = r.1 })
      ] in
      if events.pollin then polled else some quiet

-- The vectors of xlib: `pushp` tells whether there was memory, and what the vector then holds.
pub record Vecs (W : Type 0) : Type 1 where
  pub pushp : {A : Type 0} → List A → A → W → Bool × List A × W
  pub pop : {A : Type 0} → List A → List A
  pub quickdel : {A : Type 0} → List A → ℕ → List A

-- What xlib documents of them: a push with memory appends, a push without changes nothing, a pop takes
-- the last element, and `xv_quickdel` moves the last element to the place of the one that it takes out
-- (`set` changes nothing at an index past the end).
pub record IsVecs {W : Type 0} (v : Vecs W) : Type 1 where
  pub push_appends :
      {A : Type 0} (xs : List A) (x : A) (w : W)
      → (v.pushp xs x w).0 ≡ true
      → (v.pushp xs x w).1 ≡ xs ++ (x ∷ [])
  pub push_keeps :
      {A : Type 0} (xs : List A) (x : A) (w : W)
      → (v.pushp xs x w).0 ≡ false
      → (v.pushp xs x w).1 ≡ xs
  pub pops : {A : Type 0} (xs : List A) (x : A) → v.pop (xs ++ (x ∷ [])) ≡ xs
  pub deletes :
      {A : Type 0} (xs : List A) (i : ℕ) (x : A)
      → get_elem? xs i ≡ some x
      → Permᴰ xs (x ∷ v.quickdel xs i)
  pub moves :
      {A : Type 0} (xs : List A) (z : A) (i : ℕ)
      → i ≤ length xs
      → v.quickdel (xs ++ (z ∷ [])) i ≡ set xs i z
