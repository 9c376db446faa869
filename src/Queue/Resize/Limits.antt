-- ===== src/Queue/Resize/Limits.antt =====
-- `contract_queue`: where it loses entries or leaves the array.
use hound.Base.{ℕ, ◌-◌, ◌<◌, ◌≢◌, get_or}
use hound.Queue.{Queue}

-- The last cell of the array holds a record that stands in none of the first `n` cells.
abbrev pub LastIsApart : Queue → ℕ → Type 0
LastIsApart q n = (j : ℕ) → j < n → get_or q.slots j 0 ≢ get_or q.slots (q.max_len - 1) 0
