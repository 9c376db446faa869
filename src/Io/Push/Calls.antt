-- ===== src/Io/Push/Calls.antt =====
-- A call of `io_push_records`, when no reader runs between two of its pushes.
use hound.Base.{ℕ, ◌≡◌, Option, some, true, List, [], ◌∷◌, ◌++◌, map, length, ◌==◌, if◌then◌else◌}
use hound.Records.{Record}
use hound.Queue.{Queue}
use hound.Io.Push.{QueueEntry, World, Read, push_record}
use hound.Io.Push.Deliver.{Serves}
use hound.Io.Push.Deliveries.{copies, wanted, Extends}

-- What a record sends to the queue `i`: nothing when its allocation fails.
abbrev pub sent_one : List QueueEntry → Record → ℕ → ℕ → List ℕ
sent_one es rec p i = if p == 0 then [] else copies es rec.data_id i p

-- What all records send to it, with the answers of their allocations.
abbrev pub sent : List QueueEntry → List Record → List ℕ → ℕ → List ℕ
sent es (rec ∷ recs) (p ∷ ps) i = sent_one es rec p i ++ sent es recs ps i
sent es _ _ i = []

-- The data of the records that no entry wants, which nobody frees.
abbrev pub leaked_one : List QueueEntry → Record → ℕ → List ℕ
leaked_one es rec p = if p == 0 then [] else if wanted es rec.data_id then [] else rec.bytes ∷ []

abbrev pub leaked : List QueueEntry → List Record → List ℕ → List ℕ
leaked es (rec ∷ recs) (p ∷ ps) = leaked es recs ps ++ leaked_one es rec p
leaked es _ _ = []

pub record PushedRecord (w : World) (held : List ℕ) (new : ℕ → List ℕ) (leak : List ℕ)
    (r : Option World) : Type 0 where
  pub world : World
  pub returns : r ≡ some world
  pub serves : Serves world held
  pub extends : Extends w.queues world.queues new
  pub lost : world.lost ≡ leak ++ w.lost

push_null :
    (es : List QueueEntry) (dev_id : ℕ) (rec : Record) (w : World) (p : ℕ)
    → (p == 0) ≡ true
    → push_record es dev_id rec p [] w ≡ some w
unfolding push_record
push_null es dev_id rec w p e = rw (e)

-- The records of a call with the answers of their allocations.
pub record PushedAll (w : World) (held : List ℕ) (es : List QueueEntry) (recs : List Record)
    (r : Option World) : Type 0 where
  pub world : World
  pub returns : r ≡ some world
  pub serves : Serves world held
  pub addresses : List ℕ
  pub one_each : length addresses ≡ length recs
  pub extends : Extends w.queues world.queues (sent es recs addresses)
  pub lost : world.lost ≡ leaked es recs addresses ++ w.lost

abbrev pub quietly : List Record → List (Record × List (List Read))
quietly = map (λ rec. (rec, []))
