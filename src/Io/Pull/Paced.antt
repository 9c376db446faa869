-- ===== src/Io/Pull/Paced.antt =====
-- How many times each entry is pulled by some polls, and how far its time moves on.
use hound.Base.{
  ℕ, ◌+◌, ◌*◌, ◌≤◌, ◌<◌, ◌≡◌, refl, subst, ◌==◌, if◌then◌else◌, List, [], ◌∷◌, leb, count, arith,
}
use hound.Io.Pull.Schedule.{Deadline, due_next, schedule, due_ids}

-- The number of pulls of a data ID, for the pulls `ks` of the entries.
abbrev pub total : ℕ → List Deadline → List ℕ → ℕ
total id (d ∷ ds) (k ∷ ks) = (if d.id == id then k else 0) + total id ds ks
total id _ _ = 0

-- `k` pulls of an entry up to a time: each takes a period, and one has come if the entry was due.
pub record Paced (last : ℕ) (d d' : Deadline) (k : ℕ) : Type 0 where
  pub same_id : d'.id ≡ d.id
  pub same_period : d'.period ≡ d.period
  pub slow : d.due + k * d.period ≤ d'.due
  pub near : d.due < d'.due → d'.due ≤ last + d.period
  pub prompt : d.due ≤ last → 0 < k

abbrev pub AllPaced : ℕ → List Deadline → List Deadline → List ℕ → Type 0
AllPaced last [] [] [] = Unit {0}
AllPaced last (d ∷ ds) (d' ∷ ds') (k ∷ ks) = Paced last d d' k × AllPaced last ds ds' ks
AllPaced last _ _ _ = ⊥

abbrev fires : ℕ → Deadline → ℕ
fires now d = if leb d.due now then 1 else 0

fires-Paced :
    (now : ℕ) (d : Deadline) → Paced now d (record d { due = due_next now d }) (fires now d)
fires-Paced now d = record {
  same_id = refl;
  same_period = refl;
  slow = ground arith;
  near = λ h. ground arith;
  prompt = λ h. ground arith;
}

suc_times : (k p : ℕ) → (1 + k) * p ≡ p + k * p
suc_times k p = omega arith

fires_then :
    (now last : ℕ) (d d' : Deadline) (k : ℕ)
    → now ≤ last
    → Paced last (record d { due = due_next now d }) d' k
    → Paced last d d' (fires now d + k)
fires_then now last d d' k le p = record {
  same_id = p.same_id;
  same_period = p.same_period;
  slow = ground (arith, p.slow, suc_times k d.period);
  near = λ h. ground (arith, p.near);
  prompt = λ h. ground (arith, p.prompt);
}

-- The pulls of a poll, and those that follow it.
abbrev pub all_fires : ℕ → List Deadline → List ℕ → List ℕ
all_fires now (d ∷ ds) (k ∷ ks) = (fires now d + k) ∷ all_fires now ds ks
all_fires now _ _ = []

abbrev pub zeros : List Deadline → List ℕ
zeros [] = []
zeros (d ∷ ds) = 0 ∷ zeros ds

pub all_fires-AllPaced :
    (now last : ℕ) (ds ds' : List Deadline) (ks : List ℕ)
    → now ≤ last
    → AllPaced last (schedule now ds) ds' ks
    → AllPaced last ds ds' (all_fires now ds ks)
all_fires-AllPaced now last [] [] [] le p = tt
all_fires-AllPaced now last (d ∷ ds) (d' ∷ ds') (k ∷ ks) le (p, ps) =
    (fires_then now last d d' k le p, all_fires-AllPaced now last ds ds' ks le ps)
all_fires-AllPaced now last [] [] (k ∷ ks) le p = elim p [ ]
all_fires-AllPaced now last [] (d' ∷ ds') ks le p = elim p [ ]
all_fires-AllPaced now last (d ∷ ds) [] ks le p = elim p [ ]
all_fires-AllPaced now last (d ∷ ds) (d' ∷ ds') [] le p = elim p [ ]

pub one_poll-AllPaced :
    (now : ℕ) (ds : List Deadline) → AllPaced now ds (schedule now ds) (all_fires now ds (zeros ds))
one_poll-AllPaced now [] = tt
one_poll-AllPaced now (d ∷ ds) = (
  subst (Paced now d (record d { due = due_next now d })) (omega arith) (fires-Paced now d),
  one_poll-AllPaced now ds,
)

pub total-all_fires :
    (id now last : ℕ) (ds ds' : List Deadline) (ks : List ℕ)
    → AllPaced last (schedule now ds) ds' ks
    → total id ds (all_fires now ds ks) ≡ count id (due_ids now ds) + total id (schedule now ds) ks
total-all_fires id now last [] [] [] p = refl
total-all_fires id now last (d ∷ ds) (d' ∷ ds') (k ∷ ks) (p, ps) =
    ground (arith, total-all_fires id now last ds ds' ks ps)
total-all_fires id now last [] [] (k ∷ ks) p = elim p [ ]
total-all_fires id now last [] (d' ∷ ds') ks p = elim p [ ]
total-all_fires id now last (d ∷ ds) [] ks p = elim p [ ]
total-all_fires id now last (d ∷ ds) (d' ∷ ds') [] p = elim p [ ]

pub total-one_poll :
    (id now : ℕ) (ds : List Deadline)
    → total id ds (all_fires now ds (zeros ds)) ≡ count id (due_ids now ds)
total-one_poll id now [] = refl
total-one_poll id now (d ∷ ds) = ground (arith, total-one_poll id now ds)
