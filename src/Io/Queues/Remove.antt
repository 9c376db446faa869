-- ===== src/Io/Queues/Remove.antt =====
-- Taking the entries and the timeouts of requests out of a line.
use hound.Base.{
  ℕ, zero, suc, ◌+◌, ◌-◌, ◌≤◌, ◌≡◌, refl, ap, sym, ◌∙◌, none, some, Bool, true, false, ◌&&◌, ◌==◌,
  if◌then◌else◌, List, [], ◌∷◌, length, get_elem?, drop, arith, Bool-cases, ◌⊎◌, inl, inr, le→ltb,
  Option-cases,
}
use hound.Driver.Calls.{DataRq}
use hound.Io.Calls.{Vecs, IsVecs}
use hound.Io.Push.{QueueEntry}
use hound.Io.Pull.{PullTimeoutInfo}
use hound.Io.Queues.{remove_entries, find_timeout, remove_timeout}
use hound.Io.Queues.Counts.{
  bit, is_entry, entries, is_timeout, timeouts, sum_by-get_elem, sum_by-drop-some, sum_by-drop-none,
  sum_by-drop_end, sum_by-quickdel, length-quickdel,
}

unmatched : (n : ℕ) (b : Bool) → bit b ≡ n → n ≡ 0 → b ≡ false
unmatched n true e z = absurd (omega arith)
unmatched n false e z = refl

both_eq : (a b c d : ℕ) → ((a == b) && (c == d)) ≡ true → (a ≡ b) × (c ≡ d)
both_eq a b c d e = (ground arith, ground arith)

-- An element of one key has no other one.
other_key :
    (a b a' b' x y : ℕ)
    → ((x == a) && (y == b)) ≡ true
    → ((a == a') && (b == b')) ≡ false
    → bit ((x == a') && (y == b')) ≡ 0
other_key a b a' b' x y hit apart = ground arith

same_key :
    (a b a' b' x y : ℕ)
    → ((x == a) && (y == b)) ≡ true
    → bit ((x == a') && (y == b')) ≡ bit ((a == a') && (b == b'))
same_key a b a' b' x y hit = ground arith

missing_key :
    (a b id period : ℕ) (ts : List PullTimeoutInfo)
    → timeouts a b ts ≡ 0
    → timeouts id period ts ≡ timeouts id period ts - bit ((a == id) && (b == period))
missing_key a b id period ts zero_in = elim (Bool-cases ((a == id) && (b == period))) [
  | inl same ↦
      let (ids, periods) = both_eq a id b period same in
      let gone : timeouts id period ts ≡ 0 =
        ap (λ n. timeouts n period ts) (sym ids)
        ∙ ap (λ n. timeouts a n ts) (sym periods)
        ∙ zero_in in
      omega (arith, gone)
  | inr other ↦ omega (arith, ap bit other)
]

-- Nothing else has gone.
gone_at :
    (queue : ℕ) (es es' : List QueueEntry) (id : ℕ)
    → entries id queue es' ≡ 0
    → ((id' q : ℕ) → ((id == id') && (queue == q)) ≡ false → entries id' q es' ≡ entries id' q es)
    → (id' q : ℕ)
    → entries id' q es' ≡ (if (id == id') && (queue == q) then 0 else entries id' q es)
gone_at queue es es' id gone kept id' q = elim (Bool-cases ((id == id') && (queue == q))) [
  | inl same ↦ rw (same) (
      let (ids, qs) = both_eq id id' queue q same in
      ap (λ n. entries n q es') (sym ids) ∙ ap (λ n. entries id n es') (sym qs) ∙ gone)
  | inr other ↦ rw (other) (kept id' q other)
]

module _ {W : Type 0} (v : Vecs W) (l : IsVecs v) (queue : ℕ) where
  remove_entries-end :
      (rounds id j : ℕ) (es : List QueueEntry)
      → get_elem? es j ≡ none
      → remove_entries v queue (suc rounds) id j es ≡ some es
  unfolding remove_entries
  remove_entries-end rounds id j es e = rw (remove_entries, e)

  remove_entries-at :
      (rounds id j : ℕ) (es : List QueueEntry) (e : QueueEntry) (match : Bool)
      → get_elem? es j ≡ some e
      → ((e.id == id) && (e.queue == queue)) ≡ match
      → remove_entries v queue (suc rounds) id j es
        ≡ remove_entries v queue rounds id (suc j) (if match then v.quickdel es j else es)
  unfolding remove_entries
  remove_entries-at rounds id j es e match at m = rw (remove_entries, at, m)

  -- Without a match the loop changes nothing.
  remove_entries-same :
      (rounds id j : ℕ) (es : List QueueEntry)
      → length es ≤ rounds + j
      → entries id queue es ≡ 0
      → remove_entries v queue rounds id j es ≡ some es
  unfolding remove_entries
  remove_entries-same zero id j es enough none_in = rw (le→ltb j (length es) (omega arith))
  remove_entries-same (suc rounds) id j es enough none_in = elim (Option-cases (get_elem? es j)) [
    | inl e ↦ remove_entries-end rounds id j es e
    | inr (e, at) ↦
        let other : ((e.id == id) && (e.queue == queue)) ≡ false =
          unmatched (is_entry id queue e) ((e.id == id) && (e.queue == queue)) refl
            (omega (arith, none_in, sum_by-get_elem (is_entry id queue) es j e at)) in
        remove_entries-at rounds id j es e false at other
        ∙ remove_entries-same rounds id (suc j) es (omega arith) none_in
  ]

  -- Where at most one entry is there, not before the index, it is the one that goes.
  pub remove_entries_lem :
      (rounds id j : ℕ) (es : List QueueEntry)
      → length es ≤ rounds + j
      → entries id queue es ≤ 1
      → entries id queue (drop j es) ≡ entries id queue es
      → (es' : List QueueEntry) × (remove_entries v queue rounds id j es ≡ some es')
        × ((id' q : ℕ)
            → entries id' q es' ≡ (if (id == id') && (queue == q) then 0 else entries id' q es))
  unfolding remove_entries
  remove_entries_lem zero id j es enough once after =
      let gone : entries id queue es ≡ 0 =
        omega (arith, after, sum_by-drop_end (is_entry id queue) es j (omega arith)) in
      (
        es,
        rw (le→ltb j (length es) (omega arith)),
        gone_at queue es es id gone (λ id' q other. refl),
      )
  remove_entries_lem (suc rounds) id j es enough once after = elim (Option-cases (get_elem? es j)) [
    | inl e ↦
        let gone : entries id queue es ≡ 0 =
          omega (arith, after, sum_by-drop-none (is_entry id queue) es j e) in
        (es, remove_entries-end rounds id j es e, gone_at queue es es id gone (λ id' q other. refl))
    | inr (e, at) ↦ elim (Bool-cases ((e.id == id) && (e.queue == queue))) [
      | inl hit ↦
          let left = v.quickdel es j in
          let fewer = sum_by-quickdel (is_entry id queue) v l es j e at in
          let gone : entries id queue left ≡ 0 = omega (arith, once, fewer, ap bit hit) in
          (
            left,
            remove_entries-at rounds id j es e true at hit
                ∙ remove_entries-same rounds id (suc j) left
                    (omega (arith, length-quickdel v l es j e at)) gone,
            gone_at queue es left id gone (λ id' q apart. omega (
              arith,
              sum_by-quickdel (is_entry id' q) v l es j e at,
              other_key id queue id' q e.id e.queue hit apart,
            )),
          )
      | inr other ↦
          let (es', runs, counts) =
            remove_entries_lem rounds id (suc j) es (omega arith) once (
              omega (arith, after, sum_by-drop-some (is_entry id queue) es j e at, ap bit other)) in
          (es', remove_entries-at rounds id j es e false at other ∙ runs, counts)
    ]
  ]

  -- The scan finds a match, or there is none.
  record FoundAt (rq : DataRq) (ts : List PullTimeoutInfo) (j : ℕ) : Type 0 where
    index : ℕ
    timeout : PullTimeoutInfo
    found : find_timeout v queue rq ts j ≡ some (j + index)
    at : get_elem? ts index ≡ some timeout
    hit : ((timeout.id == rq.id) && (timeout.max_timeout == rq.period_ns)) ≡ true

  find_timeout_lem :
      (rq : DataRq) (ts : List PullTimeoutInfo) (j : ℕ)
      → FoundAt rq ts j
        ⊎ ((find_timeout v queue rq ts j ≡ none) × (timeouts rq.id rq.period_ns ts ≡ 0))
  unfolding find_timeout
  find_timeout_lem rq [] j = inr (refl, refl)
  find_timeout_lem rq (t ∷ ts) j =
      elim (Bool-cases ((t.id == rq.id) && (t.max_timeout == rq.period_ns))) [
        | inl hit ↦ inl (record {
          index = 0;
          timeout = t;
          found = rw (hit) (ap some (omega arith));
          at = refl;
          hit = hit;
        })
        | inr other ↦ elim (find_timeout_lem rq ts (suc j)) [
          | inl f ↦ inl (record {
            index = suc f.index;
            timeout = f.timeout;
            found = rw (other) (f.found ∙ ap some (omega arith));
            at = f.at;
            hit = f.hit;
          })
          | inr (missing, zero_in) ↦ inr (rw (other) missing, omega (arith, zero_in, ap bit other))
        ]
      ]

  pub remove_timeout_lem :
      (rq : DataRq) (ts : List PullTimeoutInfo) (id period : ℕ)
      → timeouts id period (remove_timeout v queue rq ts)
        ≡ timeouts id period ts - bit ((rq.id == id) && (rq.period_ns == period))
  unfolding remove_timeout
  remove_timeout_lem rq ts id period = elim (find_timeout_lem rq ts 0) [
    | inl f ↦
        let left = v.quickdel ts f.index in
        let counts = sum_by-quickdel (is_timeout id period) v l ts f.index f.timeout f.at in
        let key = same_key rq.id rq.period_ns id period f.timeout.id f.timeout.max_timeout f.hit in
        let found : find_timeout v queue rq ts 0 ≡ some f.index = f.found ∙ ap some (omega arith) in
        rw (remove_timeout, found) (omega (arith, counts, key))
    | inr (missing, zero_in) ↦
        rw (remove_timeout, missing) (missing_key rq.id rq.period_ns id period ts zero_in)
  ]
