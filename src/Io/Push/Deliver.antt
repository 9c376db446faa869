-- ===== src/Io/Push/Deliver.antt =====
-- One push of a new record into one of the queues.
use hound.Base.{
  ℕ, zero, suc, ◌+◌, ◌-◌, ◌≤◌, ◌<◌, ◌≡◌, ◌≢◌, ap, sym, ◌∙◌, subst, none, some, List, [], ◌∷◌, ◌++◌,
  arith, count, count-append, get_elem?, set, get_elem?-set_self, get_elem?-set_ne, some_inj,
  drop-append, Bool-cases, inl, inr, ==→eq, ==→ne, length, length-append, drop, word_mod, add_size,
  add_size_small, ◌==◌,
}
use hound.Records.{RecordInfo, Heap, update}
use hound.Records.Owned.{live_at, refs, refs_of, IsOwned, IsOwned-reorder}
use hound.Queue.{Queue, queue_push}
use hound.Queue.Window.{length-window}
use hound.Queue.Valid.{IsValid, contents}
use hound.Queue.Push.{Pushed, queue_push_lem}
use hound.Io.Push.{World, ref_inc_at, push_at}
use hound.Io.Push.Others.{all_contents, others, others-set, count-all_contents, newest}

-- The queues are valid, and with `held` they hold just the references that the heap counts.
pub record Serves (w : World) (held : List ℕ) : Type 0 where
  pub valid : (i : ℕ) (q : Queue) → get_elem? w.queues i ≡ some q → IsValid q
  pub owned : IsOwned (all_contents w.queues ++ held) w.heap
  pub null : w.heap 0 ≡ none

-- The same while the record at `p`, with at most `k` references so far, is being delivered: it may
-- have none.
pub record Carries (w : World) (held : List ℕ) (p k : ℕ) : Type 0 where
  pub valid : (i : ℕ) (q : Queue) → get_elem? w.queues i ≡ some q → IsValid q
  pub counts :
      (a : ℕ)
      → (refs w.heap a ≡ count a (all_contents w.queues ++ held))
        × (refs w.heap a < word_mod)
        × (a ≢ p → refs w.heap a ≡ 0 → w.heap a ≡ none)
  pub null : w.heap 0 ≡ none
  pub info : RecordInfo
  pub live : w.heap p ≡ some info
  pub few : count p (all_contents w.queues ++ held) ≤ k

pub count-drop-le : (a n : ℕ) (xs : List ℕ) → count a (drop n xs) ≤ count a xs
count-drop-le a zero xs = omega arith
count-drop-le a (suc n) [] = omega arith
count-drop-le a (suc n) (x ∷ xs) = ground (arith, count-drop-le a n xs)

-- The last entry is among the newest.
count-newest_last : (a n : ℕ) (xs : List ℕ) → 0 < n → 0 < count a (newest n (xs ++ (a ∷ [])))
count-newest_last a n xs pos =
    let k = length (xs ++ (a ∷ [])) - n in
    subst (λ ys. 0 < count a ys)
      (sym (drop-append k xs (a ∷ []) (omega (arith, length-append {0} xs (a ∷ [])))))
      (ground (arith, count-append a (drop k xs) (a ∷ [])))

inc_at :
    (w : World) (held : List ℕ) (p k : ℕ) (c : Carries w held p k)
    → k + 1 < word_mod
    → (a : ℕ)
    → let h = update w.heap p (some (record c.info { refcount = add_size c.info.refcount 1 })) in
      (refs h a ≡ count a (p ∷ all_contents w.queues ++ held))
      × (refs h a < word_mod)
      × (refs h a ≡ 0 → h a ≡ none)
inc_at w held p k c small a = elim (Bool-cases (p == a)) [
  | inl same ↦
      let p_a : p ≡ a = ==→eq p a same in
      let n : c.info.refcount ≡ count p (all_contents w.queues ++ held) =
        ap refs_of (sym c.live) ∙ (c.counts p).0 in
      ground (arith, c.few, add_size_small c.info.refcount 1)
  | inr other ↦ ground (arith, c.counts a, ==→ne p a other)
]

-- With one more reference the record is owned.
pub inc-IsOwned :
    (w : World) (held : List ℕ) (p k : ℕ)
    → Carries w held p k
    → k + 1 < word_mod
    → (h : Heap) × (ref_inc_at p w.heap ≡ some h)
      × IsOwned (p ∷ all_contents w.queues ++ held) h
      × (h 0 ≡ none)
unfolding ref_inc_at
inc-IsOwned w held p k c small =
    let info' : RecordInfo = record c.info { refcount = add_size c.info.refcount 1 } in
    (
      update w.heap p (some info'),
      rw (c.live),
      λ a. inc_at w held p k c small a,
      ground (arith, c.null, c.live),
    )

-- What a push into the queue at `i` leaves.
pub record PushedAt (w : World) (held : List ℕ) (p i : ℕ) (q : Queue) (h : Heap) : Type 0 where
  pub queue : Queue
  pub heap : Heap
  pub returns :
      push_at i p (record w { heap = h })
      ≡ some (record w { queues = set w.queues i queue; heap = heap })
  pub good : IsValid queue
  pub holds : contents queue ≡ newest q.max_len (contents q ++ (p ∷ []))
  pub capacity : queue.max_len ≡ q.max_len
  pub owned : IsOwned (all_contents (set w.queues i queue) ++ held) heap
  pub null : heap 0 ≡ none

-- The references beside those of one queue.
beside : World → List ℕ → ℕ → List ℕ
beside w held i = all_contents (others w.queues i) ++ held

count-beside :
    (a : ℕ) (w : World) (held : List ℕ) (i : ℕ) (q : Queue)
    → get_elem? w.queues i ≡ some q
    → count a (contents q ++ beside w held i) ≡ count a (all_contents w.queues ++ held)
unfolding beside
count-beside a w held i q e = omega (
  arith,
  count-append a (contents q) (all_contents (others w.queues i) ++ held),
  count-append a (all_contents (others w.queues i)) held,
  count-append a (all_contents w.queues) held,
  count-all_contents a w.queues i q e,
)

count-beside-set :
    (a : ℕ) (w : World) (held : List ℕ) (i : ℕ) (q q' : Queue)
    → get_elem? w.queues i ≡ some q
    → count a (contents q' ++ beside w held i) ≡ count a (all_contents (set w.queues i q') ++ held)
unfolding beside
count-beside-set a w held i q q' e =
    ap (λ qs. count a (contents q' ++ (all_contents qs ++ held))) (sym (others-set w.queues i q'))
    ∙ count-beside a (record w { queues = set w.queues i q' }) held i q'
        (get_elem?-set_self w.queues i q q' e)

Pushed-null :
    (p : ℕ) (q : Queue) (rest : List ℕ) (h : Heap)
    → IsOwned (p ∷ contents q ++ rest) h
    → h 0 ≡ none
    → (r : Pushed q p rest h (queue_push q p h)) → r.heap 0 ≡ none
Pushed-null p q rest h own null r =
    let fewer = count-drop-le 0 (q.len + 1 - q.max_len) (contents q ++ (p ∷ [])) in
    let none_there : count 0 (contents r.queue ++ rest) ≡ 0 = ground (
      arith,
      own 0,
      ap (count 0) r.holds,
      fewer,
      count-append 0 (contents q) (p ∷ []),
      count-append 0 (contents q) rest,
      count-append 0 (contents r.queue) rest,
    ) in
    (r.owned 0).2 ((r.owned 0).0 ∙ none_there)

pub push_at_lem :
    (w : World) (held : List ℕ) (p i : ℕ) (q : Queue) (h : Heap)
    → get_elem? w.queues i ≡ some q
    → IsValid q
    → p ≢ 0
    → h 0 ≡ none
    → IsOwned (p ∷ all_contents w.queues ++ held) h
    → PushedAt w held p i q h
unfolding push_at
push_at_lem w held p i q h e v ne null own =
    let rest = beside w held i in
    let own' : IsOwned (p ∷ contents q ++ rest) h =
      IsOwned-reorder (p ∷ all_contents w.queues ++ held) (p ∷ contents q ++ rest) h
        (λ a. ground (arith, count-beside a w held i q e)) own in
    let r = queue_push_lem q p rest h v ne null own' in
    record {
      queue = r.queue;
      heap = r.heap;
      returns = rw (e, r.returns);
      good = r.valid;
      holds =
          r.holds
          ∙ ap (λ n. drop (n - q.max_len) (contents q ++ (p ∷ []))) {x = q.len + 1}
              (omega (
                arith,
                length-append {0} (contents q) (p ∷ []),
                length-window q.slots q.max_len q.front q.len,
              ));
      capacity = r.capacity;
      owned =
          IsOwned-reorder (contents r.queue ++ rest) (all_contents (set w.queues i r.queue) ++ held)
            r.heap (λ a. count-beside-set a w held i q r.queue e) r.owned;
      null = Pushed-null p q rest h own' null r;
    }

-- The world after the push, and that the record still has its references there.
abbrev pub after :
    {w : World} {held : List ℕ} {p i : ℕ} {q : Queue} {h : Heap} → PushedAt w held p i q h → World
after {w} {i = i} r = record w { queues = set w.queues i r.queue; heap = r.heap }

module _ {w : World} {held : List ℕ} {p i : ℕ} {q : Queue} {h : Heap} (r : PushedAt w held p i q h)
    (e : get_elem? w.queues i ≡ some q) (v : IsValid q) where
  count_after :
      count p (all_contents (set w.queues i r.queue) ++ held)
      ≡ count p (contents r.queue) + count p (beside w held i)
  count_after =
      sym (count-beside-set p w held i q r.queue e)
      ∙ count-append p (contents r.queue) (beside w held i)

  -- The push adds at most one holder, and the record is in the queue.
  pub after_held : 0 < count p (all_contents (set w.queues i r.queue) ++ held)
  after_held = omega (
    arith,
    count_after,
    ap (count p) r.holds,
    count-newest_last p q.max_len (contents q) v.positive,
  )

  after_few :
      count p (all_contents (set w.queues i r.queue) ++ held)
      ≤ count p (all_contents w.queues ++ held) + 1
  after_few =
      let one : count p (contents q ++ (p ∷ [])) ≡ count p (contents q) + 1 =
        ground (arith, count-append p (contents q) (p ∷ [])) in
      omega (
        arith,
        count_after,
        ap (count p) r.holds,
        count-drop-le p (length (contents q ++ (p ∷ [])) - q.max_len) (contents q ++ (p ∷ [])),
        sym (count-beside p w held i q e),
        count-append p (contents q) (beside w held i),
      )

  -- The delivery goes on after the push.
  pub after-Carries :
      (k : ℕ)
      → Carries w held p k
      → Carries (record w { queues = set w.queues i r.queue; heap = r.heap }) held p (k + 1)
  after-Carries k c =
      let (info, live) = live_at (r.heap p) (omega (arith, r.owned p, after_held)) in
      record {
        valid = λ j x at_j. elim (Bool-cases (i == j)) [
          | inl same ↦
              let here : get_elem? (set w.queues i r.queue) j ≡ some r.queue =
                subst (λ m. get_elem? (set w.queues i r.queue) m ≡ some r.queue) (==→eq i j same)
                  (get_elem?-set_self w.queues i q r.queue e) in
              subst IsValid (some_inj (sym here ∙ at_j)) r.good
          | inr other ↦
              c.valid j x (sym (get_elem?-set_ne w.queues i j r.queue (==→ne i j other)) ∙ at_j)
        ];
        counts = λ a. ((r.owned a).0, (r.owned a).1, λ ne zero_refs. (r.owned a).2 zero_refs);
        null = r.null;
        info = info;
        live = live;
        few = omega (arith, after_few, c.few);
      }
