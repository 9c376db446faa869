-- ===== src/Queue/History.antt =====
-- Any sequence of the queue's operations, against the list of all records ever pushed. Between two
-- operations the rest of the program may change the heap: each step is at any heap that accounts for
-- the entries of the queue.
use hound.Base.{
  drop-drop, drop-append, true, some_inj, ℕ, ◌+◌, ◌-◌, ◌%◌, ◌≤◌, ◌<◌, ◌≡◌, ◌≢◌, ap, ◌∙◌, sym, subst,
  List, [], ◌∷◌, ◌++◌, arith, some, none, drop, length, length-append, length-drop, false, Bool,
  add_size, word_mod, min,
}
use hound.Err.{HoundErr}
use hound.Records.{Heap}
use hound.Records.Owned.{IsOwned}
use hound.Queue.{
  Queue, Block, Popped, queue_alloc, queue_push, pop_records, pop_bytes, drain_until,
  queue_interrupt,
}
use hound.Queue.Window.{length-window}
use hound.Queue.Valid.{IsValid, contents, max_cap, advance, queue_alloc-IsValid, advance-Drops}
use hound.Queue.Drain.{drain_until_lem}
use hound.Queue.Push.{queue_push_lem}
use hound.Queue.Pop.{pop_records_lem}
use hound.Queue.Bytes.{fit, fit-le, pop_bytes_lem}
use hound.Queue.Resize.{queue_resize}
use hound.Queue.Resize.Flush.{queue_resize_flush}
use hound.Queue.Resize.Outcome.{Resizable, queue_resize_lem}

-- The queues that calls can reach, each with the records pushed so far, oldest first.
pub data Reach : Queue → List ℕ → Type 0 where
  alloc :
      {q : Queue} (malloc : Bool) (block : Block) (n : ℕ)
      → 0 < n
      → n < max_cap
      → (queue_alloc malloc block n).1 ≡ some q
      → Reach q []
  push :
      {q q' : Queue} {past : List ℕ} (rec : ℕ) (held : List ℕ) (h h' : Heap)
      → Reach q past
      → rec ≢ 0
      → h 0 ≡ none
      → IsOwned (rec ∷ contents q ++ held) h
      → queue_push q rec h ≡ some (q', h')
      → Reach q' (past ++ (rec ∷ []))
  pop :
      {q : Queue} {past : List ℕ} (room records n : ℕ) (p : Popped)
      → Reach q past
      → min records q.len ≤ room
      → pop_records room q records ≡ some (n, p)
      → Reach p.queue past
  bytes :
      {q : Queue} {past : List ℕ} (room want n : ℕ) (p : Popped) (held : List ℕ) (h : Heap)
      → Reach q past
      → IsOwned (contents q ++ held) h
      → want < word_mod
      → fit h (contents q) want ≤ room
      → pop_bytes room q want h ≡ some (n, p)
      → Reach p.queue past
  drain :
      {q q' : Queue} {past : List ℕ} (new_len : ℕ) (held : List ℕ) (h h' : Heap)
      → Reach q past
      → IsOwned (contents q ++ held) h
      → drain_until q new_len h ≡ some (q', h')
      → Reach q' past
  resize :
      {q q' : Queue} {past : List ℕ} (n : ℕ) (fill : ℕ → ℕ) (held : List ℕ) (h h' : Heap)
      → Reach q past
      → 0 < n
      → n < max_cap
      → Resizable q n
      → IsOwned (contents q ++ held) h
      → queue_resize q (some fill) n false h ≡ some (HoundErr.ok, q', h')
      → Reach q' past
  flush :
      {q q' : Queue} {past : List ℕ} (n : ℕ) (fill : ℕ → ℕ) (held : List ℕ) (h h' : Heap)
      → Reach q past
      → 0 < n
      → n < max_cap
      → IsOwned (contents q ++ held) h
      → queue_resize q (some fill) n true h ≡ some (HoundErr.ok, q', h')
      → Reach q' past
  interrupt : {q : Queue} {past : List ℕ} → Reach q past → Reach (queue_interrupt q) past

-- `q` holds what was pushed from number `first` on, and `front_seqno` is that number.
pub record Follows (q : Queue) (past : List ℕ) : Type 0 where
  pub first : ℕ
  pub valid : IsValid q
  pub holds : contents q ≡ drop first past
  pub number : q.front_seqno ≡ first % word_mod
  pub all : first + q.len ≡ length past

length-contents : (q : Queue) → length (contents q) ≡ q.len
length-contents q = length-window q.slots q.max_len q.front q.len

-- An operation that takes the `k` oldest entries away.
takes_away :
    (q q' : Queue) (past : List ℕ) (k : ℕ)
    → Follows q past
    → k ≤ q.len
    → IsValid q'
    → contents q' ≡ drop k (contents q)
    → q'.front_seqno ≡ add_size q.front_seqno k
    → Follows q' past
takes_away q q' past k f le v kept seqno = record {
  first = f.first + k;
  valid = v;
  holds = kept ∙ ap (drop k) f.holds ∙ drop-drop f.first k past;
  number = omega (arith, seqno, f.number);
  all = omega (
    arith,
    f.all,
    length-contents q,
    length-contents q',
    ap length kept,
    length-drop k (contents q),
  );
}

pushed-Follows :
    (q q' : Queue) (past : List ℕ) (rec : ℕ)
    → Follows q past
    → IsValid q'
    → contents q' ≡ drop (q.len + 1 - q.max_len) (contents q ++ (rec ∷ []))
    → q'.front_seqno ≡ add_size q.front_seqno (q.len + 1 - q.max_len)
    → Follows q' (past ++ (rec ∷ []))
pushed-Follows q q' past rec f v holds seqno =
    let k = q.len + 1 - q.max_len in
    record {
      first = f.first + k;
      valid = v;
      holds =
          holds
          ∙ ap (λ xs. drop k (xs ++ (rec ∷ []))) f.holds
          ∙ ap (drop k) (sym (drop-append f.first past (rec ∷ []) (omega (arith, f.all))))
          ∙ drop-drop f.first k (past ++ (rec ∷ []));
      number = omega (arith, seqno, f.number);
      all = omega (
        arith,
        f.all,
        f.valid.len_in,
        f.valid.positive,
        length-contents q,
        length-contents q',
        ap length holds,
        length-drop k (contents q ++ (rec ∷ [])),
        length-append (contents q) (rec ∷ []),
        length-append past (rec ∷ []),
      );
    }

interrupt-Follows : (q : Queue) (past : List ℕ) → Follows q past → Follows (queue_interrupt q) past
unfolding queue_interrupt
interrupt-Follows q past f = record {
  first = f.first;
  valid = record {
    positive = f.valid.positive;
    small = f.valid.small;
    storage = f.valid.storage;
    front_in = f.valid.front_in;
    len_in = f.valid.len_in;
    seqno_in = f.valid.seqno_in;
  };
  holds = f.holds;
  number = f.number;
  all = f.all;
}

-- After any calls of `Reach` (a queue of positive length below 2 ^ 60 is allocated; records that
-- are not NULL are pushed; pops have room for what they take; resizes have memory, and either a
-- flush or a layout of `Resizable`; the queue owns its entries), the queue is valid and holds the
-- newest of the records pushed so far, in order, and `front_seqno` is the number of records pushed
-- before the oldest one that it holds (modulo 2 ^ 64): the sequence number of a record is its
-- place in the order of pushes, whatever was dropped or popped.
pub Reach-Follows : {q : Queue} {past : List ℕ} → Reach q past → Follows q past
Reach-Follows {q} (alloc malloc block n pos small e) =
    let (v, empty, cap, zero_seqno) = queue_alloc-IsValid malloc block n q pos small e in
    record {
      first = 0;
      valid = v;
      holds = empty;
      number = zero_seqno;
      all = omega (arith, length-contents q, ap length empty);
    }
Reach-Follows {q = q'} (push {q} {past} rec held h h' r ne null own e) =
    let f = Reach-Follows r in
    let p = queue_push_lem q rec held h f.valid ne null own in
    let same : p.queue ≡ q' = ap (λ o. o.0) (some_inj (sym p.returns ∙ e)) in
    subst (λ x. Follows x (past ++ (rec ∷ []))) same
      (pushed-Follows q p.queue past rec f p.valid p.holds p.seqno)
Reach-Follows (pop {q} {past} room records n p r fits e) =
    let f = Reach-Follows r in
    let m = min records q.len in
    let d = advance-Drops q m f.valid (omega arith) in
    let same : advance q m ≡ p.queue =
      ap (λ o. o.1.queue) (some_inj (sym (pop_records_lem room q records f.valid fits) ∙ e)) in
    subst (λ x. Follows x past) same
      (takes_away q (advance q m) past m f (omega arith) d.valid d.kept d.seqno)
Reach-Follows (bytes {q} {past} room want n p held h r own small fits e) =
    let f = Reach-Follows r in
    let m = fit h (contents q) want in
    let le : m ≤ q.len = omega (arith, fit-le h (contents q) want, length-contents q) in
    let d = advance-Drops q m f.valid le in
    let same : advance q m ≡ p.queue =
      ap (λ o. o.1.queue)
        (some_inj (sym (pop_bytes_lem room q want held h f.valid own small fits) ∙ e)) in
    subst (λ x. Follows x past) same (takes_away q (advance q m) past m f le d.valid d.kept d.seqno)
Reach-Follows {q = q'} (drain {q} {past} new_len held h h' r own e) =
    let f = Reach-Follows r in
    let d = drain_until_lem q new_len held h f.valid own in
    let same : d.queue ≡ q' = ap (λ o. o.0) (some_inj (sym d.returns ∙ e)) in
    subst (λ x. Follows x past) same
      (takes_away q d.queue past (q.len - new_len) f (omega arith) d.drops.valid d.drops.kept
        d.drops.seqno)
Reach-Follows {q = q'} (resize {q} {past} n fill held h h' r pos small good own e) =
    let f = Reach-Follows r in
    let d = queue_resize_lem q n fill held h f.valid pos small own good in
    let same : d.queue ≡ q' = ap (λ o. o.1) (some_inj (sym d.returns ∙ e)) in
    subst (λ x. Follows x past) same
      (takes_away q d.queue past (q.len - n) f (omega arith) d.valid d.holds d.seqno)
Reach-Follows {q = q'} (flush {q} {past} n fill held h h' r pos small own e) =
    let f = Reach-Follows r in
    let d = queue_resize_flush q n fill held h f.valid pos small own in
    let same : d.queue ≡ q' = ap (λ o. o.1) (some_inj (sym d.returns ∙ e)) in
    subst (λ x. Follows x past) same
      (takes_away q d.queue past q.len f (omega arith) d.valid d.holds d.seqno)
Reach-Follows (interrupt {q} {past} r) = interrupt-Follows q past (Reach-Follows r)
