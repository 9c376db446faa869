-- ===== src/Io/Push/Deliveries.antt =====
-- The delivery of one record to all queues, and of all records of a call.
use hound.Base.{
  ℕ, zero, suc, ◌+◌, ◌-◌, ◌<◌, ◌≡◌, ◌≢◌, refl, ap, sym, ◌∙◌, subst, Option, some, Bool, true, false,
  ◌&&◌, List, [], ◌∷◌, ◌++◌, arith, count, append-nil, append_assoc, get_elem?, set,
  get_elem?-set_self, get_elem?-set_ne, some_inj, length, length-set, drop, word_mod, ◌==◌,
  if◌then◌else◌, Bool-cases, inl, inr, ==→eq, ==→ne,
}
use hound.Records.{Heap}
use hound.Queue.{Queue}
use hound.Queue.Window.{length-window}
use hound.Queue.Valid.{IsValid, contents}
use hound.Io.Push.{QueueEntry, World, ref_inc_at, push_at, run_reads, deliver}
use hound.Io.Push.Others.{all_contents, newest, newest-append}
use hound.Io.Push.Deliver.{Serves, Carries, push_at_lem, inc-IsOwned, after_held, after-Carries}

-- The copies of a record that the entries send to the queue `i`.
abbrev pub copies : List QueueEntry → ℕ → ℕ → ℕ → List ℕ
copies [] data_id i p = []
copies (e ∷ es) data_id i p =
    if (data_id == e.id) && (e.queue == i) then p ∷ copies es data_id i p else copies es data_id i p

-- An entry of the list wants the record.
abbrev pub wanted : List QueueEntry → ℕ → Bool
wanted [] data_id = false
wanted (e ∷ es) data_id = if data_id == e.id then true else wanted es data_id

-- Every entry names a queue that is there.
abbrev pub InRange : List QueueEntry → ℕ → Type 0
InRange [] n = Unit {0}
InRange (e ∷ es) n = (e.queue < n) × InRange es n

-- What becomes of every queue: its capacity stays, and of the longer list the newest entries stay.
pub record Extends (before after : List Queue) (new : ℕ → List ℕ) : Type 0 where
  pub same_length : length after ≡ length before
  pub each :
      (i : ℕ) (q : Queue)
      → get_elem? before i ≡ some q
      → (q' : Queue) × (get_elem? after i ≡ some q')
        × (contents q' ≡ newest q.max_len (contents q ++ new i))
        × (q'.max_len ≡ q.max_len)

-- A delivery in which no reader runs.
pub record Delivered (w : World) (held : List ℕ) (es : List QueueEntry) (data_id p : ℕ) (was : Bool)
    (r : Option (Bool × World)) : Type 0 where
  pub pushed : Bool
  pub world : World
  pub returns : r ≡ some (pushed, world)
  pub hit : pushed ≡ true → Serves world held
  pub miss : pushed ≡ false → (was ≡ false) × (world ≡ w)
  pub extends : Extends w.queues world.queues (λ i. copies es data_id i p)
  pub nothing_lost : world.lost ≡ w.lost
  pub told : pushed ≡ (if was then true else wanted es data_id)

find_queue : (qs : List Queue) (i : ℕ) → i < length qs → (q : Queue) × (get_elem? qs i ≡ some q)
find_queue [] i h = elim h [ ]
find_queue (q ∷ qs) zero h = (q, refl)
find_queue (q ∷ qs) (suc i) h = find_queue qs i (omega arith)

-- A valid queue is not longer than its capacity.
newest_valid : (q : Queue) → IsValid q → contents q ≡ newest q.max_len (contents q ++ [])
newest_valid q v =
    ap (λ n. drop n (contents q)) {x = 0} {y = length (contents q) - q.max_len}
      (omega (arith, v.len_in, length-window q.slots q.max_len q.front q.len))
    ∙ ap (newest q.max_len) (sym (append-nil (contents q)))

pub Extends-nil :
    (qs : List Queue)
    → ((i : ℕ) (q : Queue) → get_elem? qs i ≡ some q → IsValid q)
    → Extends qs qs (λ i. [])
Extends-nil qs valid = record {
  same_length = refl;
  each = λ i q e. (q, e, newest_valid q (valid i q e), refl);
}

Extends-here :
    (qs after : List Queue) (i p : ℕ) (q q' : Queue) (new : ℕ → List ℕ)
    → get_elem? qs i ≡ some q
    → contents q' ≡ newest q.max_len (contents q ++ (p ∷ []))
    → q'.max_len ≡ q.max_len
    → Extends (set qs i q') after new
    → (y : Queue) × (get_elem? after i ≡ some y)
      × (contents y ≡ newest q.max_len (contents q ++ (p ∷ new i)))
      × (y.max_len ≡ q.max_len)
Extends-here qs after i p q q' new e now cap ext =
    let (y, at_i, holds, cap') = ext.each i q' (get_elem?-set_self qs i q q' e) in
    (
      y,
      at_i,
      holds
          ∙ ap (λ n. newest n (contents q' ++ new i)) cap
          ∙ ap (λ xs. newest q.max_len (xs ++ new i)) now
          ∙ newest-append q.max_len (contents q ++ (p ∷ [])) (new i)
          ∙ ap (newest q.max_len) (append_assoc (contents q) (p ∷ []) (new i)),
      cap' ∙ cap,
    )

-- One more push in front of a delivery.
Extends-cons :
    (qs after : List Queue) (i p : ℕ) (q q' : Queue) (new : ℕ → List ℕ)
    → get_elem? qs i ≡ some q
    → contents q' ≡ newest q.max_len (contents q ++ (p ∷ []))
    → q'.max_len ≡ q.max_len
    → Extends (set qs i q') after new
    → Extends qs after (λ j. if i == j then p ∷ new j else new j)
Extends-cons qs after i p q q' new e now cap ext = record {
  same_length = omega (arith, ext.same_length, length-set {0} qs i q');
  each = λ j x at_j. elim (Bool-cases (i == j)) [
    | inr other ↦ rw (other) (ext.each j x (get_elem?-set_ne qs i j q' (==→ne i j other) ∙ at_j))
    | inl same ↦ rw (same) (
        subst
          (λ m.
            (y : Queue) × (get_elem? after m ≡ some y)
            × (contents y ≡ newest x.max_len (contents x ++ (p ∷ new m)))
            × (y.max_len ≡ x.max_len))
          (==→eq i j same)
          (subst
            (λ z.
              (y : Queue) × (get_elem? after i ≡ some y)
              × (contents y ≡ newest z.max_len (contents z ++ (p ∷ new i)))
              × (y.max_len ≡ z.max_len))
            (some_inj (sym e ∙ subst (λ m. get_elem? qs m ≡ some x) (sym (==→eq i j same)) at_j))
            (Extends-here qs after i p q q' new e now cap ext)))
  ];
}

-- Carrying a record that is held is serving.
Carries-Serves :
    (w : World) (held : List ℕ) (p k : ℕ)
    → Carries w held p k
    → 0 < count p (all_contents w.queues ++ held)
    → Serves w held
Carries-Serves w held p k c pos = record {
  valid = c.valid;
  owned = λ a. (
    (c.counts a).0,
    (c.counts a).1,
    λ zero_refs. elim (Bool-cases (p == a)) [
      | inr other ↦ (c.counts a).2 (λ e. ==→ne p a other (sym e)) zero_refs
      | inl same ↦
          let held_a : 0 < count a (all_contents w.queues ++ held) =
            subst (λ m. 0 < count m (all_contents w.queues ++ held)) (==→eq p a same) pos in
          absurd (omega (arith, (c.counts a).0, held_a, zero_refs))
    ],
  );
  null = c.null;
}

deliver_other :
    (e : QueueEntry) (es : List QueueEntry) (data_id p : ℕ) (was : Bool) (w : World)
    → (data_id == e.id) ≡ false
    → deliver (e ∷ es) data_id p [] was w ≡ deliver es data_id p [] was w
unfolding deliver
deliver_other e es data_id p was w other = rw (deliver, other)

deliver_match :
    (e : QueueEntry) (es : List QueueEntry) (data_id p : ℕ) (was : Bool) (w w₁ : World) (h : Heap)
    → (data_id == e.id) ≡ true
    → ref_inc_at p w.heap ≡ some h
    → push_at e.queue p (record w { heap = h }) ≡ some w₁
    → deliver (e ∷ es) data_id p [] was w ≡ deliver es data_id p [] true w₁
unfolding deliver run_reads
deliver_match e es data_id p was w w₁ h match inc put = rw (deliver, match, inc, put)

as_was : (was : Bool) → was ≡ (if was then true else false)
as_was true = refl
as_was false = refl

always : (was : Bool) → (if was then true else true) ≡ true
always true = refl
always false = refl

pub deliver_lem :
    (es : List QueueEntry) (w : World) (held : List ℕ) (data_id p k : ℕ) (was : Bool)
    → p ≢ 0
    → Carries w held p k
    → (was ≡ true → 0 < count p (all_contents w.queues ++ held))
    → k + length es < word_mod
    → InRange es (length w.queues)
    → Delivered w held es data_id p was (deliver es data_id p [] was w)
unfolding deliver
deliver_lem [] w held data_id p k was ne c pos small range = record {
  pushed = was;
  world = w;
  returns = refl;
  hit = λ e. Carries-Serves w held p k c (pos e);
  miss = λ e. (e, refl);
  extends = Extends-nil w.queues c.valid;
  nothing_lost = refl;
  told = as_was was;
}
deliver_lem (e ∷ es) w held data_id p k was ne c pos small range =
    elim (Bool-cases (data_id == e.id)) [
      | inr other ↦
          let d = deliver_lem es w held data_id p k was ne c pos (omega arith) range.1 in
          record {
            pushed = d.pushed;
            world = d.world;
            returns = deliver_other e es data_id p was w other ∙ d.returns;
            hit = d.hit;
            miss = d.miss;
            extends = rw (other) d.extends;
            nothing_lost = d.nothing_lost;
            told = rw (other) d.told;
          }
      | inl match ↦
          let (q, at_q) = find_queue w.queues e.queue range.0 in
          let (h, inc, own, null) = inc-IsOwned w held p k c (omega arith) in
          let r = push_at_lem w held p e.queue q h at_q (c.valid e.queue q at_q) ne null own in
          let w₁ : World = record w { queues = set w.queues e.queue r.queue; heap = r.heap } in
          let d =
            deliver_lem es w₁ held data_id p (k + 1) true ne
              (after-Carries r at_q (c.valid e.queue q at_q) k c)
              (λ t. after_held r at_q (c.valid e.queue q at_q)) (omega arith)
              (subst (InRange es) (sym (length-set {0} w.queues e.queue r.queue)) range.1) in
          record {
            pushed = d.pushed;
            world = d.world;
            returns = deliver_match e es data_id p was w w₁ h match inc r.returns ∙ d.returns;
            hit = d.hit;
            miss = λ m. cc ((d.miss m).0);
            extends = rw (match) (
                Extends-cons w.queues d.world.queues e.queue p q r.queue
                  (λ j. copies es data_id j p) at_q r.holds r.capacity d.extends);
            nothing_lost = d.nothing_lost;
            told = rw (match) (d.told ∙ sym (always was));
          }
    ]
