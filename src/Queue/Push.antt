-- ===== src/Queue/Push.antt =====
-- `queue_push`.
use native.Mathlib.Nat.{mod-lt, lt_of_lt_of_le, add-mod_right}
use native.Mathlib.Decide.{dec_lt}
use hound.Base.{
  get_or, get_elem?-of_lt, eq→==, le→ltb, ==_self, mod_size_pos, add_size_small, ne→==, lt→ltb, ℕ,
  ◌+◌, ◌-◌, ◌%◌, ◌<◌, ◌≡◌, ◌≢◌, refl, ap, ◌∙◌, sym, subst, List, [], ◌∷◌, ◌++◌, arith, Option, none,
  some, drop, count, length-set, set, length, add_size, mod_below,
}
use hound.Records.{Heap, record_ref_dec}
use hound.Records.Owned.{
  IsOwned, record_ref_dec-IsOwned, IsOwned-reorder, count_moved, held_ne_null,
}
use hound.Queue.{Queue, store, queue_push}
use hound.Queue.Window.{window, window-set, window-set_full, window-mod, window-split}
use hound.Queue.Valid.{IsValid, contents}

-- What a push does: the record becomes the newest entry, and the entries beyond the capacity, which
-- are the oldest, leave the queue and lose its reference.
pub record Pushed (q : Queue) (rec : ℕ) (held : List ℕ) (h : Heap) (r : Option (Queue × Heap))
    : Type 0 where
  pub queue : Queue
  pub heap : Heap
  pub returns : r ≡ some (queue, heap)
  pub valid : IsValid queue
  pub holds : contents queue ≡ drop (q.len + 1 - q.max_len) (contents q ++ (rec ∷ []))
  pub seqno : queue.front_seqno ≡ add_size q.front_seqno (q.len + 1 - q.max_len)
  pub capacity : queue.max_len ≡ q.max_len
  pub flag : queue.interrupt ≡ q.interrupt
  pub owned : IsOwned (contents queue ++ held) heap

push_room_run :
    (q : Queue) (rec : ℕ) (h : Heap)
    → IsValid q
    → rec ≢ 0
    → q.len < q.max_len
    → queue_push q rec h
      ≡ some
          (record q { len = q.len + 1; slots = set q.slots ((q.front + q.len) % q.max_len) rec }, h)
unfolding queue_push store
push_room_run q rec h v ne lt =
    let back = (q.front + q.len) % q.max_len in
    let inside : back < length q.slots =
      lt_of_lt_of_le (mod-lt (q.front + q.len) v.positive) v.storage in
    rw (
      ne→== rec 0 ne,
      add_size_small q.front q.len (omega arith),
      mod_size_pos (q.front + q.len) q.max_len v.positive,
      lt→ltb q.len q.max_len lt,
      lt→ltb back (length q.slots) inside,
      add_size_small q.len 1 (omega arith),
    )

push_room :
    (q : Queue) (rec : ℕ) (held : List ℕ) (h : Heap)
    → IsValid q
    → rec ≢ 0
    → IsOwned (rec ∷ contents q ++ held) h
    → q.len < q.max_len
    → Pushed q rec held h (queue_push q rec h)
push_room q rec held h v ne own lt =
    let back = (q.front + q.len) % q.max_len in
    let grown : contents (record q { len = q.len + 1; slots = set q.slots back rec })
        ≡ contents q ++ (rec ∷ []) =
      window-set q.slots q.max_len q.front q.len rec lt
        (lt_of_lt_of_le (mod-lt (q.front + q.len) v.positive) v.storage) in
    record {
      queue = record q { len = q.len + 1; slots = set q.slots back rec };
      heap = h;
      returns = push_room_run q rec h v ne lt;
      valid = record {
        positive = v.positive;
        small = v.small;
        storage = omega (arith, length-set q.slots back rec, v.storage);
        front_in = v.front_in;
        len_in = omega arith;
        seqno_in = v.seqno_in;
      };
      holds = grown ∙ ap (λ n. drop n (contents q ++ (rec ∷ []))) {x = 0} (omega arith);
      seqno = let e : q.len + 1 - q.max_len ≡ 0 = omega arith in omega (arith, v.seqno_in, e);
      capacity = refl;
      flag = refl;
      owned =
          IsOwned-reorder (rec ∷ contents q ++ held) _ h
            (λ p. count_moved p rec (contents q) held ∙ ap (λ xs. count p (xs ++ held)) (sym grown))
            own;
    }

push_full_run :
    (q : Queue) (rec : ℕ) (h h' : Heap)
    → IsValid q
    → rec ≢ 0
    → q.len ≡ q.max_len
    → get_or q.slots q.front 0 ≢ 0
    → record_ref_dec (get_or q.slots q.front 0) h ≡ some h'
    → queue_push q rec h
      ≡ some (
        record q {
          front = (q.front + 1) % q.max_len;
          front_seqno = add_size q.front_seqno 1;
          slots = set q.slots q.front rec;
        },
        h',
      )
unfolding queue_push store
push_full_run q rec h h' v ne full tmp e =
    let back : (q.front + q.len) % q.max_len ≡ q.front =
      ap (λ n. (q.front + n) % q.max_len) full
      ∙ add-mod_right q.front q.max_len
      ∙ mod_below q.front q.max_len v.front_in in
    rw (
      ne→== rec 0 ne,
      add_size_small q.front q.len (omega arith),
      mod_size_pos (q.front + q.len) q.max_len v.positive,
      le→ltb q.len q.max_len (omega arith),
      back,
      eq→== q.len q.max_len full,
      ==_self q.front,
      get_elem?-of_lt q.slots q.front 0 (lt_of_lt_of_le v.front_in v.storage),
      add_size_small q.front 1 (omega arith),
      mod_size_pos (q.front + 1) q.max_len v.positive,
      lt→ltb q.front (length q.slots) (lt_of_lt_of_le v.front_in v.storage),
      ne→== (get_or q.slots q.front 0) 0 tmp,
      e,
    )

push_full :
    (q : Queue) (rec : ℕ) (held : List ℕ) (h : Heap)
    → IsValid q
    → rec ≢ 0
    → h 0 ≡ none
    → IsOwned (rec ∷ contents q ++ held) h
    → q.len ≡ q.max_len
    → Pushed q rec held h (queue_push q rec h)
push_full q rec held h v ne null own full =
    let tmp = get_or q.slots q.front 0 in
    let rest = window q.slots q.max_len (q.front + 1) (q.max_len - 1) in
    let queue = record q {
      front = (q.front + 1) % q.max_len;
      front_seqno = add_size q.front_seqno 1;
      slots = set q.slots q.front rec;
    } in
    let was : contents q ≡ tmp ∷ rest =
      ap (window q.slots q.max_len q.front) (omega arith)
      ∙ window-split q.slots q.max_len q.front 1 (q.max_len - 1)
      ∙ ap (λ i. get_or q.slots i 0 ∷ rest) (mod_below q.front q.max_len v.front_in) in
    let now : contents queue ≡ rest ++ (rec ∷ []) =
      window-mod queue.slots q.max_len (q.front + 1) q.len
      ∙ ap (window queue.slots q.max_len (q.front + 1)) full
      ∙ window-set_full q.slots q.max_len q.front rec v.positive v.front_in
          (lt_of_lt_of_le v.front_in v.storage) in
    let own' : IsOwned (tmp ∷ (rest ++ (rec ∷ [])) ++ held) h =
      IsOwned-reorder (rec ∷ contents q ++ held) (tmp ∷ (rest ++ (rec ∷ [])) ++ held) h
        (λ p.
          ap (λ xs. count p (rec ∷ xs ++ held)) was ∙ ground (arith, count_moved p rec rest held))
        own in
    let (h', e, after) = record_ref_dec-IsOwned tmp ((rest ++ (rec ∷ [])) ++ held) h own' in
    record {
      queue = queue;
      heap = h';
      returns =
          push_full_run q rec h h' v ne full
            (held_ne_null tmp ((rest ++ (rec ∷ [])) ++ held) h own' null) e;
      valid = record {
        positive = v.positive;
        small = v.small;
        storage = omega (arith, length-set q.slots q.front rec, v.storage);
        front_in = mod-lt (q.front + 1) v.positive;
        len_in = v.len_in;
        seqno_in = omega arith;
      };
      holds =
          now
          ∙ sym (ap (λ xs. drop 1 (xs ++ (rec ∷ []))) was)
          ∙ ap (λ n. drop n (contents q ++ (rec ∷ []))) {x = 1} (omega arith);
      seqno = ap (add_size q.front_seqno) {x = 1} (omega arith);
      capacity = refl;
      flag = refl;
      owned = subst (λ xs. IsOwned (xs ++ held) h') (sym now) after;
    }

-- A push of a record that is not NULL into a valid queue that owns its entries and is handed a
-- reference to the record has no fault. The record becomes the newest entry; of the longer list only
-- the newest `max_len` entries stay, the sequence number of the front moves on by the number of
-- entries dropped, each of which loses the queue's reference, and the queue stays valid.
pub queue_push_lem :
    (q : Queue) (rec : ℕ) (held : List ℕ) (h : Heap)
    → IsValid q
    → rec ≢ 0
    → h 0 ≡ none
    → IsOwned (rec ∷ contents q ++ held) h
    → Pushed q rec held h (queue_push q rec h)
queue_push_lem q rec held h v ne null own = elim (dec_lt q.len q.max_len) [
  | yes room ↦ push_room q rec held h v ne own room
  | no full ↦ push_full q rec held h v ne null own (omega (arith, v.len_in))
]
