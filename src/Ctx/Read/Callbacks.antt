-- ===== src/Ctx/Read/Callbacks.antt =====
-- The calls of the callback.
use hound.Base.{
  ℕ, ◌<◌, ◌≡◌, refl, ap, ◌∙◌, List, [], ◌∷◌, ◌++◌, arith, some, length, add_size, word_mod,
}
use hound.Records.{Heap}
use hound.Records.Owned.{IsOwned, record_ref_dec-IsOwned, IsOwned-AllLive}
use hound.Ctx.Read.{Trace, process_callbacks}

-- Records with consecutive sequence numbers.
abbrev pub numbered : ℕ → List ℕ → Trace
numbered seqno [] = []
numbered seqno (rec ∷ buf) = (rec, seqno) ∷ numbered (add_size seqno 1) buf

pub numbered-append :
    (s : ℕ) (xs ys : List ℕ)
    → s < word_mod
    → numbered s (xs ++ ys) ≡ numbered s xs ++ numbered (add_size s (length xs)) ys
numbered-append s [] ys h = ap (λ t. numbered t ys) (omega arith)
numbered-append s (x ∷ xs) ys h =
    ap (λ r. (x, s) ∷ r)
      (numbered-append (add_size s 1) xs ys (omega arith)
        ∙ ap (λ t. numbered (add_size s 1) xs ++ numbered t ys) (omega arith))

-- Where the buffer holds a reference to each of its records, the callback is called once for each
-- record, in order and with consecutive sequence numbers, while the record is allocated; then the
-- buffer's references are dropped, and no others.
pub process_callbacks_lem :
    (buf held : List ℕ) (seqno : ℕ) (h : Heap)
    → IsOwned (buf ++ held) h
    → (h' : Heap) × (process_callbacks buf seqno h ≡ some (numbered seqno buf, h'))
      × IsOwned held h'
unfolding process_callbacks
process_callbacks_lem [] held seqno h own = (h, refl, own)
process_callbacks_lem (rec ∷ buf) held seqno h own =
    let ((_, live), _) = IsOwned-AllLive (rec ∷ []) (buf ++ held) h own in
    let (h₁, e₁, own₁) = record_ref_dec-IsOwned rec (buf ++ held) h own in
    let (h₂, e₂, own₂) = process_callbacks_lem buf held (add_size seqno 1) h₁ own₁ in
    (h₂, rw (live, e₁, e₂), own₂)
