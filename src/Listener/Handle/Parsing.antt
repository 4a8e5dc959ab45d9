-- ===== src/Listener/Handle/Parsing.antt =====
-- The messages in the bytes of a client, whatever these are.
use desert_addon_uwapp_net.Common.{
  ℕ, zero, suc, ◌≤◌, ◌<◌, ◌≡◌, refl, sym, ap, ◌∙◌, Option-cases, none, some, inl, inr, List, [],
  ◌∷◌, ◌++◌, arith, length, All, drop, length-drop, length-append, take-append_self,
  drop-append_self,
}
use desert_addon_uwapp_net.Listener.Wire.{
  frame, magic_tag, bytes_of_word, word_of_bytes-bytes_of_word,
}
use desert_addon_uwapp_net.Listener.Receive.Message.{next_message, next_message-Begins}
use desert_addon_uwapp_net.Listener.Handle.Messages.{IsMessage, frames}

-- The messages from the beginning on, at most so many, up to the first place where none begins.
unfoldable pub messages_in : ℕ → List ℕ → List (List ℕ)
messages_in zero bs = []
messages_in (suc n) bs = elim (next_message bs) [
  | none ↦ []
  | some (m, rest) ↦ m ∷ messages_in n rest
]

unfoldable pub messages_of : List ℕ → List (List ℕ)
unfolding messages_in
messages_of bs = messages_in (length bs) bs

-- A message is taken off with its header.
pub next_message-shorter :
    (bs : List ℕ) {m rest : List ℕ} → next_message bs ≡ some (m, rest) → length rest < length bs
next_message-shorter bs e =
    let b = next_message-Begins bs e in
    omega (
      arith,
      b.long,
      sym (ap length b.behind) ∙ length-drop b.size (drop 4 (drop 4 bs)),
      length-drop 4 (drop 4 bs),
      length-drop 4 bs,
    )

pub next_message-short : (bs : List ℕ) → length bs < 9 → next_message bs ≡ none
unfolding next_message
next_message-short bs h = ground arith

pub messages_in-none : (n : ℕ) (bs : List ℕ) → next_message bs ≡ none → messages_in (suc n) bs ≡ []
unfolding messages_in
messages_in-none n bs e = rw (messages_in, e) refl

pub messages_in-some :
    (n : ℕ) (bs : List ℕ) {m rest : List ℕ}
    → next_message bs ≡ some (m, rest)
    → messages_in (suc n) bs ≡ m ∷ messages_in n rest
unfolding messages_in
messages_in-some n bs e = rw (messages_in, e) refl

-- As many rounds as there are bytes are enough.
pub messages_in-enough :
    (n k : ℕ) (bs : List ℕ) → length bs ≤ n → length bs ≤ k → messages_in n bs ≡ messages_in k bs
unfolding messages_in
messages_in-enough zero zero bs hn hk = refl
messages_in-enough zero (suc k) bs hn hk = ground (arith, next_message-short bs)
messages_in-enough (suc n) zero bs hn hk = ground (arith, next_message-short bs)
messages_in-enough (suc n) (suc k) bs hn hk = elim (Option-cases (next_message bs)) [
  | inl e ↦ messages_in-none n bs e ∙ sym (messages_in-none k bs e)
  | inr ((m, rest), e) ↦
      let less = next_message-shorter bs e in
      messages_in-some n bs e
      ∙ ap (λ t. m ∷ t) (messages_in-enough n k rest (omega (arith, less)) (omega (arith, less)))
      ∙ sym (messages_in-some k bs e)
]

-- the messages, by the first of them
pub messages_of-next :
    (bs : List ℕ) {m rest : List ℕ}
    → next_message bs ≡ some (m, rest)
    → messages_of bs ≡ m ∷ messages_of rest
unfolding messages_of messages_in
messages_of-next bs {m} {rest} e =
    messages_in-enough (length bs) (suc (length bs)) bs (omega arith) (omega arith)
    ∙ messages_in-some (length bs) bs e
    ∙ ap (λ t. m ∷ t)
        (messages_in-enough (length bs) (length rest) rest
          (omega (arith, next_message-shorter bs e)) (omega arith))

pub next_message-frame :
    (m rest : List ℕ) → IsMessage m → next_message (frame m ++ rest) ≡ some (m, rest)
unfolding next_message frame bytes_of_word
next_message-frame m rest (pos, fits) =
    let tag = word_of_bytes-bytes_of_word magic_tag (omega arith) in
    let size = word_of_bytes-bytes_of_word (length m) (omega arith) in
    ground
      (arith, tag, size, length-append m rest, take-append_self m rest, drop-append_self m rest)

-- Of framed messages these are the messages.
pub messages_of-frames :
    (msgs : List (List ℕ)) → All IsMessage msgs → messages_of (frames msgs) ≡ msgs
unfolding messages_of frames
messages_of-frames [] h = refl
messages_of-frames (m ∷ ms) h =
    let one = next_message-frame m (frames ms) h.0 in
    messages_of-next (frame m ++ frames ms) one ∙ ap (λ t. m ∷ t) (messages_of-frames ms h.1)
