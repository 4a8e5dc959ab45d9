-- ===== src/Listener/Handle/Cutting.antt =====
-- The messages in framed messages that are cut off at any byte.
use desert_addon_uwapp_net.Common.{
  ℕ, suc, ◌+◌, ◌-◌, ◌≤◌, ◌<◌, ◌≡◌, ap, ◌∙◌, some, List, [], ◌∷◌, ◌++◌, arith, leb, length,
  if◌then◌else◌, Bool-cases, inl, inr, All, take, length-take, take-append, take-all, take-nil,
}
use mathlib.Core.List.{append-nil}
use desert_addon_uwapp_net.Listener.Wire.{
  frame, magic_tag, bytes_of_word, word_of_bytes-bytes_of_word, drop-all,
}
use desert_addon_uwapp_net.Listener.Receive.Message.{next_message}
use desert_addon_uwapp_net.Listener.Handle.Messages.{IsMessage, frames}
use desert_addon_uwapp_net.Listener.Handle.Parsing.{
  messages_of, messages_in-enough, messages_in-none, messages_of-next, next_message-frame,
  next_message-short,
}

-- What so many bytes hold of framed messages: the first of them, whole, and the beginning of the next
-- one if at least a byte is behind its header of eight bytes.
unfoldable pub delivered : ℕ → List (List ℕ) → List (List ℕ)
delivered k [] = []
delivered k (m ∷ ms) =
    let rest = delivered (k - (8 + length m)) ms in
    if leb (8 + length m) k then m ∷ rest else (if leb k 8 then [] else take (k - 8) m ∷ [])

length-frame : (m : List ℕ) → length (frame m) ≡ 8 + length m
unfolding frame bytes_of_word
length-frame m = omega arith

messages_of-short : (bs : List ℕ) → length bs ≤ 8 → messages_of bs ≡ []
unfolding messages_of
messages_of-short bs h =
    messages_in-enough (length bs) (suc (length bs)) bs (omega arith) (omega arith)
    ∙ messages_in-none (length bs) bs (next_message-short bs (omega (arith, h)))

-- A header, and at least a byte but not all of the message.
next_message-cut :
    (n : ℕ) (m : List ℕ)
    → IsMessage m
    → 0 < n
    → n < length m
    → next_message (bytes_of_word magic_tag ++ (bytes_of_word (length m) ++ take n m))
      ≡ some (take n m, [])
unfolding next_message bytes_of_word
next_message-cut n m (pos, fits) some_of less =
    let tag = word_of_bytes-bytes_of_word magic_tag (omega arith) in
    let size = word_of_bytes-bytes_of_word (length m) (omega arith) in
    ground (
      arith,
      tag,
      size,
      length-take n m,
      take-all (length m) (take n m),
      drop-all (length m) (take n m),
    )

take-behind :
    (k : ℕ) (xs ys : List ℕ) → length xs ≤ k → take k (xs ++ ys) ≡ xs ++ take (k - length xs) ys
take-behind k xs ys h =
    take-append k xs ys ∙ ap (λ t. t ++ take (k - length xs) ys) (take-all k xs h)

-- a frame that is cut off behind its header
take-frame :
    (k : ℕ) (m : List ℕ)
    → 8 ≤ k
    → take k (frame m) ≡ bytes_of_word magic_tag ++ (bytes_of_word (length m) ++ take (k - 8) m)
unfolding frame bytes_of_word
take-frame k m h =
    let tag = bytes_of_word magic_tag in
    let size = bytes_of_word (length m) in
    let e : k - 4 - 4 ≡ k - 8 = omega arith in
    take-behind k tag (size ++ m) (omega (arith, h))
    ∙ ap (λ t. tag ++ t)
        (take-behind (k - 4) size m (omega (arith, h)) ∙ ap (λ n. size ++ take n m) e)

take-within : (k : ℕ) (xs ys : List ℕ) → k ≤ length xs → take k (xs ++ ys) ≡ take k xs
take-within k xs ys h =
    let e : k - length xs ≡ 0 = omega (arith, h) in
    take-append k xs ys ∙ ap (λ n. take k xs ++ take n ys) e ∙ append-nil (take k xs)

-- the messages in a frame that is cut off
messages_of-frame :
    (k : ℕ) (m rest : List ℕ)
    → IsMessage m
    → k < 8 + length m
    → messages_of (take k (frame m ++ rest)) ≡ (if leb k 8 then [] else take (k - 8) m ∷ [])
messages_of-frame k m rest good cut =
    let alone = take-within k (frame m) rest (omega (arith, cut, length-frame m)) in
    elim (Bool-cases (leb k 8)) [
      | inl short ↦ rw short (
          messages_of-short (take k (frame m ++ rest))
            (ground (arith, short, length-take k (frame m ++ rest))))
      | inr long ↦
          let more : 8 < k = ground (arith, long) in
          let one =
            next_message-cut (k - 8) m good (omega (arith, more)) (omega (arith, cut, more)) in
          rw long (
            ap messages_of (alone ∙ take-frame k m (omega (arith, more)))
            ∙ messages_of-next _ one
            ∙ ap (λ t. take (k - 8) m ∷ t) (messages_of-short [] (omega arith)))
    ]

-- Of framed messages that are cut off after any number of bytes the listener takes the first ones,
-- whole and in order, and, if the cut is within a message behind its header, the beginning
-- of it as a last one.
pub messages_of-delivered :
    (k : ℕ) (msgs : List (List ℕ))
    → All IsMessage msgs
    → messages_of (take k (frames msgs)) ≡ delivered k msgs
unfolding frames delivered
messages_of-delivered k [] h = ap messages_of (take-nil ℕ k) ∙ messages_of-short [] (omega arith)
messages_of-delivered k (m ∷ ms) h = elim (Bool-cases (leb (8 + length m) k)) [
  | inl whole ↦
      let fits : length (frame m) ≤ k = ground (arith, whole, length-frame m) in
      let rest : k - length (frame m) ≡ k - (8 + length m) = omega (arith, length-frame m) in
      rw whole (
        ap messages_of (take-behind k (frame m) (frames ms) fits)
        ∙ messages_of-next _ (next_message-frame m (take (k - length (frame m)) (frames ms)) h.0)
        ∙ ap (λ n. m ∷ messages_of (take n (frames ms))) rest
        ∙ ap (λ t. m ∷ t) (messages_of-delivered (k - (8 + length m)) ms h.1))
  | inr cut ↦ rw cut (messages_of-frame k m (frames ms) h.0 (ground (arith, cut)))
]
