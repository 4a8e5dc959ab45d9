-- ===== src/Listener/Receive/Message.antt =====
-- The first message in the bytes of a client, whatever these are.
use desert_addon_uwapp_net.Common.{
  ℕ, ◌-◌, ◌≤◌, ◌<◌, ◌≡◌, refl, ap, ◌∙◌, not, ◌||◌, Option, none, some, List, [], ◌∷◌, ◌++◌, arith,
  length, take, drop, ltb, ◌==◌, if◌then◌else◌, length-take, length-drop, take-nil, Bool-cases, inl,
  inr,
}
use mathlib.Core.List.{append-nil}
use desert_addon_uwapp_net.Listener.Wire.{overwrite, word_of_bytes, magic_tag, drop-all}

-- the first message of these bytes, and what follows it, if they begin with a whole header of a size
-- that the buffer holds and at least one byte of the message
unfoldable pub next_message : List ℕ → Option (List ℕ × List ℕ)
next_message bs =
    let size = word_of_bytes (take 4 (drop 4 bs)) in
    if ltb (length bs) 9
      || not (word_of_bytes (take 4 bs) == magic_tag)
      || size == 0
      || ltb 4096 size
    then none
    else some (take size (drop 4 (drop 4 bs)), drop size (drop 4 (drop 4 bs)))

-- A word of which all four bytes have come is read whatever the variable held.
pub word-whole :
    (bs old : List ℕ) → 4 ≤ length bs → length old ≡ 4 → overwrite (take 4 bs) old ≡ take 4 bs
word-whole bs old h four =
    ap (λ t. take 4 bs ++ t) (drop-all (length (take 4 bs)) old (omega (arith, length-take 4 bs)))
    ∙ append-nil (take 4 bs)

nil_of_length : (xs : List ℕ) → length xs ≡ 0 → xs ≡ []
nil_of_length [] h = refl
nil_of_length (x ∷ xs) h = absurd (omega (arith, h))

-- Behind a header that is whole and says a size that fits there is nothing, or the size is 0.
pub nothing_left :
    (bs b₂ b₃ old₁ old₂ : List ℕ)
    → b₂ ≡ drop 4 bs
    → b₃ ≡ drop 4 b₂
    → length old₁ ≡ 4
    → length old₂ ≡ 4
    → next_message bs ≡ none
    → word_of_bytes (overwrite (take 4 bs) old₁) ≡ magic_tag
    → word_of_bytes (overwrite (take 4 b₂) old₂) ≤ 4096
    → take (word_of_bytes (overwrite (take 4 b₂) old₂)) b₃ ≡ []
unfolding next_message
nothing_left bs b₂ b₃ old₁ old₂ e₂ e₃ four₁ four₂ e tag fits =
    let n = word_of_bytes (overwrite (take 4 b₂) old₂) in
    let l₂ : length b₂ ≡ length bs - 4 = ap length e₂ ∙ length-drop 4 bs in
    let l₃ : length b₃ ≡ length b₂ - 4 = ap length e₃ ∙ length-drop 4 b₂ in
    elim (Bool-cases (ltb (length bs) 9)) [
      | inl short ↦ ap (take n) (nil_of_length b₃ (ground (arith, short, l₂, l₃))) ∙ take-nil ℕ n
      | inr long ↦
          let nine : 9 ≤ length bs = ground (arith, long) in
          let w₁ = word-whole bs old₁ (omega (arith, nine)) four₁ in
          let w₂ = word-whole b₂ old₂ (omega (arith, nine, l₂)) four₂ in
          let v₂ : n ≡ word_of_bytes (take 4 (drop 4 bs)) =
            ap word_of_bytes w₂ ∙ ap (λ t. word_of_bytes (take 4 t)) e₂ in
          let zero_size : n ≡ 0 = ground (arith, e, long, tag, fits, ap word_of_bytes w₁, v₂) in
          ap (λ k. take k b₃) zero_size
    ]

-- what it means that the bytes begin with a message
pub record Begins (bs msg rest : List ℕ) : Type 0 where
  pub size : ℕ
  pub long : 9 ≤ length bs
  pub tag : word_of_bytes (take 4 bs) ≡ magic_tag
  pub sized : word_of_bytes (take 4 (drop 4 bs)) ≡ size
  pub positive : 0 < size
  pub fits : size ≤ 4096
  pub message : take size (drop 4 (drop 4 bs)) ≡ msg
  pub behind : drop size (drop 4 (drop 4 bs)) ≡ rest

pub next_message-Begins :
    (bs : List ℕ) {msg rest : List ℕ} → next_message bs ≡ some (msg, rest) → Begins bs msg rest
unfolding next_message
next_message-Begins bs e = record {
  size = word_of_bytes (take 4 (drop 4 bs));
  long = ground (arith, e);
  tag = ground (arith, e);
  sized = refl;
  positive = ground (arith, e);
  fits = ground (arith, e);
  message = ground (arith, e);
  behind = ground (arith, e);
}
