-- ===== src/Logging/Sticky.antt =====
-- How numbers are written before and after the first `std::hex`.
use desert_addon_uwapp_net.Common.{ℕ, ◌≡◌, refl, sym, ap, ◌∙◌, List, [], ◌∷◌, ◌++◌, All}
use mathlib.Core.List.{append_assoc, append-nil}
use desert_addon_uwapp_net.Logging.{
  Base, dec, hex, Operand, text, signed, unsigned, set_hex, printed, base_after, Stream, insert,
  insert_all, message, Colour,
}

-- operands that leave the base as it is
abbrev pub IsSteady : Base → List Operand → Type 0
IsSteady b os = All (λ o. base_after b o ≡ b) os

-- the operands, with all numbers in this base
abbrev pub all_printed : Base → List Operand → List ℕ
all_printed b [] = []
all_printed b (o ∷ os) = printed b o ++ all_printed b os

-- a stream in this base, to which this has been written
abbrev pub extended : Base → Stream → List ℕ → Stream
extended b s t = record { base = b; written = s.written ++ t }

-- Nothing sets the base back.
pub hex-IsSteady : (os : List Operand) → IsSteady hex os
unfolding base_after
hex-IsSteady [] = tt
hex-IsSteady (text t ∷ os) = (refl, hex-IsSteady os)
hex-IsSteady (signed n ∷ os) = (refl, hex-IsSteady os)
hex-IsSteady (unsigned n ∷ os) = (refl, hex-IsSteady os)
hex-IsSteady (set_hex ∷ os) = (refl, hex-IsSteady os)

same_base : (b : Base) (s : Stream) → s.base ≡ b → s ≡ extended b s []
same_base b s e =
    ap (λ c. record { base = c; written = s.written }) e
    ∙ ap (λ t. record { base = b; written = t }) (sym (append-nil s.written))

pub extended-extended :
    (b c : Base) (s : Stream) (t u : List ℕ) → extended c (extended b s t) u ≡ extended c s (t ++ u)
extended-extended b c s t u =
    ap (λ w. record { base = c; written = w }) (append_assoc s.written t u)

pub insert_all-steady :
    (b : Base) (os : List Operand) (s : Stream)
    → s.base ≡ b
    → IsSteady b os
    → insert_all s os ≡ extended b s (all_printed b os)
unfolding insert_all insert
insert_all-steady b [] s e h = same_base b s e
insert_all-steady b (o ∷ os) s e h =
    insert_all-steady b os (insert s o) (ap (λ c. base_after c o) e ∙ h.0) h.1
    ∙ ap (λ c. extended b (extended b s (printed c o)) (all_printed b os)) e
    ∙ extended-extended b b s (printed b o) (all_printed b os)

pub insert_all-append :
    (os rest : List Operand) (s : Stream)
    → insert_all s (os ++ rest) ≡ insert_all (insert_all s os) rest
unfolding insert_all
insert_all-append [] rest s = refl
insert_all-append (o ∷ os) rest s = insert_all-append os rest (insert s o)

pub IsSteady-append :
    (b : Base) (xs ys : List Operand) → IsSteady b xs → IsSteady b ys → IsSteady b (xs ++ ys)
IsSteady-append b [] ys h k = k
IsSteady-append b (x ∷ xs) ys h k = (h.0, IsSteady-append b xs ys h.1 k)

-- A message keeps the base if its operands do.
pub message-IsSteady :
    (b : Base) (c : Colour) (msg : List Operand) → IsSteady b msg → IsSteady b (message c msg)
unfolding message base_after
message-IsSteady b c msg h = (refl, IsSteady-append b msg _ h (refl, (refl, tt)))

-- Numbers are decimal before the first `std::hex`, and hexadecimal behind it, in whatever follows.
pub insert_all-once :
    (xs ys : List Operand) (s : Stream)
    → s.base ≡ dec
    → IsSteady dec xs
    → insert_all s (xs ++ set_hex ∷ ys) ≡ extended hex s (all_printed dec xs ++ all_printed hex ys)
unfolding insert_all insert base_after printed
insert_all-once xs ys s e h =
    insert_all-append xs (set_hex ∷ ys) s
    ∙ ap (λ t. insert_all t (set_hex ∷ ys)) (insert_all-steady dec xs s e h)
    ∙ insert_all-steady hex ys
        (record { base = hex; written = (s.written ++ all_printed dec xs) ++ [] }) refl
        (hex-IsSteady ys)
    ∙ ap (λ t. record { base = hex; written = t ++ all_printed hex ys })
        (append-nil (s.written ++ all_printed dec xs))
    ∙ extended-extended dec hex s (all_printed dec xs) (all_printed hex ys)
