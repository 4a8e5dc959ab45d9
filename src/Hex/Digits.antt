-- ===== src/Hex/Digits.antt =====
-- How many characters the text of a byte has, and that texts of ASCII bytes can be read back.
use desert_addon_uwapp_net.Common.{
  ℕ, zero, suc, ◌+◌, ◌-◌, ◌*◌, ◌<◌, ◌≤◌, ◌≡◌, ◌^◌, ◌/◌, ◌%◌, refl, ap, ◌∙◌, Bool, true, false, ◌&&◌,
  List, [], ◌∷◌, ◌++◌, arith, ltb, ◌==◌, if◌then◌else◌, is_negative, length, length-append, take,
  All,
}
use mathlib.Core.Path.{ap₂}
use desert_addon_uwapp_net.Hex.{
  hex_digit, to_hexstring, string_to_hexstring, hex_loop, buffer_to_hexstring,
}

-- Is `xs` the text of the byte `c`: two digits, behind six letters F if the byte is not ASCII?
list_eqb : List ℕ → List ℕ → Bool
list_eqb [] [] = true
list_eqb [] (y ∷ ys) = false
list_eqb (x ∷ xs) [] = false
list_eqb (x ∷ xs) (y ∷ ys) = x == y && list_eqb xs ys

list_eqb-eq : (xs ys : List ℕ) → list_eqb xs ys ≡ true → xs ≡ ys
unfolding list_eqb
list_eqb-eq [] [] h = refl
list_eqb-eq [] (y ∷ ys) h = cc
list_eqb-eq (x ∷ xs) [] h = cc
list_eqb-eq (x ∷ xs) (y ∷ ys) h = ground (arith, list_eqb-eq xs ys)

-- Do the `count` numbers from `first` on all pass the test?
range_passes : (first count : ℕ) → (ℕ → Bool) → Bool
range_passes first zero test = true
range_passes first (suc count) test = test first && range_passes (first + 1) count test

passes_at :
    (first count : ℕ) (test : ℕ → Bool) {c : ℕ}
    → first ≤ c
    → c < first + count
    → range_passes first count test ≡ true
    → test c ≡ true
unfolding range_passes
passes_at first zero test low high h = absurd (omega arith)
passes_at first (suc count) test {c} low high h =
    ground (arith, passes_at (first + 1) count test {c = c})

-- two digits, behind six letters F for a byte from 128 on
abbrev pub byte_text : ℕ → List ℕ
byte_text c =
    (if ltb c 128 then [] else b'F' ∷ b'F' ∷ b'F' ∷ b'F' ∷ b'F' ∷ b'F' ∷ [])
    ++ hex_digit (c / 16) ∷ hex_digit (c % 16) ∷ []

byte_table : range_passes 0 256 (λ c. list_eqb (to_hexstring c false false) (byte_text c)) ≡ true
unfolding range_passes list_eqb to_hexstring
byte_table = refl

pub to_hexstring-byte_text : (c : ℕ) → c < 256 → to_hexstring c false false ≡ byte_text c
to_hexstring-byte_text c h = list_eqb-eq _ _ (
    passes_at 0 256 (λ c. list_eqb (to_hexstring c false false) (byte_text c)) (omega arith) h
      byte_table)

-- the number of bytes from 128 on
unfoldable pub high_bytes : List ℕ → ℕ
high_bytes [] = 0
high_bytes (c ∷ cs) = high_bytes cs + (if ltb c 128 then 0 else 1)

abbrev pub IsByte : ℕ → Type 0
IsByte c = c < 256

abbrev pub IsAscii : ℕ → Type 0
IsAscii c = c < 128

length-byte_text : (c : ℕ) → length (byte_text c) ≡ 2 + 6 * (if ltb c 128 then 0 else 1)
length-byte_text c = ground arith

-- The text of a string has two characters for a byte below 128 and eight for any other byte.
length-string_to_hexstring :
    (s : List ℕ)
    → All IsByte s
    → length (string_to_hexstring s false false) ≡ 2 * length s + 6 * high_bytes s
unfolding string_to_hexstring high_bytes
length-string_to_hexstring [] h = refl
length-string_to_hexstring (c ∷ cs) h = omega (
  arith,
  length-append (to_hexstring c false false) (string_to_hexstring cs false false),
  ap length (to_hexstring-byte_text c h.0),
  length-byte_text c,
  length-string_to_hexstring cs h.1,
)

-- the number of a digit, and the bytes that pairs of digits write
abbrev pub digit_value : ℕ → ℕ
digit_value d = if ltb d b'A' then d - b'0' else d + 10 - b'A'

unfoldable pub read_hex : List ℕ → List ℕ
read_hex [] = []
read_hex (d ∷ []) = []
read_hex (d ∷ e ∷ ds) = (16 * digit_value d + digit_value e) ∷ read_hex ds

digit_value-hex_digit : (d : ℕ) → d < 16 → digit_value (hex_digit d) ≡ d
unfolding hex_digit
digit_value-hex_digit d h = ground arith

read_loop :
    (n : ℕ) (cs : List ℕ)
    → All IsAscii cs
    → n ≤ length cs
    → read_hex (hex_loop n cs false false) ≡ take n cs
unfolding read_hex hex_loop
read_loop zero cs h le = refl
read_loop (suc n) [] h le = absurd (omega arith)
read_loop (suc n) (c ∷ cs) h le =
    let two : to_hexstring c false false ≡ hex_digit (c / 16) ∷ hex_digit (c % 16) ∷ [] =
      to_hexstring-byte_text c (omega arith) ∙ ground arith in
    let value : 16 * digit_value (hex_digit (c / 16)) + digit_value (hex_digit (c % 16)) ≡ c =
      omega (
        arith,
        digit_value-hex_digit (c / 16) (omega arith),
        digit_value-hex_digit (c % 16) (omega arith),
      ) in
    ap (λ t. read_hex (t ++ hex_loop n cs false false)) two
    ∙ ap₂ ◌∷◌ value (read_loop n cs h.1 (omega arith))

-- Printed byte by byte, an array of ASCII characters can be read back: of each pair of digits the
-- value is the character, for any size that the array has and an `int` holds.
pub read_hex-buffer_to_hexstring :
    (buf : List ℕ) (size : ℕ)
    → All IsAscii buf
    → size ≤ length buf
    → size < 2 ^ 31
    → read_hex (buffer_to_hexstring buf size false false) ≡ take size buf
unfolding buffer_to_hexstring
read_hex-buffer_to_hexstring buf size h le small =
    let e : (if is_negative size then 0 else size) ≡ size = ground arith in
    ap (λ n. read_hex (hex_loop n buf false false)) e ∙ read_loop size buf h le
