-- ===== src/Hex.antt =====
-- string_utils.h: bytes as hexadecimal text, as code points. A `char` is a byte; converted to `int`
-- it is sign-extended, since `char` is signed on the targets.
pub mod Digits
use Prim.Native.Nat.{ℕ, zero, suc, ◌+◌, ◌-◌, ◌/◌, ◌%◌, ◌^◌}
use desert_addon_uwapp_net.Common.{
  Bool, true, false, List, [], ◌∷◌, ◌++◌, ltb, ◌==◌, if◌then◌else◌, is_negative,
}

-- `(int) c`
unfoldable pub int_of_char : ℕ → ℕ
int_of_char c = if ltb c 128 then c else c + (2 ^ 32 - 256)

unfoldable pub hex_digit : ℕ → ℕ
hex_digit d = if ltb d 10 then b'0' + d else b'A' + d - 10

-- `std::hex` of an unsigned 32-bit number: up to eight digits, and at least one
unfoldable pub hex_number : ℕ → ℕ → List ℕ
unfolding hex_digit
hex_number zero n = []
hex_number (suc places) n =
    let higher = hex_number places (n / 16) in
    (if n / 16 == 0 then [] else higher) ++ hex_digit (n % 16) ∷ []

-- `std::setw(2)` with `std::setfill('0')`
unfoldable pub pad_two : List ℕ → List ℕ
pad_two [] = b'0' ∷ b'0' ∷ []
pad_two (d ∷ []) = b'0' ∷ d ∷ []
pad_two (d ∷ e ∷ ds) = d ∷ e ∷ ds

unfoldable pub to_hexstring : ℕ → Bool → Bool → List ℕ
unfolding int_of_char hex_number pad_two
to_hexstring c with_space with_leading_x =
    (if with_leading_x then b'0' ∷ b'x' ∷ [] else [])
    ++ (pad_two (hex_number 8 (int_of_char c)) ++ (if with_space then b' ' ∷ [] else []))

unfoldable pub string_to_hexstring : List ℕ → Bool → Bool → List ℕ
unfolding to_hexstring
string_to_hexstring [] sp lx = []
string_to_hexstring (c ∷ cs) sp lx = to_hexstring c sp lx ++ string_to_hexstring cs sp lx

-- The loop counts up to an `int`. The array holds the characters and must be as long as the size: the
-- model stops at its end, where the loop would go on reading behind it.
unfoldable pub hex_loop : ℕ → List ℕ → Bool → Bool → List ℕ
unfolding to_hexstring
hex_loop zero buf sp lx = []
hex_loop (suc rounds) [] sp lx = []
hex_loop (suc rounds) (c ∷ cs) sp lx = to_hexstring c sp lx ++ hex_loop rounds cs sp lx

unfoldable pub buffer_to_hexstring : List ℕ → ℕ → Bool → Bool → List ℕ
unfolding hex_loop
buffer_to_hexstring buf size sp lx = hex_loop (if is_negative size then 0 else size) buf sp lx
