-- ===== src/Common/Words.antt =====
-- Machine words as native numbers with their wrap-around written out. An `int` is its bit pattern:
-- a number below 2 ^ 32, negative from 2 ^ 31 on (`++` and `+` wrap, as on every target).
use Prim.Native.Nat.{ℕ, ◌+◌, ◌-◌, ◌*◌, ◌%◌, ◌^◌}
use mathlib.Core.Bool.{Bool}
use desert_addon_uwapp_net.Common.Tests.{leb, if◌then◌else◌}

abbrev pub u8 : ℕ → ℕ
u8 n = n % 2 ^ 8

abbrev pub u16 : ℕ → ℕ
u16 n = n % 2 ^ 16

abbrev pub u32 : ℕ → ℕ
u32 n = n % 2 ^ 32

abbrev pub add32 : ℕ → ℕ → ℕ
add32 a b = (a + b) % 2 ^ 32

abbrev pub sub32 : ℕ → ℕ → ℕ
sub32 a b = (a + 2 ^ 32 - b) % 2 ^ 32

abbrev pub mul32 : ℕ → ℕ → ℕ
mul32 a b = (a * b) % 2 ^ 32

-- the `int` -1
abbrev pub minus_one : ℕ
minus_one = 2 ^ 32 - 1

abbrev pub is_negative : ℕ → Bool
is_negative w = leb (2 ^ 31) w

-- conversion of an `int` to `size_t` extends the sign
abbrev pub size_of_int : ℕ → ℕ
size_of_int w = if is_negative w then w + (2 ^ 64 - 2 ^ 32) else w
