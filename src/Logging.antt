-- ===== src/Logging.antt =====
-- logging.h: the macros that write a message to `std::cout`, and the stream itself, which keeps the base
-- for whole numbers from one `<<` to the next.
pub mod Sticky
pub mod Once
use desert_addon_uwapp_net.Common.{
  ℕ, zero, suc, ◌+◌, ◌-◌, ◌/◌, ◌%◌, ◌^◌, Bool, true, List, [], ◌∷◌, ◌++◌, ltb, ◌==◌, if◌then◌else◌,
  codes, is_negative,
}

pub data Base : Type 0 where
  dec : Base
  hex : Base

-- an operand of `<<`: a text, an `int`, an unsigned number, or the manipulator `std::hex`
pub data Operand : Type 0 where
  text : List ℕ → Operand
  signed : ℕ → Operand
  unsigned : ℕ → Operand
  set_hex : Operand

unfoldable pub digit : ℕ → ℕ
digit d = if ltb d 10 then b'0' + d else b'a' + (d - 10)

-- up to so many places, and at least one
unfoldable pub numeral : (radix places : ℕ) → ℕ → List ℕ
unfolding digit
numeral radix zero n = []
numeral radix (suc places) n =
    let higher = numeral radix places (n / radix) in
    (if n / radix == 0 then [] else higher) ++ digit (n % radix) ∷ []

-- In base 16 an `int` is written as its bit pattern.
unfoldable pub printed : Base → Operand → List ℕ
unfolding numeral
printed base (text t) = t
printed dec (signed n) =
    if is_negative n then b'-' ∷ numeral 10 10 (2 ^ 32 - n) else numeral 10 10 n
printed hex (signed n) = numeral 16 8 n
printed dec (unsigned n) = numeral 10 20 n
printed hex (unsigned n) = numeral 16 16 n
printed base set_hex = []

unfoldable pub base_after : Base → Operand → Base
base_after base (text t) = base
base_after base (signed n) = base
base_after base (unsigned n) = base
base_after base set_hex = hex

-- `std::cout`
pub record Stream : Type 0 where
  pub base : Base
  pub written : List ℕ

unfoldable pub insert : Stream → Operand → Stream
unfolding printed base_after
insert s o = record { base = base_after s.base o; written = s.written ++ printed s.base o }

unfoldable pub insert_all : Stream → List Operand → Stream
unfolding insert
insert_all s [] = s
insert_all s (o ∷ os) = insert_all (insert s o) os

pub data Colour : Type 0 where
  red green yellow blue magenta cyan : Colour

-- the escape sequences, as in `ConsoleColours`
unfoldable pub escape : Colour → List ℕ
escape red = 27 ∷ codes "[1;31m"
escape green = 27 ∷ codes "[1;32m"
escape yellow = 27 ∷ codes "[1;33m"
escape blue = 27 ∷ codes "[1;34m"
escape magenta = 27 ∷ codes "[1;35m"
escape cyan = 27 ∷ codes "[1;36m"

unfoldable pub reset_colour : List ℕ
reset_colour = 27 ∷ codes "[0m"

-- what `LOG_MSG` hands to the stream, with `std::endl` at its end
unfoldable pub message : Colour → List Operand → List Operand
unfolding escape reset_colour
message colour msg = text (escape colour) ∷ (msg ++ (text reset_colour ∷ text (b'\n' ∷ []) ∷ []))

-- `LOG_MSG`
unfoldable pub log_msg : Colour → List Operand → Stream → Stream
unfolding insert_all message
log_msg colour msg s = insert_all s (message colour msg)

-- `LOG_MSG_INFO`, `LOG_MSG_WARN` and `LOG_MSG_ERROR`
pub data Level : Type 0 where
  info warn error : Level

unfoldable pub colour_of : Level → Colour
colour_of info = green
colour_of warn = yellow
colour_of error = red

unfoldable pub log_at : Level → List Operand → Stream → Stream
unfolding log_msg colour_of
log_at level msg s = log_msg (colour_of level) msg s

-- `LOG_MSG_ONCE`, with the static flag of its place in the code
unfoldable pub log_msg_once : Colour → List Operand → Bool × Stream → Bool × Stream
unfolding log_msg
log_msg_once colour msg (shown, s) = if shown then (shown, s) else (true, log_msg colour msg s)
