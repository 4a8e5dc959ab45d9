-- ===== src/Listener/Wire.antt =====
-- The framing of tcp_listener.h: a begin tag and a length, both 32-bit little endian (the byte order
-- of the host), and then the data; and the copies between buffers.
use desert_addon_uwapp_net.Common.{
  ℕ, zero, suc, refl, ◌+◌, ◌*◌, ◌/◌, ◌%◌, ◌^◌, ◌<◌, ◌≤◌, ◌≡◌, Option, none, some, List, [], ◌∷◌,
  ◌++◌, ◌&&◌, arith, leb, if◌then◌else◌, length, take, drop,
}

-- MAGIC
abbrev pub magic_tag : ℕ
magic_tag = 0x20041969

-- the bytes of a `uint32_t` in memory
unfoldable pub bytes_of_word : ℕ → List ℕ
bytes_of_word w = w % 256 ∷ w / 256 % 256 ∷ w / 65536 % 256 ∷ w / 16777216 % 256 ∷ []

unfoldable pub word_of_bytes : List ℕ → ℕ
word_of_bytes [] = 0
word_of_bytes (b ∷ bs) = b + 256 * word_of_bytes bs

-- `read` into an object: the bytes read replace the first ones.
abbrev pub overwrite : List ℕ → List ℕ → List ℕ
overwrite bs old = bs ++ drop (length bs) old

-- `memcpy(dst, src, n)` between arrays: outside either of them it faults.
unfoldable pub memcpy : List ℕ → List ℕ → ℕ → Option (List ℕ)
memcpy dst src n =
    if leb n (length dst) && leb n (length src) then some (take n src ++ drop n dst) else none

-- the bytes of a message on the connection
unfoldable pub frame : List ℕ → List ℕ
frame msg = bytes_of_word magic_tag ++ (bytes_of_word (length msg) ++ msg)

pub word_of_bytes-bytes_of_word : (w : ℕ) → w < 2 ^ 32 → word_of_bytes (bytes_of_word w) ≡ w
unfolding word_of_bytes bytes_of_word
word_of_bytes-bytes_of_word w h = omega arith

pub drop-all : (n : ℕ) (old : List ℕ) → length old ≤ n → drop n old ≡ []
drop-all zero [] h = refl
drop-all zero (x ∷ old) h = elim h [ ]
drop-all (suc n) [] h = refl
drop-all (suc n) (x ∷ old) h = drop-all n old (omega arith)

-- A whole `uint32_t` that is read replaces what the variable held.
pub word-read :
    (w : ℕ) (old : List ℕ)
    → w < 2 ^ 32
    → length old ≡ 4
    → word_of_bytes (overwrite (bytes_of_word w) old) ≡ w
unfolding word_of_bytes bytes_of_word
word-read w old h four = rw (drop-all 4 old (omega arith)) (word_of_bytes-bytes_of_word w h)
