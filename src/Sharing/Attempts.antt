-- ===== src/Sharing/Attempts.antt =====
-- What calls of `send_data` have sent to a client: frames, and beginnings of frames.
use desert_addon_uwapp_net.Common.{
  ℕ, zero, suc, ◌+◌, ◌≤◌, ◌≡◌, ◌≢◌, refl, sym, ap, ◌∙◌, take, List, [], ◌∷◌, ◌++◌, arith, length,
  u32,
}
use mathlib.Core.List.{append_assoc, append-nil}
use desert_addon_uwapp_net.Listener.Wire.{magic_tag, bytes_of_word, frame}
use desert_addon_uwapp_net.Sharing.{Sender, idle, checked, tagged, sized, chunk_of}

-- the bytes of a frame that `send_data` has written so far
abbrev pub begun : Sender → List ℕ
begun idle = []
begun (checked msg) = []
begun (tagged msg) = bytes_of_word magic_tag
begun (sized msg) = bytes_of_word magic_tag ++ bytes_of_word (u32 (length msg))

-- What a call of `send_data` has sent to a client: the frame of a message, or, if it returned false,
-- the first `n` bytes of the frame, at most all of them.
pub data Attempt : Type 0 where
  whole : List ℕ → Attempt
  part : (msg : List ℕ) (n : ℕ) → n ≤ length (frame msg) → Attempt

unfoldable pub sent_by : Attempt → List ℕ
sent_by (whole msg) = frame msg
sent_by (part msg n le) = take n (frame msg)

unfoldable pub sent_by_all : List Attempt → List ℕ
sent_by_all [] = []
sent_by_all (a ∷ rest) = sent_by a ++ sent_by_all rest

unfoldable pub parts : List Attempt → ℕ
parts [] = 0
parts (whole msg ∷ rest) = parts rest
parts (part msg n le ∷ rest) = suc (parts rest)

pub sent_by_all-snoc :
    (rest : List Attempt) (a : Attempt)
    → sent_by_all rest ++ sent_by a ≡ sent_by_all (rest ++ a ∷ []) ++ []
unfolding sent_by_all
sent_by_all-snoc [] a = sym (append-nil (sent_by a ++ []) ∙ append-nil (sent_by a))
sent_by_all-snoc (b ∷ bs) a =
    append_assoc (sent_by b) (sent_by_all bs) (sent_by a)
    ∙ ap (λ t. sent_by b ++ t) (sent_by_all-snoc bs a)
    ∙ sym (append_assoc (sent_by b) (sent_by_all (bs ++ a ∷ [])) [])

pub parts-snoc_whole :
    (rest : List Attempt) (msg : List ℕ) → parts (rest ++ whole msg ∷ []) ≡ parts rest
unfolding parts
parts-snoc_whole [] msg = refl
parts-snoc_whole (whole m ∷ rest) msg = parts-snoc_whole rest msg
parts-snoc_whole (part m n le ∷ rest) msg = ap suc (parts-snoc_whole rest msg)

pub parts-snoc_part :
    (rest : List Attempt) (msg : List ℕ) (n : ℕ) (le : n ≤ length (frame msg))
    → parts (rest ++ part msg n le ∷ []) ≡ suc (parts rest)
unfolding parts
parts-snoc_part [] msg n le = refl
parts-snoc_part (whole m ∷ rest) msg n le = parts-snoc_part rest msg n le
parts-snoc_part (part m k q ∷ rest) msg n le = ap suc (parts-snoc_part rest msg n le)

u32-bytes : (n : ℕ) → bytes_of_word (u32 n) ≡ bytes_of_word n
unfolding bytes_of_word
u32-bytes n = ground arith

take_short :
    {A : Type 0} (n : ℕ) (ys rest : List A) → n ≤ length ys → take n (ys ++ rest) ≡ take n ys
take_short zero ys rest le = refl
take_short (suc n) [] rest le = absurd (omega arith)
take_short (suc n) (y ∷ ys) rest le = ap (λ t. y ∷ t) (take_short n ys rest (omega arith))

-- the beginning of a list, as far as into its second part
pub take_within :
    {A : Type 0} (k : ℕ) (xs ys rest : List A) (n : ℕ)
    → k ≡ length xs + n
    → n ≤ length ys
    → take k (xs ++ (ys ++ rest)) ≡ xs ++ take n ys
take_within k [] ys rest n e le =
    let same : k ≡ n = omega arith in ap (λ m. take m (ys ++ rest)) same ∙ take_short n ys rest le
take_within zero (x ∷ xs) ys rest n e le = absurd (omega arith)
take_within (suc k) (x ∷ xs) ys rest n e le =
    ap (λ t. x ∷ t) (take_within k xs ys rest n (omega arith) le)

-- the message that `send_data` is at
abbrev pub message_of : Sender → List ℕ
message_of idle = []
message_of (checked msg) = msg
message_of (tagged msg) = msg
message_of (sized msg) = msg

pub whole_frame : (msg : List ℕ) → begun (sized msg) ++ msg ≡ frame msg
unfolding frame
whole_frame msg =
    append_assoc (bytes_of_word magic_tag) (bytes_of_word (u32 (length msg))) msg
    ∙ ap (λ b. bytes_of_word magic_tag ++ (b ++ msg)) (u32-bytes (length msg))

-- A frame is what has been written of it, what is written next, and a rest.
pub split_frame :
    (s : Sender)
    → s ≢ idle
    → (rest : List ℕ) × (frame (message_of s) ≡ begun s ++ (chunk_of s ++ rest))
unfolding frame chunk_of
split_frame idle busy = absurd (busy refl)
split_frame (checked msg) busy = (bytes_of_word (length msg) ++ msg, refl)
split_frame (tagged msg) busy =
    (msg, ap (λ b. bytes_of_word magic_tag ++ (b ++ msg)) (sym (u32-bytes (length msg))))
split_frame (sized msg) busy =
    ([], sym (whole_frame msg) ∙ ap (λ t. begun (sized msg) ++ t) (sym (append-nil msg)))
