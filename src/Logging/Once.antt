-- ===== src/Logging/Once.antt =====
-- `LOG_MSG_ONCE` at one place in the code, reached again and again.
use desert_addon_uwapp_net.Common.{◌≡◌, refl, Bool, true, false, List, [], ◌∷◌}
use desert_addon_uwapp_net.Logging.{Colour, Operand, Stream, log_msg, log_msg_once}

abbrev log_each : Colour → List (List Operand) → Bool × Stream → Bool × Stream
log_each c [] s = s
log_each c (msg ∷ msgs) s = log_each c msgs (log_msg_once c msg s)

log_each-shown :
    (c : Colour) (msgs : List (List Operand)) (s : Stream) → log_each c msgs (true, s) ≡ (true, s)
unfolding log_msg_once
log_each-shown c [] s = refl
log_each-shown c (msg ∷ msgs) s = log_each-shown c msgs s

-- The place writes its first message, and no other.
log_each-once :
    (c : Colour) (msg : List Operand) (msgs : List (List Operand)) (s : Stream)
    → log_each c (msg ∷ msgs) (false, s) ≡ (true, log_msg c msg s)
unfolding log_msg_once
log_each-once c msg msgs s = log_each-shown c msgs (log_msg c msg s)
