-- ===== src/Console.antt =====
-- uwAppNet_module.cpp: what `recv` and `statistics` write to the console, line by line. A line stands
-- for its text behind the epoch, the time and the node's number. A read behind the payload's array
-- is a fault.
pub mod Lines
pub mod Reading
use desert_addon_uwapp_net.Common.{
  ℕ, Bool, false, ◌&&◌, Option, none, some, List, [], ◌∷◌, ◌++◌, length, take, leb, ltb, ◌==◌,
  if◌then◌else◌, ◌>>=◌, is_negative,
}
use desert_addon_uwapp_net.Packet.{Packet}
use desert_addon_uwapp_net.AppNet.{AppNet, use_drop_out_of_order}
use desert_addon_uwapp_net.AppNet.Receive.{
  DropReason, unknown_type, duplicated_packet, out_of_sequence, Verdict, accepted, dropped,
}

pub data Line : Type 0 where
  recv_packet_using_tcp : Line
  packet_not_application_type : Line
  packet_already_processed : (sn : ℕ) → Line
  packet_oos : (sn last_sn : ℕ) → Line
  packet_lost : (received expected : ℕ) → Line
  payload_received : (bytes : List ℕ) → Line
  sn_received : (sn : ℕ) → Line
  payload_size_received : (size : ℕ) → Line
  -- the payload as a C string
  payload_text : (text : List ℕ) → Line

-- `debug_ >= level`, with `debug_` an `int`
unfoldable pub logs_at : (level debug : ℕ) → Bool
logs_at level debug = if is_negative debug then false else leb level debug

-- the loop over `payload_msg[i]`
unfoldable pub print_payload : {Double : Type 0} → Packet Double → Option (List ℕ)
print_payload p =
    if leb p.payload_size (length p.payload_msg)
    then some (take p.payload_size p.payload_msg)
    else none

-- an array as a C string: up to the first null character, which must be there
unfoldable pub c_string : List ℕ → Option (List ℕ)
c_string [] = none
c_string (c ∷ cs) =
    let rest = c_string cs in if c == 0 then some [] else (rest >>= λ t. some (c ∷ t))

unfoldable pub lost_lines : {Double : Type 0} → AppNet Double → Packet Double → List Line
unfolding use_drop_out_of_order
lost_lines n p =
    if use_drop_out_of_order n && ltb n.esn p.sn then packet_lost p.sn n.esn ∷ [] else []

unfoldable pub text_lines : {Double : Type 0} → AppNet Double → Packet Double → Option (List Line)
unfolding logs_at c_string
text_lines n p =
    if logs_at 1 n.debug
    then (c_string p.payload_msg >>= λ t. some (payload_text t ∷ []))
    else some []

unfoldable pub accepted_lines :
    {Double : Type 0} → AppNet Double → Packet Double → Option (List Line)
unfolding print_payload lost_lines text_lines
accepted_lines n p = do
  bytes ← print_payload p
  text ← text_lines n p
  some (
      lost_lines n p
      ++ (payload_received bytes ∷ sn_received p.sn ∷ payload_size_received p.payload_size ∷ text))

unfoldable pub drop_line : {Double : Type 0} → DropReason → AppNet Double → Packet Double → Line
drop_line unknown_type n p = packet_not_application_type
drop_line duplicated_packet n p = packet_already_processed p.sn
drop_line out_of_sequence n p = packet_oos p.sn n.hrsn

-- What `statistics` writes, with the module as it is after the counting.
unfoldable pub verdict_lines :
    {Double : Type 0} → Verdict → AppNet Double → Packet Double → Option (List Line)
unfolding accepted_lines drop_line
verdict_lines accepted n p = if logs_at 0 n.debug then accepted_lines n p else some []
verdict_lines (dropped r) n p = some (if logs_at 0 n.debug then drop_line r n p ∷ [] else [])

unfoldable pub recv_lines : {Double : Type 0} → AppNet Double → List Line
unfolding logs_at
recv_lines n = if logs_at 1 n.debug then recv_packet_using_tcp ∷ [] else []
