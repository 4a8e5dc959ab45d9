-- ===== src/Output.antt =====
-- The text of each line that the module and its listener write to `std::cout`, as operands of `<<`.
pub mod Numbers
pub mod Mixing
use desert_addon_uwapp_net.Common.{ℕ, List, [], ◌∷◌, ◌++◌, codes, minus_one}
use desert_addon_uwapp_net.Logging.{
  Operand, text, signed, unsigned, set_hex, Level, info, warn, error, colour_of, message, log_at,
  Stream, insert_all,
}
use desert_addon_uwapp_net.Console.{
  Line, recv_packet_using_tcp, packet_not_application_type, packet_already_processed, packet_oos,
  packet_lost, payload_received, sn_received, payload_size_received, payload_text,
}
use desert_addon_uwapp_net.Listener.Wire.{magic_tag}
use desert_addon_uwapp_net.Listener.Log.{
  LogLine, starting_listener, socket_failed, socket_created, binding_socket, binding_failed,
  listen_failed, server_ready, connection_not_accepted, new_client, stopping_listener,
  sending_to_peer, packet_uid, packet_dest, packet_size, packet_sn, send_down_packet, read_error,
  wrong_magic, buffer_too_small, client_disconnected, payload_message, closing_connection,
  select_failed, server_not_created,
}

-- What a line says besides: `getEpoch()`, `NOW` as text, and, where it applies, `strerror(errno)` or the
-- client's address.
pub record Stamp : Type 0 where
  pub epoch : ℕ
  pub now : List ℕ
  pub detail : List ℕ

-- the beginning of a line of the module
abbrev pub module_prefix : ℕ → Stamp → List Operand
module_prefix node t =
    text (codes "[")
    ∷ unsigned t.epoch
    ∷ text (codes "]::")
    ∷ text t.now
    ∷ text (codes "::")
    ∷ signed node
    ∷ []

-- the beginning of a line of the listener
abbrev pub listener_prefix : ℕ → Stamp → List Operand
listener_prefix node t =
    unsigned t.epoch ∷ text (codes "::") ∷ text t.now ∷ text (codes "::") ∷ signed node ∷ []

abbrev of_module : ℕ → Stamp → List Operand → List Operand
of_module node t rest = module_prefix node t ++ (rest ++ text (b'\n' ∷ []) ∷ [])

-- a line of `recv` or `statistics`
unfoldable pub line_operands : ℕ → Stamp → Line → List Operand
line_operands node t recv_packet_using_tcp =
    of_module node t (text (codes "::UWAPPNET::RECV_PACKET_USING_TCP") ∷ [])
line_operands node t packet_not_application_type =
    of_module node t (text (codes "::UWAPPNET::DROP_PACKET_NOT_APPLICATION_TYPE") ∷ [])
line_operands node t (packet_already_processed sn) =
    of_module node t
      (text (codes "::UWAPPNET::DROP_PACKET_PACKET_ALREADY_PROCESSED_ID_") ∷ signed sn ∷ [])
line_operands node t (packet_oos sn last_sn) = of_module node t (
    text (codes "::UWAPPNET::DROP_PACKET_PACKET_OOS_ID_")
    ∷ signed sn
    ∷ text (codes "_LAST_SN_")
    ∷ signed last_sn
    ∷ [])
line_operands node t (packet_lost received expected) = of_module node t (
    text (codes "::UWAPPNET::PACKET_LOST_ID_RECEIVED")
    ∷ signed received
    ∷ text (codes "_ID_EXPECTED_")
    ∷ unsigned expected
    ∷ [])
line_operands node t (payload_received bytes) =
    of_module node t (text (codes "::UWAPPNET::PAYLOAD_RECEIVED--> ") ∷ text bytes ∷ [])
line_operands node t (sn_received sn) =
    of_module node t (text (codes "::UWAPPNET::SN_RECEIVED_") ∷ signed sn ∷ [])
line_operands node t (payload_size_received size) =
    of_module node t (text (codes "::UWAPPNET::PAYLOAD_SIZE_RECEIVED_") ∷ signed size ∷ [])
line_operands node t (payload_text bytes) =
    of_module node t (text (codes "::UWAPPNET::PAYLOAD_RECEIVED_") ∷ text bytes ∷ [])

unfoldable pub level_of : LogLine → Level
level_of socket_failed = error
level_of binding_failed = error
level_of listen_failed = error
level_of (buffer_too_small need have) = error
level_of select_failed = error
level_of server_not_created = error
level_of connection_not_accepted = warn
level_of read_error = warn
level_of (wrong_magic magic) = warn
level_of client_disconnected = warn
level_of _ = info

-- the operands of the line on a wrong begin tag, before and after `std::hex`
abbrev pub wrong_magic_head : ℕ → Stamp → List Operand
wrong_magic_head node t =
    listener_prefix node t ++ (text (codes "::UWAPPNET::HandleTCPclient::WRONG_MAGIC 0x") ∷ [])

abbrev pub wrong_magic_tail : ℕ → List Operand
wrong_magic_tail magic =
    unsigned magic ∷ text (codes " (wanted 0x") ∷ signed magic_tag ∷ text (codes ")") ∷ []

-- a line of the listener
unfoldable pub log_operands : ℕ → Stamp → LogLine → List Operand
log_operands node t (starting_listener port) =
    text (codes "Starting data listener on port ") ∷ unsigned port ∷ []
log_operands node t socket_failed =
    listener_prefix node t
    ++ (text (codes "::UWAPPNET::TCPLISTENER::SOCKET_ERROR ") ∷ text t.detail ∷ [])
log_operands node t socket_created =
    listener_prefix node t ++ (text (codes "::UWAPPNET::TCPLISTENER::SOCKET_CREATED") ∷ [])
log_operands node t (binding_socket port) =
    listener_prefix node t
    ++ (text (codes "::UWAPPNET::TCPLISTENER::BINDING_SOCKET_") ∷ unsigned port ∷ [])
log_operands node t binding_failed =
    listener_prefix node t
    ++ (text (codes "::UWAPPNET::OPEN_CONNECTION_TCP::BINDING_FAILED ") ∷ text t.detail ∷ [])
log_operands node t listen_failed =
    listener_prefix node t
    ++ (text (codes "::UWAPPNET::OPEN_CONNECTION_TCP::LISTEN_FAILED ") ∷ text t.detail ∷ [])
log_operands node t server_ready =
    listener_prefix node t ++ (text (codes "::UWAPPNET::OPEN_CONNECTION_TCP::SERVER_READY") ∷ [])
log_operands node t connection_not_accepted =
    listener_prefix node t
    ++ (text (codes "::UWAPPNET::READ_PROCESS_TCP::CONNECTION_NOT_ACCEPTED ") ∷ text t.detail ∷ [])
log_operands node t new_client =
    listener_prefix node t
    ++ (text (codes "::UWAPPNET::READ_PROCESS_TCP::NEW_CLIENT_IP ") ∷ text t.detail ∷ [])
log_operands node t (stopping_listener port) =
    text (codes "Stopping data listener on port ") ∷ unsigned port ∷ []
log_operands node t (sending_to_peer size) =
    listener_prefix node t
    ++ (text (codes "::UWAPPNET::send_data::SENDING_")
        ∷ unsigned size
        ∷ text (codes "_BYTES_TO_PEER")
        ∷ [])
log_operands node t (packet_uid uid) =
    listener_prefix node t ++ (text (codes "::UWAPPNET::INIT_PACKET_TCP::UID_") ∷ signed uid ∷ [])
log_operands node t (packet_dest dest) =
    listener_prefix node t ++ (text (codes "::UWAPPNET::INIT_PACKET_TCP::DEST_") ∷ signed dest ∷ [])
log_operands node t (packet_size size) =
    listener_prefix node t ++ (text (codes "::UWAPPNET::INIT_PACKET_TCP::SIZE_") ∷ signed size ∷ [])
log_operands node t (packet_sn sn) =
    listener_prefix node t ++ (text (codes "::UWAPPNET::INIT_PACKET_TCP::SN_") ∷ signed sn ∷ [])
log_operands node t send_down_packet =
    listener_prefix node t
    ++ (text (codes "::UWAPPNET::INIT_PACKET_TCP::INIT_PACKET_TCP::SEND_DOWN_PACKET") ∷ [])
log_operands node t read_error =
    listener_prefix node t
    ++ (text (codes "::UWAPPNET::HandleTCPclient::READ_ERROR ") ∷ text t.detail ∷ [])
log_operands node t (wrong_magic magic) =
    wrong_magic_head node t ++ (set_hex ∷ wrong_magic_tail magic)
log_operands node t (buffer_too_small need have) =
    listener_prefix node t
    ++ (text (codes "::UWAPPNET::HandleTCPclient::BUFFER_TOO_SMALL (need ")
        ∷ unsigned need
        ∷ text (codes ", have ")
        ∷ unsigned have
        ∷ text (codes ")")
        ∷ [])
log_operands node t client_disconnected =
    text (codes "Node ") ∷ signed node ∷ text (codes " - client disconnected") ∷ []
log_operands node t (payload_message hexadecimal) =
    listener_prefix node t
    ++ (text (codes "::UWAPPNET::READ_PROCESS_TCP::PAYLOAD_MESSAGE 0x") ∷ text hexadecimal ∷ [])
log_operands node t closing_connection =
    text (codes "Node ") ∷ signed node ∷ text (codes " - closing client connection") ∷ []
log_operands node t select_failed = text (codes "Error on select: ") ∷ signed minus_one ∷ []
log_operands node t server_not_created =
    text (codes "TCP server socket was not created successfully!") ∷ []

-- what is written to the console: a line of the module, or one of the listener
pub data Output : Type 0 where
  module_line : Line → Output
  listener_line : LogLine → Output

-- The line is written by `<<` on `std::cout`, or by `LOG_MSG_INFO` and the others.
unfoldable pub print_line : ℕ → Stamp → Output → Stream → Stream
unfolding line_operands level_of log_operands log_at insert_all
print_line node t (module_line line) s = insert_all s (line_operands node t line)
print_line node t (listener_line line) s = log_at (level_of line) (log_operands node t line) s

-- the lines of both threads, in the order in which they are written
unfoldable pub print_all : ℕ → List (Stamp × Output) → Stream → Stream
unfolding print_line
print_all node [] s = s
print_all node ((t, o) ∷ os) s = print_all node os (print_line node t o s)

-- all that a line hands to the stream
abbrev pub operands : ℕ → Stamp × Output → List Operand
operands node (t, module_line line) = line_operands node t line
operands node (t, listener_line line) =
    message (colour_of (level_of line)) (log_operands node t line)
