-- ===== src/Listener/Log.antt =====
-- tcp_listener.h: what the listener writes to the console, by `LOG_MSG_INFO`, `LOG_MSG_WARN` and
-- `LOG_MSG_ERROR`. Each operation has a function beside it that takes the same way through the code and
-- gives the lines, in order.
pub mod Dumps
pub mod Audit
use desert_addon_uwapp_net.Common.{
  ℕ, zero, suc, Bool, true, false, not, Option, none, some, List, [], ◌∷◌, ◌++◌, length, ltb, ◌==◌,
  if◌then◌else◌, is_negative, minus_one,
}
use desert_addon_uwapp_net.Sim.{Sim}
use desert_addon_uwapp_net.Kernel.{Kernel}
use desert_addon_uwapp_net.Packet.{Packet}
use desert_addon_uwapp_net.Console.{logs_at}
use desert_addon_uwapp_net.Hex.{buffer_to_hexstring}
use desert_addon_uwapp_net.Listener.{Listener}
use desert_addon_uwapp_net.Listener.Wire.{magic_tag, word_of_bytes, overwrite, bytes_of_word}
use desert_addon_uwapp_net.Listener.Setup.{ready_to_read}
use desert_addon_uwapp_net.Listener.Receive.{receive_packet}
use desert_addon_uwapp_net.Listener.Handle.{
  again, leave, Next, Work, handle_message, handle_round, handle_loop, handle_tcp_client,
}

pub data LogLine : Type 0 where
  starting_listener : (port : ℕ) → LogLine
  socket_failed : LogLine
  socket_created : LogLine
  binding_socket : (port : ℕ) → LogLine
  binding_failed : LogLine
  listen_failed : LogLine
  server_ready : LogLine
  connection_not_accepted : LogLine
  new_client : LogLine
  stopping_listener : (port : ℕ) → LogLine
  sending_to_peer : (size : ℕ) → LogLine
  packet_uid : (uid : ℕ) → LogLine
  packet_dest : (dest : ℕ) → LogLine
  packet_size : (size : ℕ) → LogLine
  packet_sn : (sn : ℕ) → LogLine
  send_down_packet : LogLine
  read_error : LogLine
  wrong_magic : (magic : ℕ) → LogLine
  buffer_too_small : (need have : ℕ) → LogLine
  client_disconnected : LogLine
  payload_message : (hexadecimal : List ℕ) → LogLine
  closing_connection : LogLine
  select_failed : LogLine
  -- by the command `start`
  server_not_created : LogLine

-- a line that is written from this debug level on
unfoldable pub from_level : (level debug : ℕ) → LogLine → List LogLine
unfolding logs_at
from_level level debug line = if logs_at level debug then line ∷ [] else []

module _ (os : Kernel) {Double : Type 0} (debug : ℕ) where
  open os use {State, socket, setsockopt, bind, listen, select, read, stack_word}

  unfoldable pub listen_lines : Listener Double → State → List LogLine
  unfolding from_level
  listen_lines l s =
      let (r, s') = listen l.serv_sock_descr s in
      if not (r == 0) then listen_failed ∷ [] else from_level 2 debug server_ready

  unfoldable pub bind_lines : Listener Double → State → List LogLine
  unfolding listen_lines
  bind_lines l s =
      let (r, s') = bind l.serv_sock_descr l.port s in
      from_level 2 debug socket_created
      ++ (from_level 1 debug (binding_socket l.port)
          ++ (if is_negative r then binding_failed ∷ [] else listen_lines l s'))

  unfoldable pub reuse_lines : Listener Double → State → List LogLine
  unfolding bind_lines
  reuse_lines l s =
      let (r, s') = setsockopt l.serv_sock_descr s in
      if r == minus_one then socket_failed ∷ [] else bind_lines l s'

  unfoldable pub setup_lines : Listener Double → State → List LogLine
  unfolding reuse_lines
  setup_lines l s =
      let (fd, s') = socket s in
      from_level 1 debug (starting_listener l.port)
      ++ (if is_negative fd
          then socket_failed ∷ []
          else reuse_lines (record l { serv_sock_descr = fd }) s')

  unfoldable pub payload_lines : ℕ → Listener Double → State → List LogLine
  payload_lines size l s = elim (read l.cln_sock_descr size s).0 [
    | none ↦ read_error ∷ []
    | some bs ↦ []
  ]

  unfoldable pub size_lines : Listener Double → State → List LogLine
  unfolding payload_lines
  size_lines l s =
      let (r, s') = read l.cln_sock_descr 4 s in
      elim r [
        | none ↦ read_error ∷ []
        | some bs ↦
            let size = word_of_bytes (overwrite bs (stack_word s)) in
            if length bs == 0
            then []
            else if ltb (length l.buffer_msg) size
            then buffer_too_small size (length l.buffer_msg) ∷ []
            else payload_lines size l s'
      ]

  -- `ReceivePacket`
  unfoldable pub receive_lines : Listener Double → State → List LogLine
  unfolding size_lines
  receive_lines l s =
      let (r, s') = read l.cln_sock_descr 4 s in
      elim r [
        | none ↦ read_error ∷ []
        | some bs ↦
            let magic = word_of_bytes (overwrite bs (stack_word s)) in
            if length bs == 0
            then []
            else if not (magic == magic_tag)
            then from_level 0 debug (wrong_magic magic)
            else size_lines l s'
      ]

  -- `ReadyToRead`
  unfoldable pub ready_lines : Listener Double → State → List LogLine
  ready_lines l s =
      let ((ret, left), s') = select l.cln_sock_descr l.read_timeout s in
      if ret == minus_one then select_failed ∷ [] else []

  -- `send_data`
  unfoldable pub send_lines : ℕ → Listener Double → List LogLine
  unfolding from_level
  send_lines size l =
      if not (l.cln_sock_descr == 0) then from_level 1 debug (sending_to_peer size) else []

  -- `init_Packet_TCP`, for the packet that is sent down
  unfoldable pub transmit_lines : Packet Double → List LogLine
  unfolding from_level
  transmit_lines p =
      from_level 2 debug (packet_uid p.uid)
      ++ (from_level 0 debug (packet_dest p.daddr)
          ++ (from_level 0 debug (packet_size p.payload_size)
              ++ (from_level 0 debug (packet_sn p.app.sn) ++ from_level 0 debug send_down_packet)))

module _ (sim : Sim) (os : Kernel) where
  open sim use {Double}

  -- the rest of a round of `HandleTCPclient`, after `ReceivePacket` has returned this
  unfoldable pub message_lines : ℕ → Work sim os → List LogLine
  unfolding from_level
  message_lines recv_msg_size w =
      if recv_msg_size == 0
      then client_disconnected ∷ []
      else from_level 1 w.owner.debug
          (payload_message (buffer_to_hexstring w.listener.buffer_msg recv_msg_size false false))

  unfoldable pub round_lines : Work sim os → List LogLine
  unfolding ready_lines receive_lines message_lines
  round_lines w =
      let ((ready, l), s) = ready_to_read os w.listener w.sys in
      let ((n, l'), s') = receive_packet os l s in
      ready_lines os w.owner.debug w.listener w.sys
      ++ (if not ready
          then []
          else receive_lines os w.owner.debug l s
            ++ message_lines n (record w { listener = l'; sys = s' }))

  -- the loop of `HandleTCPclient`, with the calls of `StopRequested`
  unfoldable pub loop_lines : ℕ → Work sim os → List LogLine
  unfolding round_lines
  loop_lines zero w = []
  loop_lines (suc calls) w = round_lines w ++ elim (handle_round sim os w) [
    | none ↦ []
    | some (again, w') ↦ loop_lines calls w'
    | some (leave, w') ↦ []
  ]

  -- `HandleTCPclient`
  unfoldable pub client_lines : ℕ → Work sim os → List LogLine
  unfolding loop_lines
  client_lines calls w = loop_lines calls w ++ from_level 0 w.owner.debug closing_connection

  -- the loop of `Run`
  unfoldable pub run_loop_lines : ℕ → ℕ → Work sim os → List LogLine
  unfolding client_lines
  run_loop_lines zero calls w = []
  run_loop_lines (suc fuel) zero w = []
  run_loop_lines (suc fuel) (suc calls) w =
      let (fd, s) = os.accept w.listener.serv_sock_descr w.sys in
      let w' = record w { listener = record w.listener { cln_sock_descr = fd }; sys = s } in
      let served : List LogLine = elim (handle_tcp_client sim os calls w') [
        | none ↦ []
        | some (left, w'') ↦ run_loop_lines fuel left w''
      ] in
      if is_negative fd
      then connection_not_accepted ∷ []
      else from_level 1 w.owner.debug new_client ++ (client_lines calls w' ++ served)

  -- `Run`
  unfoldable pub run_lines : ℕ → Work sim os → List LogLine
  unfolding run_loop_lines
  run_lines calls w =
      if not w.listener.socket_set_up
      then []
      else run_loop_lines (suc calls) calls w
        ++ from_level 1 w.owner.debug (stopping_listener w.listener.port)
