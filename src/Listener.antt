-- ===== src/Listener.antt =====
-- tcp_listener.h: the members of `TcpListener`, those of its base class in `Thread` apart.
pub mod Log
pub mod Polling
pub mod Wire
pub mod Setup
pub mod Send
pub mod Receive
pub mod Handle
pub mod Transmit
use desert_addon_uwapp_net.Common.{ℕ, ◌%◌, ◌^◌, Bool, false, List, [], u16}
use desert_addon_uwapp_net.Packet.{Packet}

pub record Listener (Double : Type 0) : Type 0 where
  pub port : ℕ  -- uint16_t
  pub read_timeout : ℕ  -- timeval, in microseconds
  pub socket_set_up : Bool
  pub serv_sock_descr : ℕ
  pub cln_sock_descr : ℕ
  pub buffer_msg : List ℕ  -- char[MAX_LENGTH_PAYLOAD]
  pub queue_pck_read : List (Packet Double)

-- The constructor; the bytes of `buffer_msg` are left as they are found.
unfoldable pub new_listener : {Double : Type 0} → ℕ → ℕ → List ℕ → Listener Double
new_listener port timeout buffer = record {
  port = u16 port;
  read_timeout = timeout;
  socket_set_up = false;
  serv_sock_descr = 0;
  cln_sock_descr = 0;
  buffer_msg = buffer;
  queue_pck_read = [];
}
