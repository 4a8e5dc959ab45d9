-- ===== src/Listener/Handle.antt =====
-- tcp_listener.h, `HandleTCPclient` and `Run`: what the listening thread does, a round as a whole
-- (Handover.antt has its single steps on the queue between those of the timer).
pub mod Queue
pub mod Rounds
pub mod Messages
pub mod Parsing
pub mod Cutting
pub mod Ending
pub mod Closing
pub mod Backlog
pub mod Session
pub mod Clients
use desert_addon_uwapp_net.Common.{
  ℕ, zero, suc, Bool, true, false, not, Option, some, List, [], ◌∷◌, ◌++◌, ◌==◌, if◌then◌else◌,
  ◌>>=◌, u16, is_negative, size_of_int,
}
use desert_addon_uwapp_net.Sim.{Sim}
use desert_addon_uwapp_net.Kernel.{Kernel}
use desert_addon_uwapp_net.Packet.{Packet}
use desert_addon_uwapp_net.AppNet.{AppNet, incr_pkts_push_queue}
use desert_addon_uwapp_net.Listener.{Listener}
use desert_addon_uwapp_net.Listener.Wire.{memcpy}
use desert_addon_uwapp_net.Listener.Setup.{ready_to_read}
use desert_addon_uwapp_net.Listener.Receive.{receive_packet}

-- Does the loop go round again?
pub data Next : Type 0 where
  again leave : Next

module _ (sim : Sim) where
  open sim use {Double, alloc}

  -- the packet made of a message of `recv_msg_size` bytes
  unfoldable pub make_packet : ℕ → List ℕ → Option (Packet Double)
  make_packet recv_msg_size buffer = do
    msg ← memcpy alloc.payload_msg buffer (size_of_int recv_msg_size)
    some (record alloc {
      app = record alloc.app { payload_msg = msg; payload_size = u16 recv_msg_size };
      size = recv_msg_size;
    })

module _ (sim : Sim) (os : Kernel) where
  open sim use {Double}
  open os use {State, accept, shutdown, close}

  -- what the thread works on: the owner, the listener and the operating system
  pub record Work : Type 0 where
    pub owner : AppNet Double
    pub listener : Listener Double
    pub sys : State

  unfoldable pub enqueue : ℕ → Work → Option Work
  enqueue recv_msg_size w = do
    p ← make_packet sim recv_msg_size w.listener.buffer_msg
    some (record w {
      owner = incr_pkts_push_queue w.owner;
      listener = record w.listener { queue_pck_read = w.listener.queue_pck_read ++ (p ∷ []) };
    })

  -- The message has been received, with this result.
  unfoldable pub handle_message : ℕ → Work → Option (Next × Work)
  handle_message recv_msg_size w =
      if recv_msg_size == 0
      then some (leave, record w { sys = shutdown w.listener.cln_sock_descr w.sys })
      else (enqueue recv_msg_size w >>= λ w'. some (again, w'))

  -- one round of the loop of `HandleTCPclient`
  unfoldable pub handle_round : Work → Option (Next × Work)
  handle_round w =
      let ((ready, l), s) = ready_to_read os w.listener w.sys in
      if not ready
      then some (again, record w { listener = l; sys = s })
      else (let ((n, l'), s') = receive_packet os l s in
          handle_message n (record w { listener = l'; sys = s' }))

  -- The loop, if `StopRequested` returns false for `calls` more calls and true from then on. It
  -- returns the number of these calls that are left.
  unfoldable pub handle_loop : ℕ → Work → Option (ℕ × Work)
  handle_loop zero w = some (0, w)
  handle_loop (suc calls) w = do
    (next, w') ← handle_round w
    elim next [ again ↦ handle_loop calls w' | leave ↦ some (calls, w') ]

  unfoldable pub close_client : Work → Work
  close_client w = record w {
    listener = record w.listener { cln_sock_descr = 0 };
    sys = close w.listener.cln_sock_descr w.sys;
  }

  unfoldable pub handle_tcp_client : ℕ → Work → Option (ℕ × Work)
  handle_tcp_client calls w = do (left, w') ← handle_loop calls w; some (left, close_client w')

  unfoldable pub close_server : Work → Work
  close_server w = record w {
    listener = record w.listener { serv_sock_descr = 0 };
    sys = close w.listener.serv_sock_descr w.sys;
  }

  -- The loop of `Run`, on fuel; `false` says that the fuel ran out. This is what the loop does if
  -- `accept` returns; that it may wait there for ever is in the steps of Thread.antt.
  unfoldable pub run_loop : ℕ → ℕ → Work → Option (Bool × Work)
  run_loop zero calls w = some (false, w)
  run_loop (suc fuel) zero w = some (true, w)
  run_loop (suc fuel) (suc calls) w =
      let (fd, s) = accept w.listener.serv_sock_descr w.sys in
      let w' = record w { listener = record w.listener { cln_sock_descr = fd }; sys = s } in
      let serve = handle_tcp_client calls w' >>= λ (left, w''). run_loop fuel left w'' in
      if is_negative fd then some (true, w') else serve

  unfoldable pub run : ℕ → Work → Option (Bool × Work)
  run calls w =
      if not w.listener.socket_set_up
      then some (true, w)
      else (run_loop (suc calls) calls w >>= λ (ended, w'). some (ended, close_server w'))
