-- ===== src/Node.antt =====
-- uwAppNet_module.cpp: `statistics` as a whole, the timer's `expire`, `stop` and the Tcl command
-- `start`, on a module together with its listener and the operating system.
pub mod Forwarding
pub mod Command
pub mod Dispatch
pub mod Stopping
pub mod Events
pub mod Audit
pub mod Announcing
pub mod Starting
pub mod Life
use desert_addon_uwapp_net.Common.{
  ℕ, Bool, true, false, Option, none, some, List, [], ◌∷◌, ◌++◌, ◌>>=◌, if◌then◌else◌,
}
use desert_addon_uwapp_net.Sim.{Sim}
use desert_addon_uwapp_net.Kernel.{Kernel}
use desert_addon_uwapp_net.Packet.{Packet}
use desert_addon_uwapp_net.AppNet.{AppNet}
use desert_addon_uwapp_net.AppNet.Receive.{DropReason, accepted, dropped, count}
use desert_addon_uwapp_net.Console.{Line, verdict_lines, recv_lines}
use desert_addon_uwapp_net.Listener.{Listener, new_listener}
use desert_addon_uwapp_net.Listener.Setup.{setup, destroy}
use desert_addon_uwapp_net.Listener.Send.{send_data}
use desert_addon_uwapp_net.Listener.Transmit.{init_packet_tcp}
use desert_addon_uwapp_net.Thread.{
  Thread, new_thread, started, aborted, start, request_stop, join, destroy_aborts,
}

-- What becomes of an operation that may wait for another thread, or end the program.
pub data Outcome (A : Type 0) : Type 0 where
  done : A → Outcome A
  waits : A → Outcome A
  aborts : Outcome A

module _ (sim : Sim) (os : Kernel) where
  open sim use {Double}
  open os use {State}

  -- `*p_tcp_listener`, with its base class
  pub record Held : Type 0 where
    pub tcp : Listener Double
    pub thread : Thread

  pub record Node : Type 0 where
    pub app : AppNet Double
    pub p_tcp_listener : Option Held
    pub sys : State
    -- the time span for which `chkTimerPeriod` is scheduled
    pub timer : Option Double
    -- the calls of `sendDown`, `drop` and `Packet::free` so far
    pub sent_down : List (Packet Double)
    pub drops : List (Packet Double × DropReason)
    pub freed : List (Packet Double)
    -- the lines written by `recv` and `statistics`
    pub console : List Line

  -- the end of `statistics`: the payload goes to the client, and the packet is freed
  unfoldable pub forward : Packet Double → Node → Option Node
  forward p w = elim w.p_tcp_listener [
    | none ↦ some (record w { freed = w.freed ++ p ∷ [] })
    | some h ↦ send_data os p.payload_msg p.payload_size h.tcp w.sys >>= λ (ok, s).
        some (record w { sys = s; freed = w.freed ++ p ∷ [] })
  ]

  unfoldable pub statistics : Double → Packet Double → Node → Option Node
  statistics now p w = do
    (n, v) ← count sim now p w.app
    lines ← verdict_lines v n p
    let w' = record w { app = n; console = w.console ++ lines }
    elim v [
      | accepted ↦ forward p w'
      | dropped r ↦ some (record w' { drops = w.drops ++ (p, r) ∷ [] })
    ]

  unfoldable pub recv : Double → Packet Double → Node → Option Node
  unfolding statistics recv_lines
  recv now p w = statistics now p (record w { console = w.console ++ recv_lines w.app })

  unfoldable pub recv_all : List (Double × Packet Double) → Node → Option Node
  recv_all [] w = some w
  recv_all ((now, p) ∷ ps) w = recv now p w >>= λ w'. recv_all ps w'

  unfoldable pub expire : Double → Node → Node
  expire now w = elim w.p_tcp_listener [
    | none ↦ record w { timer = some w.app.period }
    | some h ↦
        let ((n, l), sent) = init_packet_tcp sim now w.app h.tcp in
        record w {
          app = n;
          p_tcp_listener = some (record h { tcp = l });
          timer = some n.period;
          sent_down = elim sent [ none ↦ w.sent_down | some p ↦ w.sent_down ++ p ∷ [] ];
        }
  ]

  -- `delete p_tcp_listener`, and the pointer is cleared.
  unfoldable pub delete_listener : Held → Node → Outcome Node
  delete_listener h w =
      if destroy_aborts h.thread
      then aborts
      else done (record w { p_tcp_listener = none; sys = destroy os h.tcp w.sys })

  -- `stop()`, to its end or to the call of `join` that waits.
  unfoldable pub stop : Node → Outcome Node
  unfolding delete_listener
  stop w =
      let w' = record w { timer = none } in
      elim w.p_tcp_listener [
        | none ↦ done w'
        | some h ↦
            let asked = request_stop h.thread in
            if h.thread.running
            then elim (join asked) [
              | none ↦ waits (record w' { p_tcp_listener = some (record h { thread = asked }) })
              | some t ↦ delete_listener (record h { thread = t }) w'
            ]
            else delete_listener h w'
      ]

  -- The Tcl command `start`; `buffer` is what the memory of the new listener holds, `spawns` whether a
  -- thread can be made. The result says whether TCL_OK is returned. An old listener is not deleted.
  unfoldable pub start_command : Bool → List ℕ → Node → Outcome (Bool × Node)
  start_command spawns buffer w =
      let l = new_listener w.app.serv_port w.app.socket_read_timeout buffer in
      let ((ok, l'), s) = setup os l w.sys in
      let held = record w {
        p_tcp_listener = some (record { tcp = l'; thread = new_thread });
        sys = s;
      } in
      if ok
      then elim (start spawns new_thread) [
        | aborted ↦ aborts
        | started b t ↦ done (
          true,
          record held {
            p_tcp_listener = some (record { tcp = l'; thread = t });
            timer = some w.app.period;
          },
        )
      ]
      else done (false, held)
