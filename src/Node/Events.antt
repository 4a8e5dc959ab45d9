-- ===== src/Node/Events.antt =====
-- A module over time: packets are received, the timer expires, and the listening thread puts messages
-- into the queue (under the mutex, as a whole), in any order.
pub mod Books
pub mod Ledger
use desert_addon_uwapp_net.Common.{ℕ, Option, none, some, List, [], ◌∷◌, ◌>>=◌}
use desert_addon_uwapp_net.Sim.{Sim}
use desert_addon_uwapp_net.Kernel.{Kernel}
use desert_addon_uwapp_net.Packet.{Packet}
use desert_addon_uwapp_net.Listener.Handle.{Work, enqueue}
use desert_addon_uwapp_net.Node.{Held, Node, recv, expire}

pub data Event (Double : Type 0) : Type 0 where
  receives : Double → Packet Double → Event Double
  expires : Double → Event Double
  -- a message of so many bytes stands in the listener's buffer
  queues : ℕ → Event Double

module _ (sim : Sim) (os : Kernel) where
  open sim use {Double}

  -- The listening thread exists only with its listener.
  unfoldable pub queue_message : ℕ → Node sim os → Option (Node sim os)
  queue_message size w = elim w.p_tcp_listener [
    | none ↦ some w
    | some h ↦
        enqueue sim os size (record { owner = w.app; listener = h.tcp; sys = w.sys }) >>= λ u.
        some (record w {
          app = u.owner;
          p_tcp_listener = some (record h { tcp = u.listener });
          sys = u.sys;
        })
  ]

  unfoldable pub happen : Event Double → Node sim os → Option (Node sim os)
  happen (receives now p) w = recv sim os now p w
  happen (expires now) w = some (expire sim os now w)
  happen (queues size) w = queue_message size w

  unfoldable pub happen_all : List (Event Double) → Node sim os → Option (Node sim os)
  happen_all [] w = some w
  happen_all (e ∷ es) w = happen e w >>= λ w'. happen_all es w'
