-- ===== src/Node/Audit.antt =====
-- The console as a record of what `statistics` has done.
use desert_addon_uwapp_net.Common.{ℕ, ◌+◌, ◌%◌, ◌^◌, ◌≡◌, List, ◌++◌, map}
use desert_addon_uwapp_net.Sim.{Sim}
use desert_addon_uwapp_net.Kernel.{Kernel}
use desert_addon_uwapp_net.Packet.{Packet}
use desert_addon_uwapp_net.AppNet.{AppNet}
use desert_addon_uwapp_net.AppNet.Receive.{DropReason}
use desert_addon_uwapp_net.AppNet.Order.{sn_of}
use desert_addon_uwapp_net.Console.{Line}
use desert_addon_uwapp_net.Console.Reading.{Tells}
use desert_addon_uwapp_net.Listener.Handle.Queue.{content}
use desert_addon_uwapp_net.Node.{Node}

module _ (sim : Sim) (os : Kernel) where
  open sim use {Double}

  abbrev reason_of : Packet Double × DropReason → DropReason
  reason_of (p, r) = r

  -- From `w` to `w'` these packets have passed, and the new lines of the console tell so.
  pub record Audited (w : Node sim os) (passed : List (Packet Double)) (w' : Node sim os)
      : Type 0 where
    pub lines : List Line
    pub refused : List (Packet Double × DropReason)
    pub lost : ℕ
    pub written : w'.console ≡ w.console ++ lines
    pub dropped_now : w'.drops ≡ w.drops ++ refused
    pub freed : w'.freed ≡ w.freed ++ passed
    pub tells : Tells lines (map sn_of passed) (map content passed) (map reason_of refused) lost
    pub counted : w'.app.pkts_lost % 2 ^ 32 ≡ (w.app.pkts_lost + lost) % 2 ^ 32
