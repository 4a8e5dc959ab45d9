-- ===== src/Node/Life.antt =====
-- uwAppNet_module.cpp: a module through its whole life. The simulator's thread receives packets, lets
-- the timer expire, and runs the commands `start` and `stop`; the listening threads queue messages
-- and come to their end. A `start` while there is a listener overwrites the pointer to it, and the
-- listener's thread goes on.
pub mod Balance
pub mod Waiting
pub mod Ending
pub mod Stuck
pub mod Destruction
use desert_addon_uwapp_net.Common.{
  ℕ, ◌≡◌, Bool, true, false, Option, none, some, List, [], ◌∷◌, ◌++◌,
}
use desert_addon_uwapp_net.Sim.{Sim}
use desert_addon_uwapp_net.Kernel.{Kernel}
use desert_addon_uwapp_net.Packet.{Packet}
use desert_addon_uwapp_net.Listener.Handle.{Work, enqueue}
use desert_addon_uwapp_net.Thread.{Thread, serving, join, Advance}
use desert_addon_uwapp_net.Node.{
  done, waits, Held, Node, recv, expire, delete_listener, stop, start_command,
}
use desert_addon_uwapp_net.Node.Events.{queue_message}

module _ (sim : Sim) (os : Kernel) where
  open sim use {Double}

  pub record Life : Type 0 where
    pub node : Node sim os
    -- Does `stop()` wait in `join`?
    pub blocked : Bool
    -- the packets received so far
    pub received : List (Packet Double)
    -- the listeners that a further `start` has overwritten
    pub orphans : List (Held sim os)
    -- the packets that were in the queues of listeners when these were deleted
    pub abandoned : List (Packet Double)

  -- the listener of `p_tcp_listener`, and the packets in its queue
  abbrev pub held_of : Option (Held sim os) → List (Held sim os)
  held_of none = []
  held_of (some h) = h ∷ []

  abbrev pub queue_of : Option (Held sim os) → List (Packet Double)
  queue_of none = []
  queue_of (some h) = h.tcp.queue_pck_read

  -- after `start`, and after the deletion of the listener in `stop()`
  abbrev pub after_start : Life → Node sim os → Life
  after_start s w = record s { node = w; orphans = s.orphans ++ held_of s.node.p_tcp_listener }

  abbrev pub after_stop : Life → Node sim os → Life
  after_stop s w = record s {
    node = w;
    blocked = false;
    abandoned = s.abandoned ++ queue_of s.node.p_tcp_listener;
  }

  -- The simulator's thread does nothing else while `stop()` waits, and the timer expires only if it
  -- is scheduled. A message is queued (under the mutex, as a whole) by a thread that is in the
  -- loop of `HandleTCPclient`.
  pub data Happens (s : Life) : Life → Type 0 where
    receives :
        {w : Node sim os} (now : Double) (p : Packet Double)
        → s.blocked ≡ false
        → recv sim os now p s.node ≡ some w
        → Happens s (record s { node = w; received = s.received ++ p ∷ [] })
    expires :
        {period : Double} (now : Double)
        → s.blocked ≡ false
        → s.node.timer ≡ some period
        → Happens s (record s { node = expire sim os now s.node })
    starts :
        {ok : Bool} {w : Node sim os} (spawns : Bool) (buffer : List ℕ)
        → s.blocked ≡ false
        → start_command sim os spawns buffer s.node ≡ done (ok, w)
        → Happens s (after_start s w)
    stops :
        {w : Node sim os}
        → s.blocked ≡ false
        → stop sim os s.node ≡ done w
        → Happens s (after_stop s w)
    blocks :
        {w : Node sim os}
        → s.blocked ≡ false
        → stop sim os s.node ≡ waits w
        → Happens s (record s { node = w; blocked = true })
    joins :
        {h : Held sim os} {t : Thread} {w : Node sim os}
        → s.blocked ≡ true
        → s.node.p_tcp_listener ≡ some h
        → join h.thread ≡ some t
        → delete_listener sim os (record h { thread = t }) s.node ≡ done w
        → Happens s (after_stop s w)
    queues :
        {h : Held sim os} {w : Node sim os} (size : ℕ)
        → s.node.p_tcp_listener ≡ some h
        → h.thread.phase ≡ serving
        → queue_message sim os size s.node ≡ some w
        → Happens s (record s { node = w })
    moves :
        {h : Held sim os} {t : Thread}
        → s.node.p_tcp_listener ≡ some h
        → Advance h.thread t
        → Happens s
            (record s { node = record s.node { p_tcp_listener = some (record h { thread = t }) } })
    orphan_queues :
        {u : Work sim os} (size : ℕ) (before : List (Held sim os)) (h : Held sim os)
        (after : List (Held sim os))
        → s.orphans ≡ before ++ h ∷ after
        → h.thread.phase ≡ serving
        → enqueue sim os size (record { owner = s.node.app; listener = h.tcp; sys = s.node.sys })
          ≡ some u
        → Happens s (record s {
          node = record s.node { app = u.owner; sys = u.sys };
          orphans = before ++ record h { tcp = u.listener } ∷ after;
        })
    orphan_moves :
        {t : Thread} (before : List (Held sim os)) (h : Held sim os) (after : List (Held sim os))
        → s.orphans ≡ before ++ h ∷ after
        → Advance h.thread t
        → Happens s (record s { orphans = before ++ record h { thread = t } ∷ after })

  pub data Happened (s : Life) : Life → Type 0 where
    nothing : Happened s s
    then_happens : {t u : Life} → Happened s t → Happens t u → Happened s u
