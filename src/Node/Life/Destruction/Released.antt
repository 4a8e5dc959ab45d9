-- ===== src/Node/Life/Destruction/Released.antt =====
-- The threads of the listeners that a module has deleted.
use desert_addon_uwapp_net.Common.{◌≡◌, subst, Option, none, some, arith, All, All-append}
use desert_addon_uwapp_net.Sim.{Sim}
use desert_addon_uwapp_net.Kernel.{Kernel}
use desert_addon_uwapp_net.Thread.{join, request_stop, destroy_aborts}
use desert_addon_uwapp_net.Node.{done, Held, Node, delete_listener, stop}
use desert_addon_uwapp_net.Node.Life.{
  Life, Happens, receives, expires, starts, stops, blocks, joins, queues, moves, orphan_queues,
  orphan_moves, Happened, nothing, then_happens,
}
use desert_addon_uwapp_net.Node.Life.Destruction.{thread_released, released, all_released}
use desert_addon_uwapp_net.Node.Life.Destruction.Tidy.{
  IsOver, IsSettled, join-IsOver, InHeld, IsTidy, Happened-IsTidy,
}

module _ (sim : Sim) (os : Kernel) where
  -- The threads of the deleted listeners.
  stop-released :
      (w : Node sim os) (o : Option (Held sim os)) {w' : Node sim os}
      → stop sim os (record w { p_tcp_listener = o }) ≡ done w'
      → InHeld sim os IsSettled o
      → All IsOver (thread_released sim os o)
  unfolding thread_released stop delete_listener destroy_aborts join request_stop
  stop-released w none e h = tt
  stop-released w (some k) e h = ground (arith, h)

  Happens-released :
      {s t : Life sim os} (last : Happens sim os s t)
      → IsTidy sim os s
      → All IsOver (released sim os last)
  unfolding released
  Happens-released (receives now p free ran) v = tt
  Happens-released (expires now free set) v = tt
  Happens-released (starts spawns buffer free ran) v = tt
  Happens-released {s} (stops free ran) v = stop-released s.node s.node.p_tcp_listener ran v.settled
  Happens-released {s} (joins {h} {t} busy held ran deleted) v =
      (join-IsOver h.thread t ran (subst (InHeld sim os IsSettled) held v.settled).0, tt)
  Happens-released (blocks free ran) v = tt
  Happens-released (queues size held runs ran) v = tt
  Happens-released (moves held moved) v = tt
  Happens-released (orphan_queues size before h after e runs ran) v = tt
  Happens-released (orphan_moves before h after e moved) v = tt

  pub Happened-released :
      {s t : Life sim os} (path : Happened sim os s t)
      → IsTidy sim os s
      → All IsOver (all_released sim os path)
  unfolding all_released
  Happened-released nothing v = tt
  Happened-released (then_happens before last) v =
      All-append IsOver (all_released sim os before) (released sim os last)
        (Happened-released before v) (Happens-released last (Happened-IsTidy sim os before v))
