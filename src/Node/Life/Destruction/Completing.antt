-- ===== src/Node/Life/Destruction/Completing.antt =====
-- How the destructor of a module comes to its end, ends the program, or has to wait.
use desert_addon_uwapp_net.Common.{
  ◌≡◌, ◌⊎◌, inl, inr, refl, true, false, Bool-cases, Option, none, some, arith,
}
use desert_addon_uwapp_net.Sim.{Sim}
use desert_addon_uwapp_net.Kernel.{Kernel}
use desert_addon_uwapp_net.Node.{Outcome, done, waits, aborts, Held, Node, stop, delete_listener}
use desert_addon_uwapp_net.Thread.{destroy_aborts, join, request_stop}
use desert_addon_uwapp_net.Node.Stopping.{stop_cases}
use desert_addon_uwapp_net.Node.Life.{Life, blocks, Happened, then_happens}
use desert_addon_uwapp_net.Node.Life.Ending.{Ends, in_call, Happened-Ends}
use desert_addon_uwapp_net.Node.Life.Destruction.Clean.{IsNew, IsNew-IsSound}

module _ (sim : Sim) (os : Kernel) where
  -- The listener's thread is still joinable, but does not report that it is running.
  pub IsMissed : Life sim os → Type 0
  IsMissed s =
      (h : Held sim os) × ((s.node.p_tcp_listener ≡ some h)
        × (h.thread.running ≡ false)
        × (h.thread.joinable ≡ true))

  stop-IsMissed :
      (s : Life sim os) (o : Option (Held sim os))
      → s.node.p_tcp_listener ≡ o
      → stop sim os s.node ≡ aborts
      → IsMissed s
  unfolding IsMissed stop delete_listener destroy_aborts join request_stop
  stop-IsMissed s none e a = absurd (ground arith)
  stop-IsMissed s (some h) e a =
      let (idle, joinable) : (h.thread.running ≡ false) × (h.thread.joinable ≡ true) =
        ground arith in
      (h, (e, idle, joinable))

  IsMissed-aborts : (s : Life sim os) → IsMissed s → stop sim os s.node ≡ aborts
  unfolding IsMissed
  IsMissed-aborts s (h, (e, idle, joinable)) = ((stop_cases sim os s.node h e).0).1 (idle, joinable)

  -- the module while its `stop()` waits
  abbrev pub waiting : Life sim os → Node sim os → Life sim os
  waiting s w = record s { node = w; blocked = true }

  -- The destructor ends the program, comes to its end, or waits for a thread that waits for a client.
  abbrev pub Completes : Life sim os → Type 0
  Completes s =
      (IsMissed s × (stop sim os s.node ≡ aborts))
      ⊎ ((¬ IsMissed s)
          × (((w : Node sim os) × (stop sim os s.node ≡ done w))
              ⊎ ((w : Node sim os) × (stop sim os s.node ≡ waits w)
                  × (Ends sim os (waiting s w) ⊎ (in_call sim os w.p_tcp_listener ≡ true)))))

  -- Whatever receptions, expiries, commands `start` and `stop` and steps of its listening threads a
  -- module has lived through since it was made: its destructor, called when no `stop()` waits, ends
  -- the program if the thread of the listener is still joinable but does not report that it is
  -- running. Otherwise either it returns at once; or it waits for the listener's thread, and that
  -- thread comes to its end, and with it the destructor, by steps for which no client does
  -- anything; or it waits, and the thread is in a call of `accept` or `read` that waits for a client.
  pub Happened-Destroys :
      {r s : Life sim os} → IsNew sim os r → Happened sim os r s → s.blocked ≡ false → Completes s
  Happened-Destroys {r} {s} fresh before free = by_outcome (stop sim os s.node) refl
    where
      by_outcome : (o : Outcome (Node sim os)) → stop sim os s.node ≡ o → Completes s
      by_outcome aborts e = inl (stop-IsMissed s s.node.p_tcp_listener refl e, e)
      by_outcome (done w) e = inr ((λ m. let a = IsMissed-aborts s m in absurd cc), inl (w, e))
      by_outcome (waits w) e = inr (
        (λ m. let a = IsMissed-aborts s m in absurd cc),
        inr (
          w,
          e,
          elim (Bool-cases (in_call sim os w.p_tcp_listener)) [
            | inl busy ↦ inr busy
            | inr idle ↦ inl (
                Happened-Ends sim os fresh.free (IsNew-IsSound sim os fresh).made
                  (then_happens before (blocks free e)) refl idle)
          ],
        ),
      )
