-- ===== src/Node/Stopping.antt =====
-- `stop()` of the module.
use desert_addon_uwapp_net.Common.{◌≡◌, ◌≢◌, ◌↔◌, true, false, none, some, arith}
use desert_addon_uwapp_net.Sim.{Sim}
use desert_addon_uwapp_net.Kernel.{Kernel}
use desert_addon_uwapp_net.Thread.{request_stop, join, finished, destroy_aborts}
use desert_addon_uwapp_net.Node.{done, waits, aborts, Held, Node, stop}

module _ (sim : Sim) (os : Kernel) where
  -- A `stop()` that comes to its end leaves no listener and no scheduled timer, and keeps the
  -- statistics; a second one, as from the destructor, changes nothing.
  stop-stop :
      (w w' : Node sim os)
      → stop sim os w ≡ done w'
      → (w'.p_tcp_listener ≡ none)
        × (w'.timer ≡ none)
        × (w'.app ≡ w.app)
        × (stop sim os w' ≡ done w')
  unfolding stop
  stop-stop w w' h = ground arith

  -- With a listener, `stop()` ends the program exactly if its thread does not report that it is
  -- running but has not been joined; it waits exactly if the thread reports that it is running and
  -- has not finished.
  pub stop_cases :
      (w : Node sim os) (h : Held sim os)
      → w.p_tcp_listener ≡ some h
      → ((stop sim os w ≡ aborts) ↔ ((h.thread.running ≡ false) × (h.thread.joinable ≡ true)))
        × (((u : Node sim os) × (stop sim os w ≡ waits u)) ↔ (
            (h.thread.running ≡ true) × (h.thread.joinable ≡ true) × (h.thread.phase ≢ finished)))
  unfolding stop join request_stop destroy_aborts
  stop_cases w h e =
      ((λ q. ground arith, λ q. ground arith), (λ q. ground arith, λ q. (asked, ground arith)))
    where
      asked : Node sim os
      asked = record w {
        timer = none;
        p_tcp_listener = some (record h { thread = request_stop h.thread });
      }
