-- ===== src/Node/Life/Destruction.antt =====
-- uwAppNet_module.cpp, the destructor of `uwAppNetModule`: it is a call of `stop()`. After it the
-- module's memory is given back, and a listening thread that is left would use it.
pub mod Tidy
pub mod Released
pub mod Clean
pub mod Completing
use desert_addon_uwapp_net.Common.{
  ℕ, zero, ◌+◌, ◌≡◌, Bool, true, false, Option, none, some, List, [], ◌∷◌, ◌++◌, length,
}
use desert_addon_uwapp_net.Sim.{Sim}
use desert_addon_uwapp_net.Kernel.{Kernel}
use desert_addon_uwapp_net.Thread.{Thread, request_stop, join}
use desert_addon_uwapp_net.Node.{done, waits, Held, Node, stop}
use desert_addon_uwapp_net.Node.Life.{
  Life, held_of, after_stop, Happens, receives, expires, starts, stops, blocks, joins, queues,
  moves, orphan_queues, orphan_moves, Happened, nothing, then_happens,
}

module _ (sim : Sim) (os : Kernel) where
  -- What can be while the destructor waits for the listening thread.
  pub data Destroying (s : Life sim os) : Life sim os → Type 0 where
    asks :
        {w : Node sim os}
        → s.blocked ≡ false
        → stop sim os s.node ≡ waits w
        → Destroying s (record s { node = w; blocked = true })
    goes_on :
        {t u : Life sim os}
        → Destroying s t
        → Happens sim os t u
        → u.blocked ≡ true
        → Destroying s u

  -- The destructor, from its call to its end.
  pub data Destroys (s : Life sim os) : Life sim os → Type 0 where
    at_once :
        {w : Node sim os}
        → s.blocked ≡ false
        → stop sim os s.node ≡ done w
        → Destroys s (after_stop sim os s w)
    at_last :
        {t u : Life sim os} → Destroying s t → Happens sim os t u → u.blocked ≡ false → Destroys s u

  -- how many listeners a step overwrites
  unfoldable pub overwritten : {s t : Life sim os} → Happens sim os s t → ℕ
  overwritten {s} (starts _ _ _ _) = length (held_of sim os s.node.p_tcp_listener)
  overwritten _ = zero

  unfoldable pub all_overwritten : {s t : Life sim os} → Happened sim os s t → ℕ
  all_overwritten nothing = zero
  all_overwritten (then_happens before last) = all_overwritten before + overwritten last

  -- the thread of a listener when `stop()` deletes it without waiting
  unfoldable pub thread_released : Option (Held sim os) → List Thread
  thread_released none = []
  thread_released (some h) = elim h.thread.running [
    | false ↦ h.thread ∷ []
    | true ↦ elim (join (request_stop h.thread)) [ none ↦ [] | some t ↦ t ∷ [] ]
  ]

  -- the threads of the listeners that a step deletes, as they are then
  unfoldable pub released : {s t : Life sim os} → Happens sim os s t → List Thread
  released {s} (stops _ _) = thread_released s.node.p_tcp_listener
  released (joins {t} _ _ _ _) = t ∷ []
  released _ = []

  unfoldable pub all_released : {s t : Life sim os} → Happened sim os s t → List Thread
  all_released nothing = []
  all_released (then_happens before last) = all_released before ++ released last

  -- A life that ends with the destructor.
  unfoldable pub waited :
      {r s t : Life sim os} → Happened sim os r s → Destroying s t → Happened sim os r t
  waited before (asks free asked) = then_happens before (blocks free asked)
  waited before (goes_on w last busy) = then_happens (waited before w) last

  unfoldable pub ended :
      {r s t : Life sim os} → Happened sim os r s → Destroys s t → Happened sim os r t
  ended before (at_once free ran) = then_happens before (stops free ran)
  ended before (at_last w last free) = then_happens (waited before w) last
