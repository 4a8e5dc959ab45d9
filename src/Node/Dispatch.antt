-- ===== src/Node/Dispatch.antt =====
-- uwAppNet_module.cpp, `command`: the whole method, on the words of a Tcl command. `buffer` and
-- `spawns` are those of `start_command`.
use desert_addon_uwapp_net.Common.{ℕ, Bool, true, false, Option, none, some, List, [], ◌∷◌}
use desert_addon_uwapp_net.Sim.{Sim}
use desert_addon_uwapp_net.Kernel.{Kernel}
use desert_addon_uwapp_net.Node.{Outcome, done, waits, aborts, Node, start_command}
use desert_addon_uwapp_net.Node
use desert_addon_uwapp_net.Node.Command.{Command, start, stop, command_of, Reply, answer}

-- What `command` returns: TCL_OK, perhaps with a result text, TCL_ERROR, or what `Module::command`
-- returns.
pub data Answer (Double : Type 0) : Type 0 where
  tcl_ok : Option (Reply Double) → Answer Double
  tcl_error : Answer Double
  delegated : Answer Double

module _ (sim : Sim) (os : Kernel) where
  open sim use {Double}

  abbrev answered : Answer Double → Outcome (Node sim os) → Outcome (Answer Double × Node sim os)
  answered a (done w) = done (a, w)
  answered a (waits w) = waits (a, w)
  answered a aborts = aborts

  abbrev started : Outcome (Bool × Node sim os) → Outcome (Answer Double × Node sim os)
  started (done (true, w)) = done (tcl_ok none, w)
  started (done (false, w)) = done (tcl_error, w)
  started (waits (ok, w)) = waits (tcl_ok none, w)
  started aborts = aborts

  unfoldable pub run_command :
      Bool → List ℕ → Option Command → Node sim os → Outcome (Answer Double × Node sim os)
  run_command spawns buffer none w = done (delegated, w)
  run_command spawns buffer (some start) w = started (start_command sim os spawns buffer w)
  run_command spawns buffer (some stop) w = answered (tcl_ok none) (Node.stop sim os w)
  run_command spawns buffer (some query) w = done (tcl_ok (answer sim query w.app), w)

  unfoldable pub command :
      Bool → List ℕ → List (List ℕ) → Node sim os → Outcome (Answer Double × Node sim os)
  unfolding run_command
  command spawns buffer (object ∷ word ∷ []) w = run_command spawns buffer (command_of word) w
  command spawns buffer _ w = done (delegated, w)
