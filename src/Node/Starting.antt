-- ===== src/Node/Starting.antt =====
-- The Tcl command `start`, and a `stop()` that follows it at once.
use desert_addon_uwapp_net.Common.{
  ℕ, ◌≡◌, ◌⊎◌, inl, inr, refl, Bool, Bool-cases, true, false, if◌then◌else◌, Option, none, some,
  List, arith,
}
use desert_addon_uwapp_net.Sim.{Sim}
use desert_addon_uwapp_net.Kernel.{Kernel}
use desert_addon_uwapp_net.Listener.{new_listener}
use desert_addon_uwapp_net.Listener.Setup.{setup}
use desert_addon_uwapp_net.Thread.{Thread, new_thread, spawned, start, destroy_aborts}
use desert_addon_uwapp_net.Node.Announcing.{sets_up, errors, start_lines, start_lines-errors}
use desert_addon_uwapp_net.Node.{done, aborts, Node, start_command, stop}

module _ (sim : Sim) (os : Kernel) where
  open sim use {Double}

  -- the module with the listener that `start` makes
  abbrev holding : List ℕ → Option Double → Thread → Node sim os → Node sim os
  holding buffer timer t w =
      let ((ok, l), s) =
        setup os {Double = Double} (new_listener w.app.serv_port w.app.socket_read_timeout buffer)
          w.sys in
      record w { p_tcp_listener = some (record { tcp = l; thread = t }); sys = s; timer = timer }

  -- `stop()` comes to its end, with no listener and no timer, and the statistics as in `w`.
  pub record Stops (w w' : Node sim os) : Type 0 where
    pub after : Node sim os
    pub stopped : stop sim os w' ≡ done after
    pub no_listener : after.p_tcp_listener ≡ none
    pub no_timer : after.timer ≡ none
    pub kept : after.app ≡ w.app

  holding-Stops :
      (buffer : List ℕ) (timer : Option Double) (w : Node sim os)
      → Stops w (holding buffer timer new_thread w)
  unfolding stop destroy_aborts
  holding-Stops buffer timer w = record {
    after = _;
    stopped = refl;
    no_listener = refl;
    no_timer = refl;
    kept = refl;
  }

  -- The command `start` always comes to its end and keeps the statistics. It returns TCL_OK exactly
  -- if `Setup` succeeds, and then it has written no error line and the timer is scheduled. If the thread was made, a `stop()` at this
  -- moment, before the thread has set its flag, ends the program. If it was not made, TCL_OK is
  -- returned all the same, and a `stop()` comes to its end. If `Setup` fails, two
  -- error lines are written, the timer is left as it was, and a `stop()` comes to its end.
  pub start_command-stop :
      (spawns : Bool) (buffer : List ℕ) (w : Node sim os)
      → (w' : Node sim os) × (start_command sim os spawns buffer w
          ≡ done (sets_up sim os buffer w, w'))
        × (w'.app ≡ w.app)
        × (errors (start_lines sim os buffer w) ≡ (if sets_up sim os buffer w then 0 else 2))
        × (((sets_up sim os buffer w ≡ true)
              × (spawns ≡ true)
              × (w'.timer ≡ some w.app.period)
              × (stop sim os w' ≡ aborts))
            ⊎ ((sets_up sim os buffer w ≡ true)
                × (spawns ≡ false)
                × (w'.timer ≡ some w.app.period)
                × Stops w w')
            ⊎ ((sets_up sim os buffer w ≡ false) × (w'.timer ≡ w.timer) × Stops w w'))
  unfolding start_command stop start destroy_aborts
  start_command-stop spawns buffer w =
      let shown = start_lines-errors sim os buffer w in
      elim (Bool-cases (sets_up sim os buffer w)) [
        | inl up ↦ elim (Bool-cases spawns) [
          | inl born ↦
              let t = record new_thread { joinable = true; phase = spawned } in
              let w' = holding buffer (some w.app.period) t w in
              (w', ground (arith, up, born), refl, shown, inl (up, born, refl, refl))
          | inr unborn ↦
              let w' = holding buffer (some w.app.period) new_thread w in
              (
                w',
                ground (arith, up, unborn),
                refl,
                shown,
                inr (inl (up, unborn, refl, holding-Stops buffer (some w.app.period) w)),
              )
        ]
        | inr down ↦
            let w' = holding buffer w.timer new_thread w in
            (
              w',
              ground (arith, down),
              refl,
              shown,
              inr (inr (down, refl, holding-Stops buffer w.timer w)),
            )
      ]
