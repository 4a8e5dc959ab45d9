-- ===== src/Tests/Destroying.antt =====
-- A module that is started twice and destroyed.
use desert_addon_uwapp_net.Common.{refl, true}
use desert_addon_uwapp_net.Listener.{new_listener}
use desert_addon_uwapp_net.Listener.Setup.{setup}
use desert_addon_uwapp_net.Thread.{
  start, join, request_stop, enter_run, leave_run, finish, destroy_aborts, enters, leaves, finishes,
}
use desert_addon_uwapp_net.Node.{start_command, stop, delete_listener}
use desert_addon_uwapp_net.Node.Life.{Life, Happened, nothing, then_happens, starts, joins, moves}
use desert_addon_uwapp_net.Node.Life.Destruction.{Destroys, asks, goes_on, at_last, ended}
use desert_addon_uwapp_net.Node.Life.Destruction.Clean.{IsNew, IsClean, Destroys-IsClean}
use desert_addon_uwapp_net.Node.Life.Destruction.Completing.{Completes, Happened-Destroys}
use desert_addon_uwapp_net.Tests.Fixtures.{whole, one_pipe}
use desert_addon_uwapp_net.Tests.Living.{fresh, greeting}

fresh-IsNew : IsNew whole one_pipe fresh
fresh-IsNew = record { free = refl; no_listener = refl; no_orphans = refl }

-- `start`, the thread comes into `Run`; `start` again, and the second thread comes into `Run`
abbrev twice_started : (t : Life whole one_pipe) × Happened whole one_pipe fresh t
unfolding start_command start setup enter_run new_listener
twice_started = (
  _,
  then_happens
      (then_happens
        (then_happens (then_happens nothing (starts true greeting refl refl))
          (moves refl (enters refl)))
        (starts true greeting refl refl))
      (moves refl (enters refl)),
)

-- the destructor waits for the second thread
abbrev destroyed : (t : Life whole one_pipe) × Destroys whole one_pipe twice_started.0 t
unfolding start_command start setup enter_run new_listener stop request_stop join leave_run finish
    delete_listener destroy_aborts
destroyed = (
  _,
  at_last
      (goes_on (goes_on (asks refl refl) (moves refl (leaves refl refl)) refl)
        (moves refl (finishes refl)) refl)
      (joins refl refl refl refl) refl,
)

Destroys-IsClean_example : IsClean whole one_pipe (ended whole one_pipe twice_started.1 destroyed.1)
Destroys-IsClean_example = Destroys-IsClean whole one_pipe fresh-IsNew twice_started.1 destroyed.1

Happened-Destroys_example : Completes whole one_pipe twice_started.0
unfolding twice_started
Happened-Destroys_example = Happened-Destroys whole one_pipe fresh-IsNew twice_started.1 refl
