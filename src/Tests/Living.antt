-- ===== src/Tests/Living.antt =====
-- A module that is started twice and stopped.
use desert_addon_uwapp_net.Common.{ℕ, refl, true, false, List, [], ◌∷◌}
use desert_addon_uwapp_net.Listener.Handle.{enqueue, make_packet}
use desert_addon_uwapp_net.AppNet.{construct}
use desert_addon_uwapp_net.AppNet.Receive.{count}
use desert_addon_uwapp_net.Console.{verdict_lines}
use desert_addon_uwapp_net.Listener.{new_listener}
use desert_addon_uwapp_net.Listener.Wire.{memcpy}
use desert_addon_uwapp_net.Listener.Setup.{setup}
use desert_addon_uwapp_net.Thread.{
  start, join, request_stop, enter_run, leave_run, finish, destroy_aborts, waits_for_client, enters,
  awaits, connects, heeds, leaves, finishes,
}
use desert_addon_uwapp_net.Node.{start_command, stop, recv, delete_listener}
use desert_addon_uwapp_net.Node.Events.{queue_message}
use desert_addon_uwapp_net.Node.Life.{
  Life, Happened, nothing, then_happens, receives, starts, blocks, joins, queues, moves,
  orphan_queues, orphan_moves,
}
use desert_addon_uwapp_net.Node.Life.Ending.{Ends, in_call, Happened-Ends}
use desert_addon_uwapp_net.Node.Life.Stuck.{some_answered, is_answered, Stays, Happened-Stays}
use desert_addon_uwapp_net.Node.Life.Balance.{Balanced, Happened-Balanced}
use desert_addon_uwapp_net.Tests.Fixtures.{whole, one_pipe, blank}
use desert_addon_uwapp_net.Tests.Commands.{idle_node}

abbrev pub fresh : Life whole one_pipe
fresh = record { node = idle_node; blocked = false; received = []; orphans = []; abandoned = [] }

abbrev pub greeting : List ℕ
greeting = b'h' ∷ b'i' ∷ []

-- `start`, the thread accepts a client and queues a message; `start` again, the first thread queues
-- another message; a packet is received; the second thread accepts a client and `stop` waits for it
abbrev stopping_life : (t : Life whole one_pipe) × Happened whole one_pipe fresh t
unfolding start_command start setup enter_run queue_message enqueue make_packet memcpy new_listener
    stop request_stop join leave_run finish delete_listener destroy_aborts recv count verdict_lines
    construct
stopping_life = (
  _,
  then_happens
      (then_happens
        (then_happens
          (then_happens
            (then_happens
              (then_happens
                (then_happens
                  (then_happens
                    (then_happens
                      (then_happens
                        (then_happens (then_happens nothing (starts true greeting refl refl))
                          (moves refl (enters refl)))
                        (moves refl (awaits refl refl)))
                      (moves refl (connects refl)))
                    (queues 2 refl refl refl))
                  (starts true greeting refl refl))
                (orphan_queues 2 [] _ [] refl refl refl))
              (receives 5 blank refl refl))
            (moves refl (enters refl)))
          (moves refl (awaits refl refl)))
        (moves refl (connects refl)))
      (blocks refl refl),
)

-- the second thread sees the request, and the listener is deleted
abbrev whole_life : (t : Life whole one_pipe) × Happened whole one_pipe fresh t
unfolding start_command start setup enter_run queue_message enqueue make_packet memcpy new_listener
    stop request_stop join leave_run finish delete_listener destroy_aborts recv count verdict_lines
    construct
whole_life = (
  _,
  then_happens
      (then_happens
        (then_happens (then_happens stopping_life.1 (moves refl (heeds refl refl)))
          (moves refl (leaves refl refl)))
        (moves refl (finishes refl)))
      (joins refl refl refl refl),
)

Happened-Balanced_example : Balanced whole one_pipe whole_life.0
unfolding construct
Happened-Balanced_example =
    Happened-Balanced whole one_pipe whole_life.1
      (record { sent = refl; pushed = refl; disposed = refl; counted = refl })

Happened-Ends_example : Ends whole one_pipe stopping_life.0
unfolding stopping_life start in_call waits_for_client
Happened-Ends_example = Happened-Ends whole one_pipe refl tt stopping_life.1 refl refl

-- `start`, the thread comes into `Run`; `start` again, the second thread comes to `accept`, and `stop`
-- waits for it
abbrev stuck_life : (t : Life whole one_pipe) × Happened whole one_pipe fresh t
unfolding start_command start setup enter_run new_listener stop request_stop join
stuck_life = (
  _,
  then_happens
      (then_happens
        (then_happens
          (then_happens
            (then_happens (then_happens nothing (starts true greeting refl refl))
              (moves refl (enters refl)))
            (starts true greeting refl refl))
          (moves refl (enters refl)))
        (moves refl (awaits refl refl)))
      (blocks refl refl),
)

-- the first thread comes to `accept`, and a client connects there
abbrev later_life : (t : Life whole one_pipe) × Happened whole one_pipe stuck_life.0 t
unfolding stuck_life start_command start setup enter_run new_listener stop request_stop join
later_life = (
  _,
  then_happens (then_happens nothing (orphan_moves [] _ [] refl (awaits refl refl)))
      (orphan_moves [] _ [] refl (connects refl)),
)

Happened-Stays_example : Stays whole one_pipe stuck_life.0 later_life.0
unfolding stuck_life later_life start some_answered is_answered in_call waits_for_client
Happened-Stays_example =
    Happened-Stays whole one_pipe refl tt stuck_life.1 refl refl later_life.1 refl
