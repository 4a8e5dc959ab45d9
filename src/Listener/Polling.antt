-- ===== src/Listener/Polling.antt =====
-- tcp_listener.h: the calls of `select` by which the listening thread waits for its clients. `select`
-- is given the member `m_ReadTimeout` itself. Each operation has a function beside it that takes the
-- same way through the code and gives the calls, in order.
pub mod Linked
pub mod Budget
use desert_addon_uwapp_net.Common.{
  ℕ, zero, suc, ◌-◌, ◌+◌, Option, none, some, List, [], ◌∷◌, ◌++◌, if◌then◌else◌, is_negative,
}
use desert_addon_uwapp_net.Sim.{Sim}
use desert_addon_uwapp_net.Kernel.{Kernel}
use desert_addon_uwapp_net.Listener.Handle.{
  again, leave, Work, handle_round, handle_loop, handle_tcp_client,
}

-- a call of `select`: the timeout that it was given, its result, and what it left of the timeout
pub record Poll : Type 0 where
  pub given : ℕ
  pub result : ℕ
  pub left : ℕ

module _ (sim : Sim) (os : Kernel) where
  -- the call in `ReadyToRead`
  unfoldable pub poll_of : Work sim os → Poll
  poll_of w =
      let ((ret, left), s) = os.select w.listener.cln_sock_descr w.listener.read_timeout w.sys in
      record { given = w.listener.read_timeout; result = ret; left = left }

  -- the loop of `HandleTCPclient`
  unfoldable pub loop_polls : ℕ → Work sim os → List Poll
  unfolding poll_of
  loop_polls zero w = []
  loop_polls (suc calls) w = poll_of w ∷ elim (handle_round sim os w) [
    | none ↦ []
    | some (again, w') ↦ loop_polls calls w'
    | some (leave, w') ↦ []
  ]

  -- the loop of `Run`
  unfoldable pub run_loop_polls : ℕ → ℕ → Work sim os → List Poll
  unfolding loop_polls
  run_loop_polls zero calls w = []
  run_loop_polls (suc fuel) zero w = []
  run_loop_polls (suc fuel) (suc calls) w =
      let (fd, s) = os.accept w.listener.serv_sock_descr w.sys in
      let w' = record w { listener = record w.listener { cln_sock_descr = fd }; sys = s } in
      let served : List Poll = elim (handle_tcp_client sim os calls w') [
        | none ↦ []
        | some (left, w'') ↦ run_loop_polls fuel left w''
      ] in
      if is_negative fd then [] else loop_polls calls w' ++ served

  -- `Run`
  unfoldable pub run_polls : ℕ → Work sim os → List Poll
  unfolding run_loop_polls
  run_polls calls w = if w.listener.socket_set_up then run_loop_polls (suc calls) calls w else []
