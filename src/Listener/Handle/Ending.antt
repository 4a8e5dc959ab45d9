-- ===== src/Listener/Handle/Ending.antt =====
-- The fuel of `run` is enough, and `Run` serves nobody after a failed `Setup`.
use desert_addon_uwapp_net.Common.{
  ℕ, zero, suc, ◌<◌, ◌≤◌, ◌≡◌, ◌⊎◌, inl, inr, refl, ap, true, false, none, some, List, arith,
  Option-cases, Bool-cases, is_negative, >>=-eq-some,
}
use desert_addon_uwapp_net.Sim.{Sim}
use desert_addon_uwapp_net.Kernel.{Kernel}
use desert_addon_uwapp_net.Listener.{Listener, new_listener}
use desert_addon_uwapp_net.Listener.Setup.{setup}
use desert_addon_uwapp_net.Listener.Handle.{
  Work, handle_round, handle_loop, handle_tcp_client, run_loop, run,
}

module _ (sim : Sim) (os : Kernel) where
  open sim use {Double}
  open os use {accept}

  handle_loop-left :
      (calls : ℕ) (w : Work sim os) {left : ℕ} {w' : Work sim os}
      → handle_loop sim os calls w ≡ some (left, w')
      → left ≤ calls
  unfolding handle_loop
  handle_loop-left zero w h = ground arith
  handle_loop-left (suc calls) w {left = left} {w' = w'} h =
      let ((next, w₁), one, more) = >>=-eq-some (handle_round sim os w) _ h in
      ground (arith, more, handle_loop-left calls w₁ {left = left} {w' = w'})

  handle_tcp_client-left :
      (calls : ℕ) (w : Work sim os) {left : ℕ} {w' : Work sim os}
      → handle_tcp_client sim os calls w ≡ some (left, w')
      → left ≤ calls
  unfolding handle_tcp_client
  handle_tcp_client-left calls w h =
      let ((left', w₁), one, more) = >>=-eq-some (handle_loop sim os calls w) _ h in
      ground (arith, more, handle_loop-left calls w one)

  -- Each round of the loop of `Run` asks at least once whether to stop, so that one unit of fuel
  -- more than the calls of `StopRequested` that answer no is enough (for the calls of the operating
  -- system that return, as those of `Kernel` do).
  run_loop-ends :
      (fuel calls : ℕ) (w : Work sim os)
      → calls < fuel
      → (run_loop sim os fuel calls w ≡ none)
        ⊎ ((w' : Work sim os) × (run_loop sim os fuel calls w ≡ some (true, w')))
  unfolding run_loop
  run_loop-ends zero calls w lt = absurd (omega arith)
  run_loop-ends (suc fuel) zero w lt = inr (w, refl)
  run_loop-ends (suc fuel) (suc calls) w lt =
      let (fd, s) = accept w.listener.serv_sock_descr w.sys in
      let w₁ : Work sim os = record w {
        listener = record w.listener { cln_sock_descr = fd };
        sys = s;
      } in
      elim (Bool-cases (is_negative fd)) [
        | inl refused ↦ inr (w₁, rw refused)
        | inr served ↦ elim (Option-cases (handle_tcp_client sim os calls w₁)) [
          | inl e ↦ inl (rw (served, e))
          | inr ((left, w₂), e) ↦
              let fewer = handle_tcp_client-left calls w₁ e in
              elim (run_loop-ends fuel left w₂ (omega arith)) [
                | inl f ↦ inl (rw (served, e) f)
                | inr (w', r) ↦ inr (w', rw (served, e) r)
              ]
        ]
      ]

  -- A `Setup` that fails, at whichever of its four calls, leaves a new listener with which `Run`
  -- returns at once: it accepts nobody and makes no call.
  run-setup :
      (port timeout : ℕ) (buffer : List ℕ) (calls : ℕ) (w : Work sim os) (s : os.State)
      → w.listener ≡ (setup os (new_listener port timeout buffer) s).0.1
      → (setup os {Double = Double} (new_listener port timeout buffer) s).0.0 ≡ false
      → run sim os calls w ≡ some (true, w)
  unfolding run setup new_listener
  run-setup port timeout buffer calls w s e failed =
      ground (arith, ap (λ (l : Listener Double). l.socket_set_up) e)
