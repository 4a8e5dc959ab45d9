-- ===== src/Listener/Polling/Budget.antt =====
-- How long the listening thread waits in `select`, over the whole life of a listener.
use desert_addon_uwapp_net.Common.{
  ℕ, zero, suc, ◌≤◌, ◌≡◌, refl, sym, ap, ◌∙◌, subst, some, List, [], ◌∷◌, arith, All, Option-cases,
  Bool-cases, inl, inr, is_negative, >>=-eq-some,
}
use mathlib.Core.Option.{some-injective}
use desert_addon_uwapp_net.Sim.{Sim}
use desert_addon_uwapp_net.Kernel.{Kernel}
use desert_addon_uwapp_net.Listener.{Listener}
use desert_addon_uwapp_net.Listener.Setup.{ready_to_read}
use desert_addon_uwapp_net.Listener.Receive.{
  receive_packet, check_magic, receive_size, check_size, receive_payload,
}
use desert_addon_uwapp_net.Listener.Handle.{
  again, leave, Next, Work, enqueue, handle_message, handle_round, handle_loop, close_client,
  handle_tcp_client,
}
use desert_addon_uwapp_net.Listener.Handle.Rounds.{
  is_ready, polled, message_size, received, handle_round-ready, handle_round-idle,
}
use desert_addon_uwapp_net.Listener.Polling.Linked.{
  Linked, Linked-append, Linked-waited, Linked-idle, waited, after_idle,
}
use desert_addon_uwapp_net.Listener.Polling.{Poll, poll_of, loop_polls, run_loop_polls, run_polls}

-- What is documented for `select` on Linux: it writes back how much of the timeout is left, which is
-- nothing if the time has run out.
pub record Countdown (os : Kernel) : Type 0 where
  pub less : (fd timeout : ℕ) (s : os.State) → (os.select fd timeout s).0.1 ≤ timeout
  pub run_out :
      (fd timeout : ℕ) (s : os.State)
      → (os.select fd timeout s).0.0 ≡ 0
      → (os.select fd timeout s).0.1 ≡ 0

module _ (os : Kernel) {Double : Type 0} where
  receive_packet-timeout :
      (l : Listener Double) (s : os.State)
      → (receive_packet os l s).0.1.read_timeout ≡ l.read_timeout
  unfolding receive_packet check_magic receive_size check_size receive_payload
  receive_packet-timeout l s = ground arith

module _ (sim : Sim) (os : Kernel) (c : Countdown os) where
  open sim use {Double}

  abbrev time_left : Work sim os → ℕ
  time_left w = w.listener.read_timeout

  poll_of-Linked :
      (w : Work sim os)
      → Linked
          (time_left w)
          (poll_of sim os w ∷ [])
          (os.select w.listener.cln_sock_descr w.listener.read_timeout w.sys).0.1
  unfolding poll_of
  poll_of-Linked w =
      let fd = w.listener.cln_sock_descr in
      (
        refl,
        c.less fd w.listener.read_timeout w.sys,
        c.run_out fd w.listener.read_timeout w.sys,
        refl,
      )

  handle_message-timeout :
      (n : ℕ) (w : Work sim os) {next : Next} {w' : Work sim os}
      → handle_message sim os n w ≡ some (next, w')
      → time_left w' ≡ time_left w
  unfolding handle_message enqueue
  handle_message-timeout n w h = ground arith

  -- Only `select` changes the timeout.
  handle_round-timeout :
      (w : Work sim os) {next : Next} {w' : Work sim os}
      → handle_round sim os w ≡ some (next, w')
      → time_left w' ≡ (poll_of sim os w).left
  unfolding poll_of ready_to_read
  handle_round-timeout w {next} {w'} h = elim (Bool-cases (is_ready sim os w)) [
    | inl on ↦
        handle_message-timeout (message_size sim os w) (received sim os w)
          (sym (handle_round-ready sim os w on) ∙ h)
        ∙ receive_packet-timeout os (polled sim os w).listener (polled sim os w).sys
    | inr off ↦
        let same : (again, polled sim os w) ≡ (next, w') =
          some-injective _ _ (sym (handle_round-idle sim os w off) ∙ h) in
        sym (ap (λ (r : Next × Work sim os). time_left r.1) same)
  ]

  -- These calls are linked, up to some time; if there is a result, up to the timeout in it.
  abbrev Covers : List Poll → ℕ → (ℕ → Type 0) → Type 0
  Covers ps t ends = (t' : ℕ) × Linked t ps t' × ends t'

  loop_polls-Linked :
      (calls : ℕ) (w : Work sim os)
      → Covers (loop_polls sim os calls w) (time_left w) (λ t'.
        (left : ℕ) (w' : Work sim os)
        → handle_loop sim os calls w ≡ some (left, w')
        → t' ≡ time_left w')
  unfolding loop_polls handle_loop
  loop_polls-Linked zero w = (time_left w, refl, λ left w' e. ground arith)
  loop_polls-Linked (suc calls) w =
      let p = poll_of sim os w in
      let (given, less, run_out, at) = poll_of-Linked w in
      elim (Option-cases (handle_round sim os w)) [
        | inl f ↦ rw f (p.left, (given, less, run_out, refl), λ left w' q. absurd (ground arith))
        | inr ((again, w₁), e) ↦
            let (t', others, ends) = loop_polls-Linked calls w₁ in
            let on : Linked p.left (loop_polls sim os calls w₁) t' =
              subst (λ x. Linked x (loop_polls sim os calls w₁) t') (handle_round-timeout w e)
                others in
            rw e (t', (given, less, run_out, on), ends)
        | inr ((leave, w₁), e) ↦ rw e (
          p.left,
          (given, less, run_out, refl),
          λ left w' q. sym (handle_round-timeout w e) ∙ ground arith,
        )
      ]

  handle_tcp_client-timeout :
      (calls : ℕ) (w : Work sim os) {left : ℕ} {w' : Work sim os}
      → handle_tcp_client sim os calls w ≡ some (left, w')
      → (w₁ : Work sim os) × (handle_loop sim os calls w ≡ some (left, w₁))
        × (time_left w₁ ≡ time_left w')
  unfolding handle_tcp_client close_client
  handle_tcp_client-timeout calls w h =
      let ((left', w₁), one, more) = >>=-eq-some (handle_loop sim os calls w) _ h in
      (w₁, ground (arith, one, more), ground (arith, more))

  run_loop_polls-Linked :
      (fuel calls : ℕ) (w : Work sim os)
      → (t' : ℕ) × Linked (time_left w) (run_loop_polls sim os fuel calls w) t'
  unfolding run_loop_polls
  run_loop_polls-Linked zero calls w = (time_left w, refl)
  run_loop_polls-Linked (suc fuel) zero w = (time_left w, refl)
  run_loop_polls-Linked (suc fuel) (suc calls) w =
      let (fd, s) = os.accept w.listener.serv_sock_descr w.sys in
      let w₁ : Work sim os = record w {
        listener = record w.listener { cln_sock_descr = fd };
        sys = s;
      } in
      let (t₁, first, ends) = loop_polls-Linked calls w₁ in
      elim (Bool-cases (is_negative fd)) [
        | inl refused ↦ rw refused (time_left w, refl)
        | inr served ↦ elim (Option-cases (handle_tcp_client sim os calls w₁)) [
          | inl f ↦
              rw (served, f)
                (t₁, Linked-append (time_left w) (loop_polls sim os calls w₁) t₁ [] t₁ first refl)
          | inr ((left, w₂), e) ↦
              let (w₀, looped, same) = handle_tcp_client-timeout calls w₁ e in
              let (t', others) = run_loop_polls-Linked fuel left w₂ in
              let at : time_left w₂ ≡ t₁ = sym (ends left w₀ looped ∙ same) in
              let on : Linked t₁ (run_loop_polls sim os fuel left w₂) t' =
                subst (λ x. Linked x (run_loop_polls sim os fuel left w₂) t') at others in
              rw (served, e)
                (
                  t',
                  Linked-append (time_left w) (loop_polls sim os calls w₁) t₁
                      (run_loop_polls sim os fuel left w₂) t' first on,
                )
        ]
      ]

  run_polls-Linked :
      (calls : ℕ) (w : Work sim os) → (t' : ℕ) × Linked (time_left w) (run_polls sim os calls w) t'
  unfolding run_polls
  run_polls-Linked calls w = elim (Bool-cases w.listener.socket_set_up) [
    | inl up ↦ simp up (run_loop_polls-Linked (suc calls) calls w)
    | inr down ↦ simp down (time_left w, refl)
  ]

  -- Where `select` writes back how much of the timeout is left, nothing if it has run out: all calls
  -- of `select` in a run of `Run`, for all clients, however many rounds it takes and whether or not it
  -- faults, together wait at most the timeout that the listener was made with; and after the
  -- first call whose time has run out all further ones are given a timeout of 0.
  pub run_polls-waited :
      (calls : ℕ) (w : Work sim os)
      → (waited (run_polls sim os calls w) ≤ w.listener.read_timeout)
        × All (λ q. q.given ≡ 0) (after_idle (run_polls sim os calls w))
  run_polls-waited calls w =
      let (t', h) = run_polls-Linked calls w in
      let sum = Linked-waited (time_left w) (run_polls sim os calls w) t' h in
      (omega (arith, sum), Linked-idle (time_left w) (run_polls sim os calls w) t' h)
