-- ===== src/Tests/Polling.antt =====
-- A client that sends nothing more after its message.
use desert_addon_uwapp_net.Common.{ℕ, ◌≤◌, ◌≡◌, ◌/◌, refl, zero, suc, [], ◌∷◌, All, arith}
use desert_addon_uwapp_net.Kernel.{Kernel}
use desert_addon_uwapp_net.AppNet.{construct}
use desert_addon_uwapp_net.Listener.Handle.{Work}
use desert_addon_uwapp_net.Listener.Handle.Messages.{frames}
use desert_addon_uwapp_net.Listener.Polling.{run_polls}
use desert_addon_uwapp_net.Listener.Polling.Linked.{waited, after_idle}
use desert_addon_uwapp_net.Listener.Polling.Budget.{Countdown, run_polls-waited}
use desert_addon_uwapp_net.Tests.Fixtures.{whole, settings, serving, one_pipe, has_input}

-- what is left of a timeout: half of it if something comes, or nothing
abbrev left_of : ℕ → ℕ → ℕ
left_of timeout zero = 0
left_of timeout (suc n) = timeout / 2

-- `select` waits for a while.
abbrev slow_pipe : Kernel
slow_pipe = record one_pipe {
  select = λ fd timeout s. ((has_input s.input, left_of timeout (has_input s.input)), s);
}

left_of-less : (timeout n : ℕ) → left_of timeout n ≤ timeout
left_of-less timeout zero = omega arith
left_of-less timeout (suc n) = omega arith

left_of-zero : (timeout n : ℕ) → n ≡ 0 → left_of timeout n ≡ 0
left_of-zero timeout zero e = refl
left_of-zero timeout (suc n) e = absurd (omega arith)

counting : Countdown slow_pipe
counting = record {
  less = λ fd timeout s. left_of-less timeout (has_input s.input);
  run_out = λ fd timeout s e. left_of-zero timeout (has_input s.input) e;
}

abbrev lazy_client : Work whole slow_pipe
lazy_client = record {
  owner = construct whole settings;
  listener = serving;
  sys = record { input = frames ((b'h' ∷ b'i' ∷ []) ∷ []); output = [] };
}

run_polls-waited_example :
    (waited (run_polls whole slow_pipe 4 lazy_client) ≤ 50000)
    × All (λ q. q.given ≡ 0) (after_idle (run_polls whole slow_pipe 4 lazy_client))
run_polls-waited_example = run_polls-waited whole slow_pipe counting 4 lazy_client
