-- ===== src/Tests/Handing.antt =====
-- The two threads at the queue: a packet is pushed while the timer has already looked at the queue.
use desert_addon_uwapp_net.Common.{ℕ, refl, [], ◌∷◌}
use desert_addon_uwapp_net.AppNet.{AppNet, construct}
use desert_addon_uwapp_net.Listener.{Listener}
use desert_addon_uwapp_net.Handover.{
  by_reader, holding, Shared, at_start, Turns, still, then_turn, reader_locks, pushes, counts,
  looks, look, push, count_pushed, sending,
}
use desert_addon_uwapp_net.Handover.Order.{Orderly, Turns-Orderly}
use desert_addon_uwapp_net.Handover.Progress.{IsAtRest, Turns-settle}
use desert_addon_uwapp_net.Tests.Fixtures.{whole, settings, numbered, serving}

abbrev first : Shared whole
first = at_start whole settings 55550 50000 []

-- one packet is queued, the timer has seen it, and the listening thread holds the next one
abbrev contested : Shared whole
contested =
    let one = count_pushed whole (
      push whole (numbered 0)
        (record first { mutex = by_reader; reader = holding (numbered 0) })) in
    let looked = record one { timer = look one.listener.queue_pck_read } in
    record looked { mutex = by_reader; reader = holding (numbered 1) }

contested-Turns : Turns whole first contested
unfolding push count_pushed look
contested-Turns =
    then_turn
      (then_turn
        (then_turn
          (then_turn (then_turn still (reader_locks (numbered 0) refl refl))
            (pushes (numbered 0) refl))
          (counts refl))
        (looks refl))
      (reader_locks (numbered 1) refl refl)

Turns-Orderly_example : Orderly whole contested
Turns-Orderly_example = Turns-Orderly whole settings 55550 50000 [] contested-Turns

Turns-settle_example : (u : Shared whole) × Turns whole contested u × IsAtRest whole u
Turns-settle_example = Turns-settle whole settings 55550 50000 [] contested-Turns

abbrev loaded : Listener ℕ
loaded = record serving { queue_pck_read = numbered 0 ∷ numbered 0 ∷ [] }

abbrev fresh : AppNet ℕ
fresh = construct whole settings

-- two packets are queued, and the timer rests
abbrev unlocked : Shared whole
unlocked = record first { owner = fresh; listener = loaded }

-- the timer has taken the first packet
abbrev taken : Shared whole
taken = record unlocked {
  listener = record loaded { queue_pck_read = numbered 0 ∷ [] };
  timer = sending (numbered 0);
}
