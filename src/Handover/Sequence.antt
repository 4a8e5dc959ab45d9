-- ===== src/Handover/Sequence.antt =====
-- How the packets are numbered that the timer sends down between the steps of the listening thread.
use desert_addon_uwapp_net.Common.{ℕ, ◌+◌, ◌%◌, ◌^◌, ◌≤◌, ◌≡◌, List, [], ◌∷◌, ◌++◌, arith, length}
use desert_addon_uwapp_net.Sim.{Sim}
use desert_addon_uwapp_net.Packet.{Packet}
use desert_addon_uwapp_net.AppNet.{AppNet}
use desert_addon_uwapp_net.AppNet.Sequence.{Consecutive}
use desert_addon_uwapp_net.Listener.Transmit.{fill_packet}
use desert_addon_uwapp_net.Handover.{
  Shared, Turn, reader_locks, pushes, counts, looks, timer_locks, fronts, pops, unlocks, sends,
  push, count_pushed, take_off, send_down,
}
use desert_addon_uwapp_net.Handover.Order.{Orderly}

module _ (sim : Sim) where
  open sim use {Double, pt_data_application}

  -- application packets that carry the numbers `k`, `k + 1`, …, modulo 2 ^ 16
  abbrev pub InSequence : ℕ → List (Packet Double) → Type 0
  InSequence k [] = Unit
  InSequence k (p ∷ ps) =
      (p.sn ≡ k % 2 ^ 16) × (p.ptype ≡ pt_data_application) × InSequence (k + 1) ps

  InSequence-snoc :
      (k : ℕ) (ps : List (Packet Double)) (p : Packet Double)
      → InSequence k ps
      → p.sn ≡ (k + length ps) % 2 ^ 16
      → p.ptype ≡ pt_data_application
      → InSequence k (ps ++ p ∷ [])
  InSequence-snoc k [] p h e t = (omega (arith, e), t, tt)
  InSequence-snoc k (q ∷ ps) p h e t =
      (h.0, h.1, InSequence-snoc (k + 1) ps p h.2 (omega (arith, e)) t)

  pub InSequence-Consecutive :
      (k : ℕ) (ps : List (Packet Double))
      → k + length ps ≤ 2 ^ 16
      → InSequence k ps
      → Consecutive sim k ps
  InSequence-Consecutive k [] room h = tt
  InSequence-Consecutive k (p ∷ ps) room h =
      (omega (arith, room, h.0), h.1, InSequence-Consecutive (k + 1) ps (omega (arith, room)) h.2)

  fill_packet-sn :
      (now : Double) (n : AppNet Double) (p : Packet Double)
      → let (n', p') = fill_packet sim now n p in
        (p'.sn ≡ (n.txsn + 1) % 2 ^ 16) × (p'.ptype ≡ pt_data_application)
  unfolding fill_packet
  fill_packet-sn now n p = ground arith

  pub Turn-InSequence :
      {s t : Shared sim} → Turn sim s t → Orderly sim s → InSequence 2 s.sent → InSequence 2 t.sent
  unfolding push count_pushed take_off send_down
  Turn-InSequence (reader_locks p r m) o h = h
  Turn-InSequence (pushes p r) o h = h
  Turn-InSequence (counts r) o h = h
  Turn-InSequence (looks t) o h = h
  Turn-InSequence (timer_locks t m) o h = h
  Turn-InSequence (fronts t) o h = h
  Turn-InSequence (pops p t) o h = h
  Turn-InSequence (unlocks p t) o h = h
  Turn-InSequence {s = s} (sends now p t) o h =
      let (number, type) = fill_packet-sn now s.owner p in
      InSequence-snoc 2 s.sent (fill_packet sim now s.owner p).1 h
        (omega (arith, number, o.numbered)) type
