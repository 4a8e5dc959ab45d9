-- ===== src/Exchange/Overrun.antt =====
-- Two modules end to end, when the sequence numbers come to the last one.
use desert_addon_uwapp_net.Common.{
  ℕ, ◌+◌, ◌%◌, ◌^◌, ◌<◌, ◌≤◌, ◌≡◌, ◌≢◌, refl, sym, ◌∙◌, none, List, [], ◌∷◌, arith, length,
  Option-cases, inl, inr,
}
use desert_addon_uwapp_net.Sim.{Sim}
use desert_addon_uwapp_net.Packet.{Packet}
use desert_addon_uwapp_net.AppNet.{AppNet}
use desert_addon_uwapp_net.AppNet.Receive.{count, count_all}
use desert_addon_uwapp_net.AppNet.Faults.{count-faults_iff}
use desert_addon_uwapp_net.AppNet.Sequence.{arrive}
use desert_addon_uwapp_net.Listener.{Listener}
use desert_addon_uwapp_net.Listener.Transmit.{transmit_all}
use desert_addon_uwapp_net.Exchange.{sent-length}
use desert_addon_uwapp_net.Listener.Transmit.Numbering.{Numbered, transmit_all-Sent}

module _ (sim : Sim) where
  open sim use {Double}

  -- The packet with number 65535 is among these.
  Numbered-overrun :
      (ts : List Double) (ps : List (Packet Double)) (port addr k uid : ℕ) (n : AppNet Double)
      → length ts ≡ length ps
      → k ≤ 65535
      → 65535 < k + length ps
      → Numbered sim port addr k uid ps
      → count_all sim (arrive ts ps) n ≡ none
  unfolding count_all
  Numbered-overrun [] [] port addr k uid n l le lt h = absurd (omega arith)
  Numbered-overrun [] (p ∷ ps) port addr k uid n l le lt h = absurd (omega arith)
  Numbered-overrun (t ∷ ts) [] port addr k uid n l le lt h = absurd (omega arith)
  Numbered-overrun (t ∷ ts) (p ∷ ps) port addr k uid n l le lt h =
      elim (Option-cases (count sim t p n)) [
        | inl f ↦ rw f refl
        | inr ((n', v), one) ↦
            let number : p.sn ≡ k % 2 ^ 16 = h.0 in
            let other : p.sn ≢ 65535 =
              λ e. let f = (count-faults_iff sim t p n (omega (arith, number))).1 (h.2, e) in cc in
            let below : k < 65535 = ground (arith, other, number, le) in
            let rest =
              Numbered-overrun ts ps port addr (k + 1) (uid + 1) n' (omega arith) (omega arith)
                (omega arith) h.5 in
            rw (one, rest) refl
      ]

  -- A module whose `txsn` is below 65535 sends a queue of packets, one at each expiry of its timer, so
  -- many that `txsn` reaches 65535, and all of them arrive in order at a module, in whatever state
  -- that is. Then `statistics` there faults: it accesses `sn_check` outside the array.
  pub exchange-faults :
      (from n : AppNet Double) (l : Listener Double) (nows arrivals : List Double)
      → from.txsn < 65535
      → 65535 ≤ from.txsn + length l.queue_pck_read
      → length nows ≡ length l.queue_pck_read
      → length arrivals ≡ length l.queue_pck_read
      → count_all sim (arrive arrivals (transmit_all sim nows from l).1) n ≡ none
  exchange-faults from n l nows arrivals below reached ln la =
      let count = sent-length sim from l nows ln in
      Numbered-overrun arrivals (transmit_all sim nows from l).1 from.port_num from.dst_addr
        (from.txsn + 1) (from.uidcnt + 1) n (la ∙ sym count) (omega (arith, below))
        (omega (arith, reached, count)) (transmit_all-Sent sim nows from l).numbered
