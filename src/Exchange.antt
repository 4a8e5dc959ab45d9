-- ===== src/Exchange.antt =====
-- Two modules end to end: what the timer of one sends down arrives at `statistics` of the other,
-- all of it and in order.
pub mod Overrun
use desert_addon_uwapp_net.Common.{
  ℕ, ◌+◌, ◌^◌, ◌<◌, ◌≤◌, ◌≡◌, refl, sym, ap, ◌∙◌, subst, add32, some, List, [], ◌∷◌, map, arith,
  length, take, length-map, take_self,
}
use desert_addon_uwapp_net.Sim.{Sim}
use desert_addon_uwapp_net.Packet.{Packet}
use desert_addon_uwapp_net.AppNet.{AppNet, Bound, construct}
use desert_addon_uwapp_net.AppNet.Averages.{get_per}
use desert_addon_uwapp_net.AppNet.Receive.{count_all}
use desert_addon_uwapp_net.AppNet.Order.{IsInOrder, construct-IsInOrder}
use desert_addon_uwapp_net.AppNet.Sequence.{
  arrive, Consecutive, Accepted, Accepted-cons, count-accepts, count_all-Consecutive,
}
use desert_addon_uwapp_net.Listener.{Listener}
use desert_addon_uwapp_net.Listener.Handle.Queue.{content}
use desert_addon_uwapp_net.Listener.Transmit.{transmit_all}
use desert_addon_uwapp_net.Listener.Transmit.Numbering.{Numbered, transmit_all-Sent}

module _ (sim : Sim) where
  open sim use {Double, of_int, div}

  -- As many packets are sent as are queued, with their bytes, when the timer expires once for each.
  sent-contents :
      (from : AppNet Double) (l : Listener Double) (nows : List Double)
      → length nows ≡ length l.queue_pck_read
      → map content (transmit_all sim nows from l).1 ≡ map content l.queue_pck_read
  sent-contents from l nows ln =
      (transmit_all-Sent sim nows from l).contents
      ∙ ap (map content) (ap (λ k. take k l.queue_pck_read) ln ∙ take_self l.queue_pck_read)

  pub sent-length :
      (from : AppNet Double) (l : Listener Double) (nows : List Double)
      → length nows ≡ length l.queue_pck_read
      → length (transmit_all sim nows from l).1 ≡ length l.queue_pck_read
  sent-length from l nows ln =
      let sent = (transmit_all sim nows from l).1 in
      sym (length-map content sent)
      ∙ ap length (sent-contents from l nows ln)
      ∙ length-map content l.queue_pck_read

  Numbered-Consecutive :
      (port addr k uid : ℕ) (ps : List (Packet Double))
      → k + length ps ≤ 2 ^ 16
      → Numbered sim port addr k uid ps
      → Consecutive sim k ps
  Numbered-Consecutive port addr k uid [] room h = tt
  Numbered-Consecutive port addr k uid (p ∷ ps) room h =
      (omega arith, h.2, Numbered-Consecutive port addr (k + 1) (uid + 1) ps (omega arith) h.5)

  -- A receiver that expects number 1 gets packets from number 2 on: one is taken for lost.
  pub from_two :
      (ts : List Double) (ps : List (Packet Double)) (n : AppNet Double)
      → IsInOrder n
      → n.hrsn ≡ 0
      → length ts ≡ length ps
      → 0 < length ps
      → length ps + 2 ≤ 65535
      → Consecutive sim 2 ps
      → (n' : AppNet Double) × (count_all sim (arrive ts ps) n ≡ some (n', ps))
        × Accepted sim (length ps) 1 n n'
  unfolding count_all
  from_two [] ps n o z l pos room c = absurd (omega arith)
  from_two (t ∷ ts) [] n o z l pos room c = absurd (omega arith)
  from_two (t ∷ ts) (p ∷ ps) n o z l pos room c =
      let (n₁, one, a) = count-accepts sim t p n 1 o c.1 (omega arith) (omega arith) in
      let (n', others, b) =
        count_all-Consecutive sim ts ps 3 n₁ a.ordered (omega arith) (omega arith) (omega arith)
          c.2 in
      (n', rw (one, others) refl, Accepted-cons sim a b)

  -- what a receiver reports after an exchange of `count` packets
  pub record Report (count : ℕ) (n' : AppNet Double) : Type 0 where
    pub received : n'.pkts_recv ≡ count
    pub lost : n'.pkts_lost ≡ 1
    pub ooseq : n'.pkts_ooseq ≡ 0
    pub invalid : n'.pkts_invalid ≡ 0
    pub error_rate : get_per sim n' ≡ div (of_int 1) (of_int (count + 1))

  Accepted-Report :
      {count : ℕ} (b : Bound Double) {n' : AppNet Double}
      → b.drop_out_of_order ≡ 1
      → 0 < count
      → count + 2 ≤ 65535
      → Accepted sim count 1 (construct sim b) n'
      → Report count n'
  unfolding construct get_per
  Accepted-Report {count = count} b {n' = n'} e pos room a =
      let (r, l) = a.in_range (omega arith) (omega arith) in
      let recv : n'.pkts_recv ≡ count = omega (arith, a.recv) in
      let lost : n'.pkts_lost ≡ 1 = omega (arith, a.lost) in
      let total : add32 n'.pkts_recv n'.pkts_lost ≡ count + 1 = omega arith in
      record {
        received = recv;
        lost = lost;
        ooseq = a.ooseq;
        invalid = a.invalid;
        error_rate = ground (arith, a.mode, total, lost);
      }

  pub construct-hrsn : (b : Bound Double) → (construct sim b).hrsn ≡ 0
  unfolding construct
  construct-hrsn b = refl

  -- A module that has not sent anything sends a queue of packets, at least one and at most 65533,
  -- one at each expiry of its timer, and all of them arrive in order at a module just constructed
  -- with `drop_out_of_order` 1.
  -- The receiver lets every packet through, with its bytes, and drops none; and it reports one packet
  -- lost and a packet error rate of 1 / (count + 1): the first number sent is 2, the first expected
  -- is 1.
  pub exchange_lem :
      (from : AppNet Double) (to : Bound Double) (l : Listener Double) (nows arrivals : List Double)
      → from.txsn ≡ 1
      → to.drop_out_of_order ≡ 1
      → length nows ≡ length l.queue_pck_read
      → length arrivals ≡ length l.queue_pck_read
      → 0 < length l.queue_pck_read
      → length l.queue_pck_read ≤ 65533
      → let (after, sent) = transmit_all sim nows from l in
        (n' : AppNet Double) × (count_all sim (arrive arrivals sent) (construct sim to)
          ≡ some (n', sent))
        × (map content sent ≡ map content l.queue_pck_read)
        × Report (length l.queue_pck_read) n'
  exchange_lem from to l nows arrivals first e ln la pos room =
      let (after, sent) = transmit_all sim nows from l in
      let s = transmit_all-Sent sim nows from l in
      let same = sent-contents from l nows ln in
      let count = sent-length from l nows ln in
      let (n', ran, a) =
        from_two arrivals sent (construct sim to) (construct-IsInOrder sim to e) (construct-hrsn to)
          (la ∙ sym count) (omega arith) (omega arith)
          (subst (λ k. Consecutive sim k sent) (omega arith)
            (Numbered-Consecutive from.port_num from.dst_addr (from.txsn + 1) (from.uidcnt + 1) sent
              (omega arith) s.numbered)) in
      (
        n',
        ran,
        same,
        subst (λ k. Report k n') count (Accepted-Report to e (omega arith) (omega arith) a),
      )
