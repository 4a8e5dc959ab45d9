-- ===== src/AppNet/Trips.antt =====
-- The round trip figures of `uwAppNetModule`, and the sums over the packets let through.
use desert_addon_uwapp_net.Common.{
  ◌+◌, ◌%◌, ◌^◌, ◌≡◌, ◌≢◌, refl, sym, ap, ◌∙◌, some, List, [], ◌∷◌, arith, length,
}
use mathlib.Core.List.{foldl}
use desert_addon_uwapp_net.Sim.{Sim}
use desert_addon_uwapp_net.Packet.{Packet}
use desert_addon_uwapp_net.AppNet.{AppNet, Bound, construct}
use desert_addon_uwapp_net.AppNet.Averages.{get_rtt, get_rtt_std}
use desert_addon_uwapp_net.AppNet.Receive.{Verdict, accepted, dropped, count, count_all}
use desert_addon_uwapp_net.AppNet.Accounting.{count_all-cons}

module _ (sim : Sim) where
  open sim use {Double, zero_double, add, of_int}

  rttsamples-count :
      (now : Double) (p : Packet Double) (n : AppNet Double) {n' : AppNet Double} {v : Verdict}
      → count sim now p n ≡ some (n', v)
      → n'.rttsamples ≡ n.rttsamples
  unfolding count
  rttsamples-count now p n h = ground arith

  pub rttsamples-count_all :
      (ps : List (Double × Packet Double)) (n : AppNet Double) {n' : AppNet Double}
      {passed : List (Packet Double)}
      → count_all sim ps n ≡ some (n', passed)
      → n'.rttsamples ≡ n.rttsamples
  unfolding count_all
  rttsamples-count_all [] n h = ground arith
  rttsamples-count_all ((now, p) ∷ ps) n h =
      let (n', v, rest, one, others, _) = count_all-cons sim now p ps n h in
      cc (rttsamples-count now p n one, rttsamples-count_all ps n' others)

  -- Whatever packets a module has received since its construction, also such as carry a valid
  -- `rftt`, its average round trip time and its deviation are reported as 0.
  pub get_rtt-dead :
      (b : Bound Double) (ps : List (Double × Packet Double)) {n' : AppNet Double}
      {passed : List (Packet Double)}
      → count_all sim ps (construct sim b) ≡ some (n', passed)
      → (get_rtt sim n' ≡ zero_double) × (get_rtt_std sim n' ≡ zero_double)
  unfolding get_rtt get_rtt_std construct
  get_rtt-dead b ps h = ground (arith, rttsamples-count_all ps (construct sim b) h)

  abbrev pub add_size : Double → Packet Double → Double
  add_size s p = add s (of_int p.payload_size)

  -- what the packets let through, `passed`, added to the counters and the sum of bytes
  pub record Delivered (n : AppNet Double) (passed : List (Packet Double)) (n' : AppNet Double)
      : Type 0 where
    pub received : n'.pkts_recv % 2 ^ 32 ≡ (n.pkts_recv + length passed) % 2 ^ 32
    pub sampled : n'.fttsamples % 2 ^ 32 ≡ (n.fttsamples + length passed) % 2 ^ 32
    pub bytes : n'.sumbytes ≡ foldl add_size n.sumbytes passed

  record Counted (n : AppNet Double) (p : Packet Double) (n' : AppNet Double) (v : Verdict)
      : Type 0 where
    taken :
        v ≡ accepted
        → (n'.pkts_recv % 2 ^ 32 ≡ (n.pkts_recv + 1) % 2 ^ 32)
          × (n'.fttsamples % 2 ^ 32 ≡ (n.fttsamples + 1) % 2 ^ 32)
          × (n'.sumbytes ≡ add n.sumbytes (of_int p.payload_size))
    refused :
        v ≢ accepted
        → (n'.pkts_recv ≡ n.pkts_recv) × (n'.fttsamples ≡ n.fttsamples) × (n'.sumbytes ≡ n.sumbytes)

  count-Counted :
      (now : Double) (p : Packet Double) (n : AppNet Double) {n' : AppNet Double} {v : Verdict}
      → count sim now p n ≡ some (n', v)
      → Counted n p n' v
  unfolding count
  count-Counted now p n h = record {
    taken = λ e. (ground arith, ground arith, ground arith);
    refused = λ e. (ground arith, ground arith, ground arith);
  }

  -- Each packet that `statistics` lets through, and no other, adds one to `pkts_recv` and to
  -- `fttsamples` (modulo 2 ^ 32) and its payload size to the sum of bytes, in order of arrival.
  pub count_all-Delivered :
      (ps : List (Double × Packet Double)) (n : AppNet Double) {n' : AppNet Double}
      {passed : List (Packet Double)}
      → count_all sim ps n ≡ some (n', passed)
      → Delivered n passed n'
  unfolding count_all
  count_all-Delivered [] n h = ground arith
  count_all-Delivered ((now, p) ∷ ps) n h =
      let (n', v, rest, one, others, e) = count_all-cons sim now p ps n h in
      deliver (count-Counted now p n one) (count_all-Delivered ps n' others) e
    where
      deliver :
          {n' n'' : AppNet Double} {v : Verdict} {passed rest : List (Packet Double)}
          → Counted n p n' v
          → Delivered n' rest n''
          → passed ≡ elim v [ accepted ↦ p ∷ rest | dropped r ↦ rest ]
          → Delivered n passed n''
      deliver {v = accepted} {rest = rest} c d e =
          let t = c.taken refl in
          record {
            received = ground arith;
            sampled = ground arith;
            bytes =
                d.bytes
                ∙ ap (λ s. foldl add_size s rest) t.2
                ∙ sym (ap (foldl add_size n.sumbytes) e);
          }
      deliver {v = dropped r} {rest = rest} c d e =
          let t = c.refused (λ q. cc) in
          record {
            received = ground arith;
            sampled = ground arith;
            bytes =
                d.bytes
                ∙ ap (λ s. foldl add_size s rest) t.2
                ∙ sym (ap (foldl add_size n.sumbytes) e);
          }
