-- ===== src/AppNet/Unordered.antt =====
-- `statistics` when `drop_out_of_order` is not 1: no packet is dropped for its number.
use desert_addon_uwapp_net.Common.{
  ◌≡◌, ◌≢◌, sym, ◌∙◌, true, false, some, List, [], ◌∷◌, arith, ◌==◌,
}
use desert_addon_uwapp_net.Sim.{Sim}
use desert_addon_uwapp_net.Packet.{Packet}
use desert_addon_uwapp_net.AppNet.{AppNet}
use desert_addon_uwapp_net.AppNet.Receive.{
  Verdict, accepted, dropped, unknown_type, count, count_all,
}
use desert_addon_uwapp_net.AppNet.Accounting.{count_all-cons}

module _ (sim : Sim) where
  open sim use {Double, pt_data_application}

  -- the application packets among those that arrive
  unfoldable pub application_packets : List (Double × Packet Double) → List (Packet Double)
  application_packets [] = []
  application_packets ((now, p) ∷ ps) =
      let rest = application_packets ps in
      elim (p.ptype == pt_data_application) [ true ↦ p ∷ rest | false ↦ rest ]

  record Taken (n : AppNet Double) (p : Packet Double) (n' : AppNet Double) (v : Verdict)
      : Type 0 where
    mode : n'.drop_out_of_order ≡ n.drop_out_of_order
    lost : n'.pkts_lost ≡ n.pkts_lost
    ooseq : n'.pkts_ooseq ≡ n.pkts_ooseq
    verdict :
        v ≡ elim (p.ptype == pt_data_application) [ true ↦ accepted | false ↦ dropped unknown_type ]

  count-Taken :
      (now : Double) (p : Packet Double) (n : AppNet Double) {n' : AppNet Double} {v : Verdict}
      → n.drop_out_of_order ≢ 1
      → count sim now p n ≡ some (n', v)
      → Taken n p n' v
  unfolding count
  count-Taken now p n off h = ground arith

  -- With `drop_out_of_order` other than 1, `statistics` lets through all application packets, in
  -- order of arrival and with repetitions, and counts none as lost or out of sequence.
  pub count_all-unordered :
      (ps : List (Double × Packet Double)) (n : AppNet Double) {n' : AppNet Double}
      {passed : List (Packet Double)}
      → n.drop_out_of_order ≢ 1
      → count_all sim ps n ≡ some (n', passed)
      → (passed ≡ application_packets ps)
        × (n'.pkts_lost ≡ n.pkts_lost)
        × (n'.pkts_ooseq ≡ n.pkts_ooseq)
  unfolding count_all application_packets
  count_all-unordered [] n off h = ground arith
  count_all-unordered ((now, p) ∷ ps) n off h =
      let (n', v, rest, one, others, e) = count_all-cons sim now p ps n h in
      let t = count-Taken now p n off one in
      ground (arith, count_all-unordered ps n' (λ q. off (sym t.mode ∙ q)) others)
