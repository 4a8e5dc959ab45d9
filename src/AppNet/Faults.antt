-- ===== src/AppNet/Faults.antt =====
-- Where `statistics` leaves the array `sn_check`, and when no number is accepted any more.
use desert_addon_uwapp_net.Common.{
  ◌^◌, ◌<◌, ◌≡◌, ◌↔◌, refl, none, some, List, [], ◌∷◌, arith, All, Option-cases, inl, inr,
}
use desert_addon_uwapp_net.Sim.{Sim}
use desert_addon_uwapp_net.Packet.{Packet}
use desert_addon_uwapp_net.AppNet.{AppNet}
use desert_addon_uwapp_net.AppNet.Receive.{accepted, dropped, count, count_all}
use desert_addon_uwapp_net.AppNet.Accounting.{HasSn16}

-- a number other than the last `uint16_t`
abbrev pub HasUsableSn : {Double : Type 0} → Double × Packet Double → Type 0
HasUsableSn (now, p) = p.sn < 65535

pub HasUsableSn-HasSn16 :
    {Double : Type 0} (ps : List (Double × Packet Double)) → All HasUsableSn ps → All HasSn16 ps
HasUsableSn-HasSn16 [] h = tt
HasUsableSn-HasSn16 ((now, p) ∷ ps) h = (omega arith, HasUsableSn-HasSn16 ps h.1)

module _ (sim : Sim) where
  open sim use {Double, pt_data_application}

  -- For a `uint16_t` number the accesses to `sn_check` stay in the array, except exactly when the
  -- packet is an application packet with number 65535: the array has 65535 entries.
  pub count-faults_iff :
      (now : Double) (p : Packet Double) (n : AppNet Double)
      → p.sn < 2 ^ 16
      → (count sim now p n ≡ none) ↔ ((p.ptype ≡ pt_data_application) × (p.sn ≡ 65535))
  unfolding count
  count-faults_iff now p n lt = (λ h. ground arith, λ h. ground arith)

  pub count_all-total :
      (ps : List (Double × Packet Double)) (n : AppNet Double)
      → All HasUsableSn ps
      → (r : AppNet Double × List (Packet Double)) × (count_all sim ps n ≡ some r)
  unfolding count_all
  count_all-total [] n u = ((n, []), refl)
  count_all-total ((now, p) ∷ ps) n u = elim (Option-cases (count sim now p n)) [
    | inl e ↦ absurd (ground (arith, (count-faults_iff now p n (omega arith)).0 e))
    | inr ((n', v), e) ↦
        let ((n'', rest), r) = count_all-total ps n' u.1 in
        ((n'', elim v [ accepted ↦ p ∷ rest | dropped _ ↦ rest ]), rw (e, r, count_all))
  ]
