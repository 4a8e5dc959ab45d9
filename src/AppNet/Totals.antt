-- ===== src/AppNet/Totals.antt =====
-- The sums behind the averages of `uwAppNetModule`: with dropping on, they are sums over the packets
-- whose number is higher than all before.
use desert_addon_uwapp_net.Common.{
  ℕ, ◌≤◌, ◌≡◌, ◌≢◌, ◌⊎◌, refl, ap, ◌∙◌, sym, true, false, ◌&&◌, some, List, [], ◌∷◌, map, arith,
  All, ltb, ◌==◌, if◌then◌else◌, add32, inl, inr, subst, length, ◌+◌,
}
use mathlib.Core.List.{foldl}
use desert_addon_uwapp_net.Sim.{Sim}
use desert_addon_uwapp_net.Packet.{Packet}
use desert_addon_uwapp_net.AppNet.{AppNet}
use desert_addon_uwapp_net.AppNet.Receive.{Verdict, accepted, dropped, count, count_all}
use desert_addon_uwapp_net.AppNet.Accounting.{HasSn16, count_all-cons}
use desert_addon_uwapp_net.AppNet.Order.{IsInOrder, Ordered, count-Ordered}

pub record Totals (Double : Type 0) : Type 0 where
  pub ftt : Double
  pub ftt2 : Double
  pub bytes : Double
  pub dt : Double
  pub last : Double
  pub samples : ℕ
  pub received : ℕ

abbrev pub totals_of : {Double : Type 0} → AppNet Double → Totals Double
totals_of n = record {
  ftt = n.sumftt;
  ftt2 = n.sumftt2;
  bytes = n.sumbytes;
  dt = n.sumdt;
  last = n.lrtime;
  samples = n.fttsamples;
  received = n.pkts_recv;
}

module _ (sim : Sim) where
  open sim use {Double, add, sub, mul, of_int, to_int, pt_data_application}

  -- the trip time of an arrival, cut to an `int`
  abbrev pub trip : Double × Packet Double → Double
  trip (now, p) = of_int (to_int (sub now p.timestamp))

  abbrev pub bytes_of : Double × Packet Double → Double
  bytes_of (now, p) = of_int p.payload_size

  abbrev pub absorb : Totals Double → Double × Packet Double → Totals Double
  absorb t (now, p) = record {
    ftt = add t.ftt (trip (now, p));
    ftt2 = add t.ftt2 (mul (trip (now, p)) (trip (now, p)));
    bytes = add t.bytes (bytes_of (now, p));
    dt = add t.dt (sub now t.last);
    last = now;
    samples = add32 t.samples 1;
    received = add32 t.received 1;
  }

  -- The application packets whose number is higher than `highest` and all before them.
  unfoldable pub maximal : ℕ → List (Double × Packet Double) → List (Double × Packet Double)
  maximal highest [] = []
  maximal highest ((now, p) ∷ ps) =
      let higher = p.ptype == pt_data_application && ltb highest p.sn in
      let rest = maximal (if higher then p.sn else highest) ps in
      if higher then (now, p) ∷ rest else rest

  -- the last of the numbers
  abbrev pub last_sn : ℕ → List (Double × Packet Double) → ℕ
  last_sn highest [] = highest
  last_sn highest ((now, p) ∷ ps) = last_sn p.sn ps

  count-totals :
      (now : Double) (p : Packet Double) (n : AppNet Double) {n' : AppNet Double} {v : Verdict}
      → count sim now p n ≡ some (n', v)
      → totals_of n' ≡ elim v [ accepted ↦ absorb (totals_of n) (now, p) | dropped r ↦ totals_of n ]
  unfolding count
  count-totals now p n h = ground arith

  -- the verdict, and the highest number afterwards
  count-verdict :
      (now : Double) (p : Packet Double) (n : AppNet Double) {n' : AppNet Double} {v : Verdict}
      → Ordered sim n p n' v
      → let higher = p.ptype == pt_data_application && ltb n.hrsn p.sn in
        ((higher ≡ true) × (v ≡ accepted) × (n'.hrsn ≡ p.sn))
        ⊎ ((higher ≡ false) × (v ≢ accepted) × (n'.hrsn ≡ n.hrsn))
  count-verdict now p n c = ground (arith, c.other, c.above, c.below)

  -- what a run of receptions has added up
  pub record Totalled (n : AppNet Double) (taken : List (Double × Packet Double))
      (passed : List (Packet Double)) (n' : AppNet Double) : Type 0 where
    pub totals : totals_of n' ≡ foldl absorb (totals_of n) taken
    pub highest : n'.hrsn ≡ last_sn n.hrsn taken
    pub same : passed ≡ map (λ a. a.1) taken

  pub count_all-Totalled :
      (ps : List (Double × Packet Double)) (n : AppNet Double) {n' : AppNet Double}
      {passed : List (Packet Double)}
      → All HasSn16 ps
      → IsInOrder n
      → count_all sim ps n ≡ some (n', passed)
      → Totalled n (maximal n.hrsn ps) passed n'
  unfolding count_all maximal
  count_all-Totalled [] n lt o h = record {
    totals = ground arith;
    highest = ground arith;
    same = ground arith;
  }
  count_all-Totalled ((now, p) ∷ ps) n {n' = n''} {passed = passed} lt o h =
      let (n', v, rest, one, others, e) = count_all-cons sim now p ps n h in
      let c = count-Ordered sim now p n lt.0 o one in
      let t = count_all-Totalled ps n' lt.1 c.kept others in
      step v e (count-totals now p n one) (count-verdict now p n c) t
    where
      step :
          {n' : AppNet Double} {rest : List (Packet Double)} (v : Verdict)
          → passed ≡ elim v [ accepted ↦ p ∷ rest | _ ↦ rest ]
          → totals_of n'
            ≡ elim v [ accepted ↦ absorb (totals_of n) (now, p) | dropped r ↦ totals_of n ]
          → (((p.ptype == pt_data_application && ltb n.hrsn p.sn) ≡ true)
              × (v ≡ accepted)
              × (n'.hrsn ≡ p.sn))
            ⊎ (((p.ptype == pt_data_application && ltb n.hrsn p.sn) ≡ false)
                × (v ≢ accepted)
                × (n'.hrsn ≡ n.hrsn))
          → Totalled n' (maximal n'.hrsn ps) rest n''
          → Totalled n (maximal n.hrsn ((now, p) ∷ ps)) passed n''
      step {n'} accepted e s (inl (on, _, top)) t =
          let em : maximal n.hrsn ((now, p) ∷ ps) ≡ (now, p) ∷ maximal n'.hrsn ps =
            rw on (ap (λ k. (now, p) ∷ maximal k ps) (sym top)) in
          subst (λ m. Totalled n m passed n'') (sym em)
            (record {
              totals = t.totals ∙ ap (λ z. foldl absorb z (maximal n'.hrsn ps)) s;
              highest = t.highest ∙ ap (λ k. last_sn k (maximal n'.hrsn ps)) top;
              same = e ∙ ap (λ q. p ∷ q) t.same;
            })
      step {n'} (dropped r) e s (inr (off, _, top)) t =
          let em : maximal n.hrsn ((now, p) ∷ ps) ≡ maximal n'.hrsn ps =
            rw off (ap (λ k. maximal k ps) (sym top)) in
          subst (λ m. Totalled n m passed n'') (sym em)
            (record {
              totals = t.totals ∙ ap (λ z. foldl absorb z (maximal n'.hrsn ps)) s;
              highest = t.highest ∙ ap (λ k. last_sn k (maximal n'.hrsn ps)) top;
              same = e ∙ t.same;
            })
      step accepted e s (inr (off, no_, top)) t = absurd (no_ refl)
      step (dropped r) e s (inl (on, a, top)) t = absurd (cc)

  -- The numbers go up by at least one each.
  pub length-maximal_le :
      (highest : ℕ) (ps : List (Double × Packet Double))
      → highest + length (maximal highest ps) ≤ last_sn highest (maximal highest ps)
  unfolding maximal
  length-maximal_le highest [] = omega arith
  length-maximal_le highest ((now, p) ∷ ps) =
      ground (arith, length-maximal_le highest ps, length-maximal_le p.sn ps)
