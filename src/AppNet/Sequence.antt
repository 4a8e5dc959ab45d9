-- ===== src/AppNet/Sequence.antt =====
-- `statistics` with `drop_out_of_order` 1 on packets that are numbered in sequence, and at the end of
-- the numbers.
use desert_addon_uwapp_net.Common.{
  ℕ, suc, ◌+◌, ◌-◌, ◌%◌, ◌^◌, ◌<◌, ◌≤◌, ◌≡◌, refl, sym, ap, ◌∙◌, some, List, [], ◌∷◌, arith, length,
  All, Option-cases, inl, inr,
}
use desert_addon_uwapp_net.Sim.{Sim}
use desert_addon_uwapp_net.Packet.{Packet}
use desert_addon_uwapp_net.AppNet.{AppNet}
use desert_addon_uwapp_net.AppNet.Receive.{Verdict, accepted, count, count_all}
use desert_addon_uwapp_net.AppNet.Accounting.{count_all-cons}
use desert_addon_uwapp_net.AppNet.Faults.{HasUsableSn, count-faults_iff}
use desert_addon_uwapp_net.AppNet.Order.{IsInOrder, count-Ordered}

-- packets arriving at these times, one at each
abbrev pub arrive :
    {Double : Type 0} → List Double → List (Packet Double) → List (Double × Packet Double)
arrive [] ps = []
arrive (t ∷ ts) [] = []
arrive (t ∷ ts) (p ∷ ps) = (t, p) ∷ arrive ts ps

module _ (sim : Sim) where
  open sim use {Double, pt_data_application}

  -- application packets that carry the numbers `k`, `k + 1`, …
  abbrev pub Consecutive : ℕ → List (Packet Double) → Type 0
  Consecutive k [] = Unit
  Consecutive k (p ∷ ps) = (p.sn ≡ k) × (p.ptype ≡ pt_data_application) × Consecutive (k + 1) ps

  -- from `n` to `n'`, `count` packets have been accepted and `gap` more lost
  pub record Accepted (count gap : ℕ) (n n' : AppNet Double) : Type 0 where
    pub ordered : IsInOrder n'
    pub hrsn : n'.hrsn ≡ n.hrsn + count + gap
    pub recv : n'.pkts_recv % 2 ^ 32 ≡ (n.pkts_recv + count) % 2 ^ 32
    pub lost : n'.pkts_lost % 2 ^ 32 ≡ (n.pkts_lost + gap) % 2 ^ 32
    pub in_range :
        n.pkts_recv < 2 ^ 32
        → n.pkts_lost < 2 ^ 32
        → (n'.pkts_recv < 2 ^ 32) × (n'.pkts_lost < 2 ^ 32)
    pub mode : n'.drop_out_of_order ≡ n.drop_out_of_order
    pub ooseq : n'.pkts_ooseq ≡ n.pkts_ooseq
    pub invalid : n'.pkts_invalid ≡ n.pkts_invalid

  -- one packet after a gap, and then others in sequence
  pub Accepted-cons :
      {gap k : ℕ} {n n₁ n' : AppNet Double}
      → Accepted 1 gap n n₁
      → Accepted k 0 n₁ n'
      → Accepted (suc k) gap n n'
  Accepted-cons a b = record {
    ordered = b.ordered;
    hrsn = omega arith;
    recv = omega arith;
    lost = omega arith;
    in_range = λ r l. let (r', l') = a.in_range r l in b.in_range r' l';
    mode = b.mode ∙ a.mode;
    ooseq = b.ooseq ∙ a.ooseq;
    invalid = b.invalid ∙ a.invalid;
  }

  accepted-counters :
      (now : Double) (p : Packet Double) (n : AppNet Double) {n' : AppNet Double} {v : Verdict}
      → IsInOrder n
      → n.hrsn < p.sn
      → p.sn < 65535
      → count sim now p n ≡ some (n', v)
      → v ≡ accepted
      → (n'.pkts_recv ≡ (n.pkts_recv + 1) % 2 ^ 32)
        × (n'.pkts_lost % 2 ^ 32 ≡ (n.pkts_lost + (p.sn - n.hrsn - 1)) % 2 ^ 32)
        × (n.pkts_lost < 2 ^ 32 → n'.pkts_lost < 2 ^ 32)
        × (n'.pkts_ooseq ≡ n.pkts_ooseq)
        × (n'.pkts_invalid ≡ n.pkts_invalid)
  unfolding count
  accepted-counters now p n o lt usable h e = ground arith

  -- An application packet with a number above the highest one is accepted, and the numbers between
  -- are counted as lost.
  pub count-accepts :
      (now : Double) (p : Packet Double) (n : AppNet Double) (gap : ℕ)
      → IsInOrder n
      → p.ptype ≡ pt_data_application
      → p.sn ≡ n.hrsn + 1 + gap
      → p.sn < 65535
      → (n' : AppNet Double) × (count sim now p n ≡ some (n', accepted)) × Accepted 1 gap n n'
  count-accepts now p n gap o app e usable = elim (Option-cases (count sim now p n)) [
    | inl q ↦ absurd (ground (arith, (count-faults_iff sim now p n (omega arith)).0 q))
    | inr ((n', v), q) ↦
        let c = count-Ordered sim now p n (omega arith) o q in
        let (h, yes_v) = c.above (ground arith) (omega arith) in
        let (recv, lost, lost_small, ooseq, invalid) =
          accepted-counters now p n o (omega arith) usable q yes_v in
        (
          n',
          q ∙ ap (λ u. some (n', u)) yes_v,
          record {
            ordered = c.kept;
            hrsn = omega arith;
            recv = omega arith;
            lost = let g : p.sn - n.hrsn - 1 ≡ gap = omega arith in omega arith;
            in_range = λ r l. (omega arith, lost_small l);
            mode = c.kept.dropping ∙ sym o.dropping;
            ooseq = ooseq;
            invalid = invalid;
          },
        )
  ]

  -- Packets numbered in sequence from the expected number on are all accepted, and none is lost.
  pub count_all-Consecutive :
      (ts : List Double) (ps : List (Packet Double)) (k : ℕ) (n : AppNet Double)
      → IsInOrder n
      → length ts ≡ length ps
      → n.hrsn + 1 ≡ k
      → k + length ps ≤ 65535
      → Consecutive k ps
      → (n' : AppNet Double) × (count_all sim (arrive ts ps) n ≡ some (n', ps))
        × Accepted (length ps) 0 n n'
  unfolding count_all
  count_all-Consecutive [] [] k n o l e room c = (
    n,
    refl,
    record {
      ordered = o;
      hrsn = omega arith;
      recv = omega arith;
      lost = omega arith;
      in_range = λ r l. (r, l);
      mode = refl;
      ooseq = refl;
      invalid = refl;
    },
  )
  count_all-Consecutive [] (p ∷ ps) k n o l e room c = absurd (omega arith)
  count_all-Consecutive (t ∷ ts) [] k n o l e room c = absurd (omega arith)
  count_all-Consecutive (t ∷ ts) (p ∷ ps) k n o l e room c =
      let (n₁, one, a) = count-accepts t p n 0 o c.1 (omega arith) (omega arith) in
      let (n', others, b) =
        count_all-Consecutive ts ps (k + 1) n₁ a.ordered (omega arith) (omega arith) (omega arith)
          c.2 in
      (n', rw (one, others) refl, Accepted-cons a b)

  -- With `drop_out_of_order` 1, on a module that has marked no number above its highest, once number
  -- 65534 has been accepted, `statistics` lets no further packet through (of those whose
  -- number does not fault), whatever arrives.
  pub count_all-exhausted :
      (ps : List (Double × Packet Double)) (n : AppNet Double) {n' : AppNet Double}
      {passed : List (Packet Double)}
      → IsInOrder n
      → n.hrsn ≡ 65534
      → All HasUsableSn ps
      → count_all sim ps n ≡ some (n', passed)
      → passed ≡ []
  unfolding count_all
  count_all-exhausted [] n o top u h = ground arith
  count_all-exhausted ((now, p) ∷ ps) n o top u h =
      let (n', v, rest, one, others, e) = count_all-cons sim now p ps n h in
      let c = count-Ordered sim now p n (omega arith) o one in
      let (same, refused) = c.below (omega arith) in
      ground (arith, e, refused, count_all-exhausted ps n' c.kept (same ∙ top) u.1 others)
