-- ===== src/AppNet/Order.antt =====
-- Which packets `statistics` lets through when `drop_out_of_order` is 1: the abstract receiver
-- keeps one number and lets through each application packet whose number is above it.
use desert_addon_uwapp_net.Common.{
  ℕ, ◌^◌, ◌≤◌, ◌<◌, ◌≡◌, ◌≢◌, true, false, some, List, [], ◌∷◌, map, arith, ltb, ◌==◌, ltb→lt, All,
  Bool-cases, inl, inr,
}
use desert_addon_uwapp_net.Sim.{Sim}
use desert_addon_uwapp_net.Packet.{Packet}
use desert_addon_uwapp_net.AppNet.{AppNet, Bound, construct}
use desert_addon_uwapp_net.AppNet.Faults.{HasUsableSn, HasUsableSn-HasSn16, count_all-total}
use desert_addon_uwapp_net.AppNet.Receive.{Verdict, accepted, sn_index, count, count_all}
use desert_addon_uwapp_net.AppNet.Accounting.{HasSn16, count_all-cons}

-- the members of a list that exceed `k` and all the members before them
unfoldable pub maxima : ℕ → List ℕ → List ℕ
maxima k [] = []
maxima k (x ∷ xs) = elim (ltb k x) [ true ↦ x ∷ maxima x xs | false ↦ maxima k xs ]

-- strictly increasing, and above `k`
abbrev pub Increasing : ℕ → List ℕ → Type 0
Increasing k [] = Unit
Increasing k (x ∷ xs) = (k < x) × Increasing x xs

Increasing-weaken : (j k : ℕ) (xs : List ℕ) → j ≤ k → Increasing k xs → Increasing j xs
Increasing-weaken j k [] le h = tt
Increasing-weaken j k (x ∷ xs) le h = (omega arith, h.1)

pub maxima-Increasing : (k : ℕ) (xs : List ℕ) → Increasing k (maxima k xs)
unfolding maxima
maxima-Increasing k [] = tt
maxima-Increasing k (x ∷ xs) = elim (Bool-cases (ltb k x)) [
  | inl up ↦ rw (up, maxima) (ltb→lt k x up, maxima-Increasing x xs)
  | inr down ↦ rw (down, maxima) (maxima-Increasing k xs)
]

abbrev pub sn_of : {Double : Type 0} → Packet Double → ℕ
sn_of p = p.sn

-- Dropping is on, and no number above the highest one has been marked.
pub record IsInOrder {Double : Type 0} (n : AppNet Double) : Type 0 where
  pub dropping : n.drop_out_of_order ≡ 1
  pub in_range : n.hrsn < 2 ^ 16
  pub marked_le : (i : ℕ) → n.sn_check i ≡ true → i ≤ n.hrsn

module _ (sim : Sim) where
  open sim use {Double, pt_data_application}

  -- the numbers of the application packets among those that arrive
  unfoldable pub application_sns : List (Double × Packet Double) → List ℕ
  application_sns [] = []
  application_sns ((now, p) ∷ ps) =
      let rest = application_sns ps in
      elim (p.ptype == pt_data_application) [ true ↦ p.sn ∷ rest | false ↦ rest ]

  -- What a reception does to an ordered receiver, by the packet's type and number.
  pub record Ordered (n : AppNet Double) (p : Packet Double) (n' : AppNet Double) (v : Verdict)
      : Type 0 where
    pub kept : IsInOrder n'
    pub other : (p.ptype == pt_data_application) ≡ false → (n'.hrsn ≡ n.hrsn) × (v ≢ accepted)
    pub above :
        (p.ptype == pt_data_application) ≡ true → n.hrsn < p.sn → (n'.hrsn ≡ p.sn) × (v ≡ accepted)
    pub below : p.sn ≤ n.hrsn → (n'.hrsn ≡ n.hrsn) × (v ≢ accepted)

  module _ (now : Double) (p : Packet Double) (n : AppNet Double) {n' : AppNet Double} {v : Verdict}
      (lt : p.sn < 2 ^ 16) (o : IsInOrder n) (h : count sim now p n ≡ some (n', v)) where
    marked-count : (i : ℕ) → n'.sn_check i ≡ true → i ≤ n'.hrsn
    unfolding count
    marked-count i m = ground (arith, o.marked_le i, o.marked_le (sn_index p.sn))

    pub count-Ordered : Ordered n p n' v
    unfolding count
    count-Ordered = record {
      kept = record { dropping = ground arith; in_range = ground arith; marked_le = marked-count };
      other = λ e. (ground arith, ground arith);
      above = λ e lt'. (
        ground (arith, o.marked_le (sn_index p.sn)),
        ground (arith, o.marked_le (sn_index p.sn)),
      );
      below = λ le. (ground arith, ground arith);
    }

  pub count_all-maxima :
      (ps : List (Double × Packet Double)) (n : AppNet Double) {n' : AppNet Double}
      {passed : List (Packet Double)}
      → All HasSn16 ps
      → IsInOrder n
      → count_all sim ps n ≡ some (n', passed)
      → map sn_of passed ≡ maxima n.hrsn (application_sns ps)
  unfolding maxima application_sns count_all
  count_all-maxima [] n lt o h = ground arith
  count_all-maxima ((now, p) ∷ ps) n lt o h =
      let (n', v, rest, one, others, e) = count_all-cons sim now p ps n h in
      let c = count-Ordered now p n lt.0 o one in
      let ih = count_all-maxima ps n' lt.1 c.kept others in
      ground (arith, c.other, c.above, c.below, e, ih)

  pub construct-IsInOrder :
      (b : Bound Double) → b.drop_out_of_order ≡ 1 → IsInOrder (construct sim b)
  unfolding construct
  construct-IsInOrder b e = record {
    dropping = e;
    in_range = omega arith;
    marked_le = λ i m. absurd (cc);
  }

  -- From a module just constructed with `drop_out_of_order` 1, on any packets whose numbers are
  -- below 65535, `statistics` does not fault, and the packets that it lets through carry exactly
  -- the strict left-to-right maxima (above 0) of the numbers of the application packets, in order.
  pub receiver_refines_maxima :
      (b : Bound Double) (ps : List (Double × Packet Double))
      → b.drop_out_of_order ≡ 1
      → All HasUsableSn ps
      → (n' : AppNet Double) × (passed : List (Packet Double)) × (count_all sim ps (construct sim b)
          ≡ some (n', passed))
        × (map sn_of passed ≡ maxima 0 (application_sns ps))
  unfolding construct
  receiver_refines_maxima b ps e usable =
      let ((n', passed), ran) = count_all-total sim ps (construct sim b) usable in
      (
        n',
        passed,
        ran,
        count_all-maxima ps (construct sim b) (HasUsableSn-HasSn16 ps usable)
            (construct-IsInOrder b e) ran,
      )

  -- With `drop_out_of_order` 1, on a module that has marked no number above its highest and packets
  -- with `uint16_t` numbers, the packets that `statistics` lets through carry strictly increasing
  -- numbers, all above the highest number of before: nothing is delivered twice or out of order.
  passed-Increasing :
      (ps : List (Double × Packet Double)) (n : AppNet Double) {n' : AppNet Double}
      {passed : List (Packet Double)}
      → All HasSn16 ps
      → IsInOrder n
      → count_all sim ps n ≡ some (n', passed)
      → Increasing n.hrsn (map sn_of passed)
  passed-Increasing ps n lt o h =
      rw (count_all-maxima ps n lt o h) (maxima-Increasing n.hrsn (application_sns ps))
