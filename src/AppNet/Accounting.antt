-- ===== src/AppNet/Accounting.antt =====
-- The counters of `uwAppNetModule` under `statistics`: every packet is counted once, and the losses
-- make up the gaps in the numbers.
use desert_addon_uwapp_net.Common.{
  ℕ, ◌+◌, ◌%◌, ◌^◌, ◌<◌, ◌≡◌, refl, some, List, [], ◌∷◌, ◌++◌, arith, length, All, >>=-eq-some,
}
use desert_addon_uwapp_net.Sim.{Sim}
use desert_addon_uwapp_net.Packet.{Packet}
use desert_addon_uwapp_net.AppNet.{AppNet}
use desert_addon_uwapp_net.AppNet.Receive.{Verdict, accepted, dropped, count, count_all}

-- `sn_` is a `uint16_t`.
abbrev pub HasSn16 : {Double : Type 0} → Double × Packet Double → Type 0
HasSn16 (now, p) = p.sn < 2 ^ 16

abbrev pub tally : {Double : Type 0} → AppNet Double → ℕ
tally n = n.pkts_recv + n.pkts_ooseq + n.pkts_invalid

-- With dropping on, the packets received and lost make up the numbers used so far.
pub record IsBalanced {Double : Type 0} (n : AppNet Double) : Type 0 where
  pub dropping : n.drop_out_of_order ≡ 1
  pub in_range : n.hrsn < 2 ^ 16
  pub balance : n.pkts_recv + n.pkts_lost ≡ n.hrsn

-- the packets that a reception lets through
abbrev pub passes : {Double : Type 0} → Verdict → Packet Double → List (Packet Double)
passes accepted p = p ∷ []
passes (dropped r) p = []

pub passes-append :
    {Double : Type 0} (v : Verdict) (p : Packet Double) (rest : List (Packet Double))
    → passes v p ++ rest ≡ elim v [ accepted ↦ p ∷ rest | dropped r ↦ rest ]
passes-append accepted p rest = refl
passes-append (dropped r) p rest = refl

module _ (sim : Sim) where
  open sim use {Double}

  pub tally-count :
      (now : Double) (p : Packet Double) (n : AppNet Double) {n' : AppNet Double} {v : Verdict}
      → count sim now p n ≡ some (n', v)
      → tally n' % 2 ^ 32 ≡ (tally n + 1) % 2 ^ 32
  unfolding count
  tally-count now p n h = ground arith

  pub count-IsBalanced :
      (now : Double) (p : Packet Double) (n : AppNet Double) {n' : AppNet Double} {v : Verdict}
      → p.sn < 2 ^ 16
      → IsBalanced n
      → count sim now p n ≡ some (n', v)
      → IsBalanced n'
  unfolding count
  count-IsBalanced now p n lt b h = ground arith

  pub count_all-cons :
      (now : Double) (p : Packet Double) (ps : List (Double × Packet Double)) (n : AppNet Double)
      {n'' : AppNet Double} {passed : List (Packet Double)}
      → count_all sim ((now, p) ∷ ps) n ≡ some (n'', passed)
      → (n' : AppNet Double) × (v : Verdict) × (rest : List (Packet Double)) × (count sim now p n
          ≡ some (n', v))
        × (count_all sim ps n' ≡ some (n'', rest))
        × (passed ≡ elim v [ accepted ↦ p ∷ rest | _ ↦ rest ])
  unfolding count_all
  count_all-cons now p ps n h =
      let ((n', v), one, more) = >>=-eq-some (count sim now p n) _ h in
      let ((n'', rest), others, last) = >>=-eq-some (count_all sim ps n') _ more in
      (n', v, rest, one, ground arith, ground arith)

  -- Every packet that `statistics` has handled without a fault is counted exactly once (modulo
  -- 2 ^ 32): as received, as out of sequence or as invalid.
  pub tally-count_all :
      (ps : List (Double × Packet Double)) (n : AppNet Double) {n' : AppNet Double}
      {passed : List (Packet Double)}
      → count_all sim ps n ≡ some (n', passed)
      → tally n' % 2 ^ 32 ≡ (tally n + length ps) % 2 ^ 32
  unfolding count_all
  tally-count_all [] n h = ground arith
  tally-count_all ((now, p) ∷ ps) n h =
      let (n', v, rest, one, others, _) = count_all-cons now p ps n h in
      omega (arith, tally-count now p n one, tally-count_all ps n' others)

  -- With `drop_out_of_order` 1 and `uint16_t` numbers, `statistics` keeps the balance: the packets
  -- received and the packets reported lost together are exactly the numbers up to `hrsn`.
  pub count_all-IsBalanced :
      (ps : List (Double × Packet Double)) (n : AppNet Double) {n' : AppNet Double}
      {passed : List (Packet Double)}
      → All HasSn16 ps
      → IsBalanced n
      → count_all sim ps n ≡ some (n', passed)
      → IsBalanced n'
  unfolding count_all
  count_all-IsBalanced [] n lt b h = ground arith
  count_all-IsBalanced ((now, p) ∷ ps) n lt b h =
      let (n', v, rest, one, others, _) = count_all-cons now p ps n h in
      count_all-IsBalanced ps n' lt.1 (count-IsBalanced now p n lt.0 b one) others
