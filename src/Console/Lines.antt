-- ===== src/Console/Lines.antt =====
-- When the lines of `statistics` are written without a fault.
use desert_addon_uwapp_net.Common.{
  ◌≤◌, ◌≡◌, refl, inl, inr, Bool-cases, take, [], ◌∷◌, ◌++◌, false, some, List, length, arith,
}
use desert_addon_uwapp_net.Sim.{Sim}
use desert_addon_uwapp_net.Packet.{Packet}
use desert_addon_uwapp_net.AppNet.{AppNet}
use desert_addon_uwapp_net.AppNet.Receive.{Verdict, accepted, dropped, count}
use desert_addon_uwapp_net.Console.{
  Line, payload_received, sn_received, payload_size_received, lost_lines, logs_at, verdict_lines,
}

-- Below debug level 1 nothing is printed as a C string, and a payload within its array is enough.
pub verdict_lines-quiet :
    {Double : Type 0} (v : Verdict) (n : AppNet Double) (p : Packet Double)
    → logs_at 1 n.debug ≡ false
    → p.payload_size ≤ length p.payload_msg
    → (lines : List Line) × (verdict_lines v n p ≡ some lines)
unfolding verdict_lines
verdict_lines-quiet accepted n p quiet fits = elim (Bool-cases (logs_at 0 n.debug)) [
  | inl on ↦
      let b = take p.payload_size p.payload_msg in
      (
        lost_lines n p
            ++ (payload_received b ∷ sn_received p.sn ∷ payload_size_received p.payload_size ∷ []),
        ground (arith, on, quiet),
      )
  | inr off ↦ ([], ground (arith, off))
]
verdict_lines-quiet (dropped r) n p quiet fits = (_, refl)

module _ (sim : Sim) where
  open sim use {Double}

  -- The debug level stays what it is.
  pub count-debug :
      (now : Double) (p : Packet Double) (n : AppNet Double) {n' : AppNet Double} {v : Verdict}
      → count sim now p n ≡ some (n', v)
      → n'.debug ≡ n.debug
  unfolding count
  count-debug now p n h = ground arith
