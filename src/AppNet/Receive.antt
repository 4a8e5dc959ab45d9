-- ===== src/AppNet/Receive.antt =====
-- uwAppNet_module.cpp, `statistics`, down to the update of `lrtime`: what a packet does to the
-- counters, and whether it is dropped.
use desert_addon_uwapp_net.Common.{
  ℕ, ◌/◌, ◌%◌, ◌^◌, Bool, true, false, ◌&&◌, not, Option, some, List, [], ◌∷◌, ltb, ◌==◌,
  if◌then◌else◌, ◌>>=◌, add32, sub32,
}
use desert_addon_uwapp_net.Sim.{Sim}
use desert_addon_uwapp_net.Packet.{Packet}
use desert_addon_uwapp_net.AppNet.{
  AppNet, use_drop_out_of_order, incr_pkt_lost, incr_pkt_recv, incr_pkt_ooseq, incr_pkt_invalid,
  sn_load, sn_store,
}
use desert_addon_uwapp_net.AppNet.Averages.{update_rtt, update_ftt, update_throughput}

-- UWAPPLICATION_DROP_REASON_*
pub data DropReason : Type 0 where
  unknown_type duplicated_packet out_of_sequence : DropReason

pub data Verdict : Type 0 where
  accepted : Verdict
  dropped : DropReason → Verdict

-- `sn & 0x00ffffff`
abbrev pub sn_index : ℕ → ℕ
sn_index sn = sn % 2 ^ 24

-- a `bool` in an arithmetic expression
abbrev pub int_of_bool : Bool → ℕ
int_of_bool true = 1
int_of_bool false = 0

module _ (sim : Sim) where
  open sim use {Double, sub, of_int, to_int, pt_data_application}

  -- the trip times, taken at the time `now` of the scheduler
  unfoldable pub measure : Double → Packet Double → AppNet Double → AppNet Double
  unfolding update_rtt update_ftt
  measure now p n =
      let timed = record n { rftt = to_int (sub now p.timestamp) } in
      let answered =
        if not (int_of_bool p.rftt_valid / 10000 == 0)
        then update_rtt sim (of_int (add32 timed.rftt p.app_rftt)) timed
        else timed in
      update_ftt sim (of_int answered.rftt) answered

  -- the sequence number, and the packets that were lost before this one
  unfoldable pub advance : Packet Double → AppNet Double → AppNet Double
  unfolding use_drop_out_of_order incr_pkt_lost
  advance p n =
      let n' = record n { hrsn = p.sn } in
      if use_drop_out_of_order n' && ltb n'.esn p.sn
      then incr_pkt_lost (sub32 p.sn n'.esn) n'
      else n'

  unfoldable pub accept : Double → Packet Double → AppNet Double → AppNet Double
  unfolding measure advance update_throughput incr_pkt_recv
  accept now p n =
      let n' = advance p (measure now p n) in
      let n'' = update_throughput sim p.payload_size (sub now n'.lrtime) n' in
      record (incr_pkt_recv n'') { lrtime = now }

  unfoldable pub check_sequence : Double → Packet Double → AppNet Double → AppNet Double × Verdict
  unfolding accept use_drop_out_of_order incr_pkt_ooseq
  check_sequence now p n =
      if use_drop_out_of_order n && ltb p.sn n.esn
      then (incr_pkt_ooseq n, dropped out_of_sequence)
      else (accept now p n, accepted)

  -- The array is read only if packets are to be dropped.
  unfoldable pub already_processed : Packet Double → AppNet Double → Option Bool
  unfolding use_drop_out_of_order sn_load
  already_processed p n = if use_drop_out_of_order n then sn_load n (sn_index p.sn) else some false

  unfoldable pub check_duplicate :
      Double → Packet Double → AppNet Double → Option (AppNet Double × Verdict)
  unfolding already_processed check_sequence incr_pkt_invalid sn_store
  check_duplicate now p n = do
    seen ← already_processed p n
    if seen
        then some (incr_pkt_invalid n, dropped duplicated_packet)
        else (sn_store n (sn_index p.sn) >>= λ n'. some (check_sequence now p n'))

  unfoldable pub count : Double → Packet Double → AppNet Double → Option (AppNet Double × Verdict)
  unfolding check_duplicate incr_pkt_invalid
  count now p n =
      if p.ptype == pt_data_application
      then check_duplicate now p (record n { esn = add32 n.hrsn 1 })
      else some (incr_pkt_invalid n, dropped unknown_type)

  -- A sequence of receptions, with the packets that pass, in order.
  unfoldable pub count_all :
      List (Double × Packet Double) → AppNet Double → Option (AppNet Double × List (Packet Double))
  count_all [] n = some (n, [])
  count_all ((now, p) ∷ ps) n = do
    (n', v) ← count now p n
    (n'', passed) ← count_all ps n'
    some (n'', elim v [ accepted ↦ p ∷ passed | dropped r ↦ passed ])
