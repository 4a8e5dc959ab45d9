-- ===== src/AppNet.antt =====
-- uwAppNet_module.h and the constructor in uwAppNet_module.cpp: the members of `uwAppNetModule` that
-- hold configuration and statistics, and the small methods on them. `p_tcp_listener` is kept apart,
-- in `Node`.
pub mod Averages
pub mod Receive
pub mod Accounting
pub mod Order
pub mod Faults
pub mod Trips
pub mod Totals
pub mod Reports
pub mod Unordered
pub mod Sequence
use desert_addon_uwapp_net.Common.{
  ℕ, Bool, true, false, Option, none, some, ltb, ◌==◌, if◌then◌else◌, u8, add32, sub32,
}
use desert_addon_uwapp_net.Sim.{Sim}

-- USHRT_MAX, the number of entries that the constructor allocates for `sn_check`
abbrev pub ushrt_max : ℕ
ushrt_max = 65535

pub record AppNet (Double : Type 0) : Type 0 where
  pub serv_port : ℕ
  pub node_id : ℕ
  pub exp_id : ℕ
  pub debug : ℕ
  pub period : Double
  pub port_num : ℕ
  pub drop_out_of_order : ℕ
  pub dst_addr : ℕ  -- uint8_t
  pub sn_check : ℕ → Bool  -- bool[USHRT_MAX]
  pub uidcnt : ℕ
  pub txsn : ℕ
  pub rftt : ℕ
  pub pkts_lost : ℕ
  pub pkts_recv : ℕ
  pub pkts_ooseq : ℕ
  pub pkts_invalid : ℕ
  pub pkts_push_queue : ℕ
  pub pkts_last_reset : ℕ
  pub lrtime : Double
  pub sumrtt : Double
  pub sumrtt2 : Double
  pub rttsamples : ℕ
  pub sumftt : Double
  pub sumftt2 : Double
  pub fttsamples : ℕ
  pub esn : ℕ  -- uint32_t
  pub sumbytes : Double
  pub sumdt : Double
  pub hrsn : ℕ
  pub socket_read_timeout : ℕ

-- The values of the Tcl variables that the constructor binds its members to.
pub record Bound (Double : Type 0) : Type 0 where
  pub debug : ℕ
  pub period : Double
  pub node_id : ℕ
  pub exp_id : ℕ
  pub dest_addr : ℕ
  pub dest_port : ℕ
  pub socket_port : ℕ
  pub drop_out_of_order : ℕ
  pub socket_read_timeout : ℕ

-- The members initialised in the list, then bound, then `servPort = port_num`.
unfoldable pub construct : (sim : Sim) → Bound sim.Double → AppNet sim.Double
construct sim b = record {
  serv_port = b.dest_port;
  node_id = b.node_id;
  exp_id = b.exp_id;
  debug = b.debug;
  period = b.period;
  port_num = b.dest_port;
  drop_out_of_order = b.drop_out_of_order;
  dst_addr = u8 b.dest_addr;
  sn_check = λ _. false;
  uidcnt = 0;
  txsn = 1;
  rftt = 0;
  pkts_lost = 0;
  pkts_recv = 0;
  pkts_ooseq = 0;
  pkts_invalid = 0;
  pkts_push_queue = 0;
  pkts_last_reset = 0;
  lrtime = sim.zero_double;
  sumrtt = sim.zero_double;
  sumrtt2 = sim.zero_double;
  rttsamples = 0;
  sumftt = sim.zero_double;
  sumftt2 = sim.zero_double;
  fttsamples = 0;
  esn = 0;
  sumbytes = sim.zero_double;
  sumdt = sim.zero_double;
  hrsn = 0;
  socket_read_timeout = b.socket_read_timeout;
}

module _ {Double : Type 0} where
  unfoldable pub use_drop_out_of_order : AppNet Double → Bool
  use_drop_out_of_order n = if n.drop_out_of_order == 1 then true else false

  unfoldable pub incr_pkts_push_queue : AppNet Double → AppNet Double
  incr_pkts_push_queue n = record n { pkts_push_queue = add32 n.pkts_push_queue 1 }

  unfoldable pub incr_pkt_lost : ℕ → AppNet Double → AppNet Double
  incr_pkt_lost npkts n = record n { pkts_lost = add32 n.pkts_lost npkts }

  unfoldable pub incr_pkt_recv : AppNet Double → AppNet Double
  incr_pkt_recv n = record n { pkts_recv = add32 n.pkts_recv 1 }

  unfoldable pub incr_pkt_ooseq : AppNet Double → AppNet Double
  incr_pkt_ooseq n = record n { pkts_ooseq = add32 n.pkts_ooseq 1 }

  unfoldable pub incr_pkt_invalid : AppNet Double → AppNet Double
  incr_pkt_invalid n = record n { pkts_invalid = add32 n.pkts_invalid 1 }

  -- These return the new number.
  unfoldable pub incr_pkt_sent : AppNet Double → ℕ × AppNet Double
  incr_pkt_sent n = let t = add32 n.txsn 1 in (t, record n { txsn = t })

  unfoldable pub incr_uid_cnt : AppNet Double → ℕ × AppNet Double
  incr_uid_cnt n = let u = add32 n.uidcnt 1 in (u, record n { uidcnt = u })

  unfoldable pub get_pkt_sent : AppNet Double → ℕ
  get_pkt_sent n = sub32 n.txsn 1

  abbrev pub get_pkt_lost : AppNet Double → ℕ
  get_pkt_lost n = n.pkts_lost

  abbrev pub get_pkt_recv : AppNet Double → ℕ
  get_pkt_recv n = n.pkts_recv

  abbrev pub get_pkts_oo_sequence : AppNet Double → ℕ
  get_pkts_oo_sequence n = n.pkts_ooseq

  abbrev pub get_pkts_invalid_rx : AppNet Double → ℕ
  get_pkts_invalid_rx n = n.pkts_invalid

  abbrev pub get_pkts_push_queue : AppNet Double → ℕ
  get_pkts_push_queue n = n.pkts_push_queue

  abbrev pub get_rftt : AppNet Double → ℕ
  get_rftt n = n.rftt

  abbrev pub get_dst_addr : AppNet Double → ℕ
  get_dst_addr n = n.dst_addr

  abbrev pub get_dst_port : AppNet Double → ℕ
  get_dst_port n = n.port_num

  -- Access to `sn_check[i]`; outside the allocation it faults.
  unfoldable pub sn_load : AppNet Double → ℕ → Option Bool
  sn_load n i = if ltb i ushrt_max then some (n.sn_check i) else none

  unfoldable pub sn_store : AppNet Double → ℕ → Option (AppNet Double)
  sn_store n i =
      if ltb i ushrt_max
      then some (record n { sn_check = λ j. if j == i then true else n.sn_check j })
      else none
