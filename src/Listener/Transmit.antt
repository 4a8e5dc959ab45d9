-- ===== src/Listener/Transmit.antt =====
-- tcp_listener.h, `init_Packet_TCP`: the oldest packet of the queue is filled in and sent down.
pub mod Numbering
use desert_addon_uwapp_net.Common.{
  ℕ, true, false, Option, none, some, List, [], ◌∷◌, if◌then◌else◌, u16, mul32, is_negative,
}
use desert_addon_uwapp_net.Sim.{Sim}
use desert_addon_uwapp_net.Packet.{DataApplication, Packet}
use desert_addon_uwapp_net.AppNet.{
  AppNet, incr_pkt_sent, incr_uid_cnt, get_rftt, get_dst_addr, get_dst_port,
}
use desert_addon_uwapp_net.Listener.{Listener}

module _ (sim : Sim) where
  open sim use {Double, pt_data_application, down}

  -- the trip time goes out in units of 1 / 10000
  unfoldable pub set_rftt : ℕ → DataApplication → DataApplication
  set_rftt rftt a =
      if is_negative rftt
      then record a { rftt_valid = false }
      else record a { app_rftt = mul32 rftt 10000; rftt_valid = true }

  unfoldable pub fill_packet :
      Double → AppNet Double → Packet Double → AppNet Double × Packet Double
  unfolding set_rftt incr_pkt_sent incr_uid_cnt
  fill_packet now n p =
      let (uid, n') = incr_uid_cnt n in
      let (sn, n'') = incr_pkt_sent n' in
      (
        n'',
        record p {
          app = record (set_rftt (get_rftt n'') (record p.app { sn = u16 sn })) { priority = 0 };
          uid = uid;
          ptype = pt_data_application;
          direction = down;
          timestamp = now;
          dport = get_dst_port n'';
          daddr = get_dst_addr n'';
        },
      )

  -- The packet that is sent down, if there is one.
  unfoldable pub init_packet_tcp :
      Double
      → AppNet Double
      → Listener Double
      → (AppNet Double × Listener Double) × Option (Packet Double)
  unfolding fill_packet
  init_packet_tcp now n l = elim l.queue_pck_read [
    | [] ↦ ((n, l), none)
    | p ∷ rest ↦
        let (n', p') = fill_packet now n p in ((n', record l { queue_pck_read = rest }), some p')
  ]

  -- `others` behind the packet that was sent, if there was one
  abbrev pub with_sent :
      (AppNet Double × Listener Double) × List (Packet Double)
      → Option (Packet Double)
      → (AppNet Double × Listener Double) × List (Packet Double)
  with_sent others none = others
  with_sent (last, others) (some p) = (last, p ∷ others)

  -- The timer expires at these times: what is sent down, in order.
  unfoldable pub transmit_all :
      List Double
      → AppNet Double
      → Listener Double
      → (AppNet Double × Listener Double) × List (Packet Double)
  transmit_all [] n l = ((n, l), [])
  transmit_all (now ∷ nows) n l =
      let ((n', l'), sent) = init_packet_tcp now n l in with_sent (transmit_all nows n' l') sent
