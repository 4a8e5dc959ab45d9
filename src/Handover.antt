-- ===== src/Handover.antt =====
-- tcp_listener.h: the queue between the two threads. The listening thread pushes a packet and counts
-- it (`HandleTCPclient`), the timer takes one and sends it (`init_Packet_TCP`), in single steps that
-- may alternate in any way. The test for an empty queue is made without the mutex, as in the code.
pub mod Shape
pub mod Order
pub mod Calls
pub mod Progress
pub mod Sequence
pub mod Reading
use desert_addon_uwapp_net.Common.{ℕ, ◌≡◌, List, [], ◌∷◌, ◌++◌}
use desert_addon_uwapp_net.Sim.{Sim}
use desert_addon_uwapp_net.Packet.{Packet}
use desert_addon_uwapp_net.AppNet.{AppNet, Bound, construct, incr_pkts_push_queue}
use desert_addon_uwapp_net.Listener.{Listener, new_listener}
use desert_addon_uwapp_net.Listener.Transmit.{fill_packet}

-- `m_Mutex`
pub data Mutex : Type 0 where
  free : Mutex
  by_reader : Mutex
  by_timer : Mutex

-- Where the listening thread stands: it waits for a message, holds the mutex and a new packet, or
-- has pushed the packet.
pub data Reader (Double : Type 0) : Type 0 where
  reading : Reader Double
  holding : Packet Double → Reader Double
  added : Reader Double

-- Where the timer stands: it has not expired; it has seen that the queue is not empty; it holds the
-- mutex; it has read the first packet; it has removed it; it has released the mutex. `broken` is
-- behind a `front` or `pop` of an empty queue.
pub data Timer (Double : Type 0) : Type 0 where
  resting : Timer Double
  seen : Timer Double
  locked : Timer Double
  fronted : Packet Double → Timer Double
  popped : Packet Double → Timer Double
  sending : Packet Double → Timer Double
  broken : Timer Double

unfoldable pub look : {Double : Type 0} → List (Packet Double) → Timer Double
look [] = resting
look (p ∷ ps) = seen

unfoldable pub front : {Double : Type 0} → List (Packet Double) → Timer Double
front [] = broken
front (p ∷ ps) = fronted p

-- the removal of the first packet, with the packet that has been read before
unfoldable pub pop :
    {Double : Type 0} → Packet Double → List (Packet Double) → Timer Double × List (Packet Double)
pop q [] = (broken, [])
pop q (p ∷ ps) = (popped q, ps)

module _ (sim : Sim) where
  open sim use {Double}

  pub record Shared : Type 0 where
    pub owner : AppNet Double
    pub listener : Listener Double
    pub mutex : Mutex
    pub reader : Reader Double
    pub timer : Timer Double
    -- the packets pushed so far, and the packets sent down so far
    pub pushed : List (Packet Double)
    pub sent : List (Packet Double)

  abbrev pub at_start : Bound Double → (port timeout : ℕ) → List ℕ → Shared
  at_start b port timeout buffer = record {
    owner = construct sim b;
    listener = new_listener port timeout buffer;
    mutex = free;
    reader = reading;
    timer = resting;
    pushed = [];
    sent = [];
  }

  unfoldable pub push : Packet Double → Shared → Shared
  push p s = record s {
    listener = record s.listener { queue_pck_read = s.listener.queue_pck_read ++ p ∷ [] };
    reader = added;
    pushed = s.pushed ++ p ∷ [];
  }

  unfoldable pub count_pushed : Shared → Shared
  unfolding incr_pkts_push_queue
  count_pushed s = record s { owner = incr_pkts_push_queue s.owner; reader = reading; mutex = free }

  unfoldable pub take_off : Packet Double → Shared → Shared
  unfolding pop
  take_off p s =
      let (t, rest) = pop p s.listener.queue_pck_read in
      record s { listener = record s.listener { queue_pck_read = rest }; timer = t }

  unfoldable pub send_down : Double → Packet Double → Shared → Shared
  unfolding fill_packet
  send_down now p s =
      let (n, p') = fill_packet sim now s.owner p in
      record s { owner = n; timer = resting; sent = s.sent ++ p' ∷ [] }

  pub data Turn (s : Shared) : Shared → Type 0 where
    reader_locks :
        (p : Packet Double)
        → s.reader ≡ reading
        → s.mutex ≡ free
        → Turn s (record s { mutex = by_reader; reader = holding p })
    pushes : (p : Packet Double) → s.reader ≡ holding p → Turn s (push p s)
    counts : s.reader ≡ added → Turn s (count_pushed s)
    looks : s.timer ≡ resting → Turn s (record s { timer = look s.listener.queue_pck_read })
    timer_locks :
        s.timer ≡ seen → s.mutex ≡ free → Turn s (record s { mutex = by_timer; timer = locked })
    fronts : s.timer ≡ locked → Turn s (record s { timer = front s.listener.queue_pck_read })
    pops : (p : Packet Double) → s.timer ≡ fronted p → Turn s (take_off p s)
    unlocks :
        (p : Packet Double)
        → s.timer ≡ popped p
        → Turn s (record s { mutex = free; timer = sending p })
    sends : (now : Double) (p : Packet Double) → s.timer ≡ sending p → Turn s (send_down now p s)

  pub data Turns (s : Shared) : Shared → Type 0 where
    still : Turns s s
    then_turn : {t u : Shared} → Turns s t → Turn t u → Turns s u
