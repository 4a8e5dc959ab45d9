-- ===== src/Handover/Calls.antt =====
-- A call of `init_Packet_TCP` that is not interrupted: its turns, and the function as a whole.
use desert_addon_uwapp_net.Common.{◌≡◌, ◌≢◌, Option, none, some, List, [], ◌∷◌, ◌++◌}
use desert_addon_uwapp_net.Sim.{Sim}
use desert_addon_uwapp_net.Packet.{Packet}
use desert_addon_uwapp_net.Listener.Transmit.{init_packet_tcp}
use desert_addon_uwapp_net.Handover.{
  Mutex, free, by_timer, Timer, resting, seen, locked, fronted, popped, sending, broken, Shared,
  Turn, reader_locks, pushes, counts, looks, timer_locks, fronts, pops, unlocks, sends, look,
}

module _ (sim : Sim) where
  open sim use {Double}

  -- Is a turn one of the timer, and does it send a packet only at this time?
  unfoldable pub OfTimer : (now : Double) {s t : Shared sim} → Turn sim s t → Type 0
  OfTimer now (reader_locks p e f) = ⊥
  OfTimer now (pushes p e) = ⊥
  OfTimer now (counts e) = ⊥
  OfTimer now (looks e) = Unit
  OfTimer now (timer_locks e f) = Unit
  OfTimer now (fronts e) = Unit
  OfTimer now (pops p e) = Unit
  OfTimer now (unlocks p e) = Unit
  OfTimer now (sends time p e) = time ≡ now

  -- the turns of the timer from its expiry on, as long as it does not rest again
  pub data Call (now : Double) (s : Shared sim) : Shared sim → Type 0 where
    expires : s.timer ≡ resting → Call now s (record s { timer = look s.listener.queue_pck_read })
    goes_on :
        {t u : Shared sim}
        → Call now s t
        → t.timer ≢ resting
        → (turn : Turn sim t u) → OfTimer now turn
        → Call now s u

  abbrev pub also : List (Packet Double) → Option (Packet Double) → List (Packet Double)
  also sent none = sent
  also sent (some p) = sent ++ p ∷ []

  -- what `init_Packet_TCP` as a whole makes of the module
  abbrev pub after_call : Double → Shared sim → Shared sim
  after_call now s =
      let ((n, l), last) = init_packet_tcp sim now s.owner s.listener in
      record s { owner = n; listener = l; mutex = free; timer = resting; sent = also s.sent last }

  -- the module with its timer, its mutex and its queue there
  abbrev at : Shared sim → Timer Double → Mutex → List (Packet Double) → Shared sim
  at s timer mutex queue = record s {
    listener = record s.listener { queue_pck_read = queue };
    timer = timer;
    mutex = mutex;
  }

  -- what the turns have made of a module, with this queue at the expiry, when the timer is there
  abbrev Stage : Double → Shared sim → Shared sim → Timer Double → Type 0
  Stage now s t resting = t ≡ after_call now s
  Stage now s t seen =
      (p : Packet Double) × (rest : List (Packet Double)) × ((s.listener.queue_pck_read ≡ p ∷ rest)
        × (t ≡ at s seen free (p ∷ rest)))
  Stage now s t locked =
      (p : Packet Double) × (rest : List (Packet Double)) × ((s.listener.queue_pck_read ≡ p ∷ rest)
        × (t ≡ at s locked by_timer (p ∷ rest)))
  Stage now s t (fronted p) =
      (rest : List (Packet Double)) × ((s.listener.queue_pck_read ≡ p ∷ rest)
        × (t ≡ at s (fronted p) by_timer (p ∷ rest)))
  Stage now s t (popped p) =
      (rest : List (Packet Double)) × ((s.listener.queue_pck_read ≡ p ∷ rest)
        × (t ≡ at s (popped p) by_timer rest))
  Stage now s t (sending p) =
      (rest : List (Packet Double)) × ((s.listener.queue_pck_read ≡ p ∷ rest)
        × (t ≡ at s (sending p) free rest))
  Stage now s t broken = ⊥

  abbrev Staged : Double → Shared sim → Shared sim → Type 0
  Staged now s t = Stage now s t t.timer

  -- the module with this queue, when nobody holds the mutex
  abbrev with_queue : Shared sim → List (Packet Double) → Shared sim
  with_queue s queue = at s s.timer free queue
