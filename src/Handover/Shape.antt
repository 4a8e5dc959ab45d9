-- ===== src/Handover/Shape.antt =====
-- What the proofs on the queue between the two threads say of a single state.
use desert_addon_uwapp_net.Common.{
  ℕ, ◌+◌, ◌%◌, ◌^◌, ◌≡◌, List, [], ◌∷◌, ◌++◌, map, arith, sym, ap, ◌∙◌,
}
use mathlib.Core.List.{append_assoc, map-append}
use desert_addon_uwapp_net.Sim.{Sim}
use desert_addon_uwapp_net.Packet.{Packet}
use desert_addon_uwapp_net.AppNet.{AppNet}
use desert_addon_uwapp_net.Listener.Transmit.{fill_packet}
use desert_addon_uwapp_net.Listener.Transmit.Numbering.{payload_of}
use desert_addon_uwapp_net.Handover.{
  Mutex, free, by_reader, by_timer, Reader, reading, holding, added, Timer, resting, seen, locked,
  fronted, popped, sending, broken,
}

-- how many are in a critical section (of the listening thread: 0 or 1)
abbrev pub reader_inside : {Double : Type 0} → Reader Double → ℕ
reader_inside reading = 0
reader_inside (holding p) = 1
reader_inside added = 1

abbrev pub timer_inside : {Double : Type 0} → Timer Double → ℕ
timer_inside locked = 1
timer_inside (fronted p) = 1
timer_inside (popped p) = 1
timer_inside _ = 0

-- The mutex is held by the thread that is inside, and by nobody if none is.
abbrev pub IsGuarded : {Double : Type 0} → Mutex → Reader Double → Timer Double → Type 0
IsGuarded free r t = (reader_inside r ≡ 0) × (timer_inside t ≡ 0)
IsGuarded by_reader r t = (reader_inside r ≡ 1) × (timer_inside t ≡ 0)
IsGuarded by_timer r t = (reader_inside r ≡ 0) × (timer_inside t ≡ 1)

-- The queue has a packet while the timer relies on it; `front` and `pop` never met an empty queue.
abbrev pub IsPresent : {Double : Type 0} → Timer Double → List (Packet Double) → Type 0
IsPresent seen q = (p : _) × (rest : _) × (q ≡ p ∷ rest)
IsPresent locked q = (p : _) × (rest : _) × (q ≡ p ∷ rest)
IsPresent (fronted p) q = (rest : _) × (q ≡ p ∷ rest)
IsPresent broken q = ⊥
IsPresent _ q = Unit

-- the packet that the timer has removed but not sent
abbrev pub in_hand : {Double : Type 0} → Timer Double → List (Packet Double)
in_hand (popped p) = p ∷ []
in_hand (sending p) = p ∷ []
in_hand _ = []

-- the packet that is pushed but not counted
abbrev pub uncounted : {Double : Type 0} → Reader Double → ℕ
uncounted added = 1
uncounted _ = 0

module _ (sim : Sim) where
  open sim use {Double}

  -- what a turn needs to know of the packet that is sent
  pub fill_packet-payload_of :
      (now : Double) (n : AppNet Double) (p : Packet Double)
      → let (n', p') = fill_packet sim now n p in
        (payload_of p' ≡ payload_of p)
        × (n'.txsn ≡ (n.txsn + 1) % 2 ^ 32)
        × (n'.pkts_push_queue ≡ n.pkts_push_queue)
  unfolding fill_packet
  fill_packet-payload_of now n p = ground arith

  pub IsPresent-append :
      (t : Timer Double) (q r : List (Packet Double)) → IsPresent t q → IsPresent t (q ++ r)
  IsPresent-append resting q r h = tt
  IsPresent-append seen q r (p, rest, e) = (p, rest ++ r, ap (λ x. x ++ r) e)
  IsPresent-append locked q r (p, rest, e) = (p, rest ++ r, ap (λ x. x ++ r) e)
  IsPresent-append (fronted p) q r (rest, e) = (rest ++ r, ap (λ x. x ++ r) e)
  IsPresent-append (popped p) q r h = tt
  IsPresent-append (sending p) q r h = tt
  IsPresent-append broken q r h = h

  -- a packet that joins the queue
  pub map-queued :
      (sent hand queue new : List (Packet Double))
      → map payload_of sent ++ map payload_of (hand ++ (queue ++ new))
        ≡ (map payload_of sent ++ map payload_of (hand ++ queue)) ++ map payload_of new
  map-queued sent hand queue new =
      ap (λ x. map payload_of sent ++ map payload_of x) (sym (append_assoc hand queue new))
      ∙ ap (λ x. map payload_of sent ++ x) (map-append payload_of (hand ++ queue) new)
      ∙ sym
          (append_assoc (map payload_of sent) (map payload_of (hand ++ queue)) (map payload_of new))

  -- a packet that leaves for the network
  pub map-sent :
      (sent queue : List (Packet Double)) (p p' : Packet Double)
      → payload_of p' ≡ payload_of p
      → map payload_of (sent ++ p' ∷ []) ++ map payload_of queue
        ≡ map payload_of sent ++ map payload_of (p ∷ queue)
  map-sent sent queue p p' e =
      ap (λ x. x ++ map payload_of queue) (map-append payload_of sent (p' ∷ []))
      ∙ append_assoc (map payload_of sent) (payload_of p' ∷ []) (map payload_of queue)
      ∙ ap (λ x. map payload_of sent ++ x ∷ map payload_of queue) e
