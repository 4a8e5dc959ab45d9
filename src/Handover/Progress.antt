-- ===== src/Handover/Progress.antt =====
-- The mutex cannot lock the two threads up.
use desert_addon_uwapp_net.Common.{ℕ, ◌≡◌, refl, ap, List, arith, subst}
use desert_addon_uwapp_net.Sim.{Sim}
use desert_addon_uwapp_net.Packet.{Packet}
use desert_addon_uwapp_net.AppNet.{Bound}
use desert_addon_uwapp_net.Handover.{
  Mutex, free, by_reader, by_timer, Reader, reading, holding, added, Timer, resting, seen, locked,
  fronted, popped, sending, broken, Shared, at_start, Turn, Turns, still, then_turn, pushes, counts,
  timer_locks, fronts, pops, unlocks, sends, front, pop, push, count_pushed, take_off, send_down,
}
use desert_addon_uwapp_net.Handover.Shape.{timer_inside, IsPresent}
use desert_addon_uwapp_net.Handover.Order.{Orderly, Turn-Orderly, Turns-Orderly}

module _ (sim : Sim) where
  open sim use {Double, zero_double}

  -- Both threads are out of their critical sections, and the timer has nothing left to do.
  pub record IsAtRest (s : Shared sim) : Type 0 where
    pub unheld : s.mutex ≡ free
    pub waits : s.reader ≡ reading
    pub rests : s.timer ≡ resting

  Settles : Shared sim → Type 0
  Settles s = (u : Shared sim) × Turns sim s u × IsAtRest u

  prepend : {s t u : Shared sim} → Turn sim s t → Turns sim t u → Turns sim s u
  prepend one still = then_turn still one
  prepend one (then_turn more last) = then_turn (prepend one more) last

  prepend-Settles : {s t : Shared sim} → Turn sim s t → Settles t → Settles s
  unfolding Settles
  prepend-Settles one (u, more, r) = (u, prepend one more, r)

  -- With both threads outside, nobody holds the mutex.
  free_mutex :
      (s : Shared sim) (m : Mutex)
      → s.mutex ≡ m
      → s.reader ≡ reading
      → timer_inside s.timer ≡ 0
      → Orderly sim s
      → s.mutex ≡ free
  free_mutex s free e r t o = e
  free_mutex s by_reader e r t o = ground (arith, o.guarded)
  free_mutex s by_timer e r t o = ground (arith, o.guarded)

  settled : (s : Shared sim) → s.reader ≡ reading → s.timer ≡ resting → Orderly sim s → Settles s
  unfolding Settles
  settled s r t o = (
    s,
    still,
    record { unheld = free_mutex s s.mutex refl r (ap timer_inside t) o; waits = r; rests = t },
  )

  sending-Settles :
      (s : Shared sim) (p : Packet Double)
      → s.reader ≡ reading
      → s.timer ≡ sending p
      → Orderly sim s
      → Settles s
  unfolding send_down
  sending-Settles s p r t o =
      let one = sends zero_double p t in
      prepend-Settles one (settled (send_down sim zero_double p s) r refl (Turn-Orderly sim one o))

  popped-Settles :
      (s : Shared sim) (p : Packet Double)
      → s.reader ≡ reading
      → s.timer ≡ popped p
      → Orderly sim s
      → Settles s
  popped-Settles s p r t o =
      let one = unlocks p t in
      prepend-Settles one (sending-Settles _ p r refl (Turn-Orderly sim one o))

  fronted-Settles :
      (s : Shared sim) (p : Packet Double)
      → s.reader ≡ reading
      → s.timer ≡ fronted p
      → Orderly sim s
      → Settles s
  unfolding take_off pop
  fronted-Settles s p r t o =
      let one = pops p t in
      let (rest, e) : IsPresent (fronted p) s.listener.queue_pck_read =
        subst (λ x. IsPresent x s.listener.queue_pck_read) t o.present in
      prepend-Settles one
        (popped-Settles (take_off sim p s) p r (ap (λ q. (pop p q).0) e) (Turn-Orderly sim one o))

  locked-Settles :
      (s : Shared sim) → s.reader ≡ reading → s.timer ≡ locked → Orderly sim s → Settles s
  unfolding front
  locked-Settles s r t o =
      let one = fronts t in
      let (p, rest, e) : IsPresent locked s.listener.queue_pck_read =
        subst (λ x. IsPresent x s.listener.queue_pck_read) t o.present in
      prepend-Settles one (fronted-Settles _ p r (ap front e) (Turn-Orderly sim one o))

  seen-Settles : (s : Shared sim) → s.reader ≡ reading → s.timer ≡ seen → Orderly sim s → Settles s
  seen-Settles s r t o =
      let one = timer_locks t (free_mutex s s.mutex refl r (ap timer_inside t) o) in
      prepend-Settles one (locked-Settles _ r refl (Turn-Orderly sim one o))

  timer-Settles :
      (s : Shared sim) (t : Timer Double)
      → s.timer ≡ t
      → s.reader ≡ reading
      → Orderly sim s
      → Settles s
  timer-Settles s resting t r o = settled s r t o
  timer-Settles s seen t r o = seen-Settles s r t o
  timer-Settles s locked t r o = locked-Settles s r t o
  timer-Settles s (fronted p) t r o = fronted-Settles s p r t o
  timer-Settles s (popped p) t r o = popped-Settles s p r t o
  timer-Settles s (sending p) t r o = sending-Settles s p r t o
  timer-Settles s broken t r o =
      absurd (subst (λ x. IsPresent x s.listener.queue_pck_read) t o.present)

  added-Settles : (s : Shared sim) → s.reader ≡ added → Orderly sim s → Settles s
  unfolding count_pushed
  added-Settles s r o =
      let one = counts r in
      prepend-Settles one
        (timer-Settles (count_pushed sim s) s.timer refl refl (Turn-Orderly sim one o))

  reader-Settles : (s : Shared sim) (r : Reader Double) → s.reader ≡ r → Orderly sim s → Settles s
  unfolding push
  reader-Settles s reading r o = timer-Settles s s.timer refl r o
  reader-Settles s (holding p) r o =
      let one = pushes p r in
      prepend-Settles one (added-Settles (push sim p s) refl (Turn-Orderly sim one o))
  reader-Settles s added r o = added-Settles s r o

  -- From every state that the two threads can reach, whoever holds the mutex, there are turns that
  -- lead to a state in which nobody holds it, the listening thread waits for the next message, and
  -- the timer has completed its expiry: neither thread can be blocked for good.
  pub Turns-settle :
      (b : Bound Double) (port timeout : ℕ) (buffer : List ℕ) {s : Shared sim}
      → Turns sim (at_start sim b port timeout buffer) s
      → (u : Shared sim) × Turns sim s u × IsAtRest u
  unfolding Settles
  Turns-settle b port timeout buffer {s} ts =
      reader-Settles s s.reader refl (Turns-Orderly sim b port timeout buffer ts)
