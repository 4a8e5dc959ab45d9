-- ===== src/Handover/Order.antt =====
-- Every interleaving of the two threads hands over all packets, in order.
use desert_addon_uwapp_net.Common.{
  ℕ, ◌+◌, ◌%◌, ◌^◌, ◌≡◌, refl, List, [], ◌∷◌, ◌++◌, map, arith, length, length-append, sym, ap,
  subst, ◌∙◌,
}
use mathlib.Core.List.{map-append}
use desert_addon_uwapp_net.Sim.{Sim}
use desert_addon_uwapp_net.Packet.{Packet}
use desert_addon_uwapp_net.AppNet.{Bound, construct}
use desert_addon_uwapp_net.Listener.{new_listener}
use desert_addon_uwapp_net.Listener.Transmit.{fill_packet}
use desert_addon_uwapp_net.Listener.Transmit.Numbering.{payload_of}
use desert_addon_uwapp_net.Handover.{
  resting, locked, fronted, popped, Shared, at_start, Turn, Turns, still, then_turn, reader_locks,
  pushes, counts, looks, timer_locks, fronts, pops, unlocks, sends, look, front, pop, push,
  count_pushed, take_off, send_down,
}
use desert_addon_uwapp_net.Handover.Shape.{
  IsGuarded, IsPresent, in_hand, uncounted, fill_packet-payload_of, IsPresent-append, map-queued,
  map-sent,
}

module _ (sim : Sim) where
  open sim use {Double}

  pub record Orderly (s : Shared sim) : Type 0 where
    pub guarded : IsGuarded s.mutex s.reader s.timer
    pub present : IsPresent s.timer s.listener.queue_pck_read
    pub in_order :
        map payload_of s.sent ++ map payload_of (in_hand s.timer ++ s.listener.queue_pck_read)
        ≡ map payload_of s.pushed
    pub counted : (s.owner.pkts_push_queue + uncounted s.reader) % 2 ^ 32 ≡ length s.pushed % 2 ^ 32
    pub numbered : s.owner.txsn % 2 ^ 32 ≡ (1 + length s.sent) % 2 ^ 32

  start-Orderly :
      (b : Bound Double) (port timeout : ℕ) (buffer : List ℕ)
      → Orderly (at_start sim b port timeout buffer)
  unfolding construct new_listener
  start-Orderly b port timeout buffer = ground arith

  look-Orderly :
      (s : Shared sim) (q : List (Packet Double))
      → s.listener.queue_pck_read ≡ q
      → s.timer ≡ resting
      → Orderly s
      → Orderly (record s { timer = look q })
  unfolding look
  look-Orderly s [] e t o = record {
    guarded = ground (arith, o.guarded);
    present = tt;
    in_order = ground (arith, o.in_order);
    counted = o.counted;
    numbered = o.numbered;
  }
  look-Orderly s (p ∷ rest) e t o = record {
    guarded = ground (arith, o.guarded);
    present = (p, rest, e);
    in_order = ground (arith, o.in_order);
    counted = o.counted;
    numbered = o.numbered;
  }

  front-Orderly :
      (s : Shared sim) (q : List (Packet Double))
      → s.listener.queue_pck_read ≡ q
      → s.timer ≡ locked
      → Orderly s
      → Orderly (record s { timer = front q })
  unfolding front
  front-Orderly s [] e t o = ground (arith, o.present)
  front-Orderly s (p ∷ rest) e t o = record {
    guarded = ground (arith, o.guarded);
    present = (rest, e);
    in_order = ground (arith, o.in_order);
    counted = o.counted;
    numbered = o.numbered;
  }

  take_off-Orderly :
      (s : Shared sim) (p : Packet Double)
      → s.timer ≡ fronted p
      → Orderly s
      → Orderly (take_off sim p s)
  unfolding take_off pop
  take_off-Orderly s p t o =
      let (rest, e) : IsPresent (fronted p) s.listener.queue_pck_read =
        subst (λ x. IsPresent x s.listener.queue_pck_read) t o.present in
      let taken : Orderly
          (record s { listener = record s.listener { queue_pck_read = rest }; timer = popped p }) =
        record {
          guarded = ground (arith, o.guarded);
          present = tt;
          in_order =
              ap (λ q. map payload_of s.sent ++ map payload_of q) (sym e)
              ∙ ap
                  (λ x.
                    map payload_of s.sent
                    ++ map payload_of (in_hand x ++ s.listener.queue_pck_read))
                  (sym t)
              ∙ o.in_order;
          counted = o.counted;
          numbered = o.numbered;
        } in
      subst
        (λ q. Orderly (record s {
          listener = record s.listener { queue_pck_read = (pop p q).1 };
          timer = (pop p q).0;
        }))
        (sym e) taken

  pub Turn-Orderly : {s t : Shared sim} → Turn sim s t → Orderly s → Orderly t
  unfolding push count_pushed take_off send_down look front pop
  Turn-Orderly {s = s} (reader_locks p r m) o = record {
    guarded = ground (arith, o.guarded);
    present = o.present;
    in_order = o.in_order;
    counted = ground (arith, o.counted);
    numbered = o.numbered;
  }
  Turn-Orderly {s = s} (pushes p r) o = record {
    guarded = ground (arith, o.guarded);
    present = IsPresent-append sim s.timer s.listener.queue_pck_read (p ∷ []) o.present;
    in_order =
        map-queued sim s.sent (in_hand s.timer) s.listener.queue_pck_read (p ∷ [])
        ∙ ap (λ x. x ++ map payload_of (p ∷ [])) o.in_order
        ∙ sym (map-append payload_of s.pushed (p ∷ []));
    counted = ground (arith, o.counted, length-append s.pushed (p ∷ []));
    numbered = o.numbered;
  }
  Turn-Orderly {s = s} (counts r) o = record {
    guarded = ground (arith, o.guarded);
    present = o.present;
    in_order = o.in_order;
    counted = ground (arith, o.counted);
    numbered = o.numbered;
  }
  Turn-Orderly {s = s} (looks t) o = look-Orderly s s.listener.queue_pck_read refl t o
  Turn-Orderly {s = s} (timer_locks t m) o = record {
    guarded = ground (arith, o.guarded);
    present = ground (arith, o.present);
    in_order = ground (arith, o.in_order);
    counted = o.counted;
    numbered = o.numbered;
  }
  Turn-Orderly {s = s} (fronts t) o = front-Orderly s s.listener.queue_pck_read refl t o
  Turn-Orderly {s = s} (pops p t) o = take_off-Orderly s p t o
  Turn-Orderly {s = s} (unlocks p t) o = record {
    guarded = ground (arith, o.guarded);
    present = ground arith;
    in_order = ground (arith, o.in_order);
    counted = o.counted;
    numbered = o.numbered;
  }
  Turn-Orderly {s = s} (sends now p t) o =
      let (same, txsn, pushed) = fill_packet-payload_of sim now s.owner p in
      record {
        guarded = ground (arith, o.guarded);
        present = ground arith;
        in_order =
            map-sent sim s.sent s.listener.queue_pck_read p _ same
            ∙ ap
                (λ x.
                  map payload_of s.sent ++ map payload_of (in_hand x ++ s.listener.queue_pck_read))
                (sym t)
            ∙ o.in_order;
        counted = ground (arith, o.counted, pushed);
        numbered = omega (
          arith,
          o.numbered,
          txsn,
          length-append s.sent ((fill_packet sim now s.owner p).1 ∷ []),
        );
      }

  -- However the two threads alternate from a module just constructed on: only the thread that holds
  -- the mutex is in its critical section; `front` and `pop` never meet an empty queue, although the
  -- test for it is made without the mutex; the packets sent down, then the one in hand, then the
  -- queue have the payloads of the packets pushed, in order, so that none is lost, doubled or
  -- overtaken; `pkts_push_queue` counts the packets pushed, and the last number is that of the
  -- packets sent, plus one (both modulo 2 ^ 32).
  pub Turns-Orderly :
      (b : Bound Double) (port timeout : ℕ) (buffer : List ℕ) {s : Shared sim}
      → Turns sim (at_start sim b port timeout buffer) s
      → Orderly s
  Turns-Orderly b port timeout buffer still = start-Orderly b port timeout buffer
  Turns-Orderly b port timeout buffer (then_turn ts t) =
      Turn-Orderly t (Turns-Orderly b port timeout buffer ts)
