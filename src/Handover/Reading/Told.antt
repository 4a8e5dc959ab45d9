-- ===== src/Handover/Reading/Told.antt =====
-- The packets that the two threads have between them hold what the client has sent.
use desert_addon_uwapp_net.Common.{
  ℕ, ◌≡◌, refl, sym, ap, ◌∙◌, subst, some, List, [], ◌∷◌, ◌++◌, map, arith, length, take, All,
  All-append,
}
use mathlib.Core.Option.{some-injective}
use mathlib.Core.List.{append_assoc, map-append, append-nil}
use desert_addon_uwapp_net.Sim.{Sim}
use desert_addon_uwapp_net.Kernel.{Kernel}
use desert_addon_uwapp_net.Packet.{Packet}
use desert_addon_uwapp_net.AppNet.{Bound}
use desert_addon_uwapp_net.Listener.{Listener, new_listener}
use desert_addon_uwapp_net.Listener.Receive.Peer.{Peer}
use desert_addon_uwapp_net.Listener.Handle.{make_packet}
use desert_addon_uwapp_net.Listener.Handle.Queue.{content, HasPayload, Made, make_packet-Made}
use desert_addon_uwapp_net.Listener.Transmit.Numbering.{payload_of}
use desert_addon_uwapp_net.Listener.Handle.Parsing.{messages_of}
use desert_addon_uwapp_net.Handover.Reading.Receiving.{
  Polled, Got, ready_to_read-Polled, receive_packet-Got,
}
use desert_addon_uwapp_net.Handover.{
  free, by_reader, reading, holding, Reader, Shared, at_start, Turn, reader_locks, pushes, counts,
  looks, timer_locks, fronts, pops, unlocks, sends, push, count_pushed, take_off, send_down, still,
}
use desert_addon_uwapp_net.Handover.Shape.{IsPresent, in_hand}
use desert_addon_uwapp_net.Handover.Order.{Orderly, Turn-Orderly, Turns-Orderly}
use desert_addon_uwapp_net.Handover.Sequence.{InSequence, Turn-InSequence}
use desert_addon_uwapp_net.Handover.Reading.{
  Serving, IsInner, Stride, idles, receives, turns, Strides, stands, then_stride,
}

-- the packet that the listening thread is about to push
abbrev pub held_by : {Double : Type 0} → Reader Double → List (Packet Double)
held_by (holding p) = p ∷ []
held_by _ = []

module _ (sim : Sim) where
  open sim use {Double}

  -- the packets that the listening thread has made so far
  abbrev pub handed : Shared sim → List (Packet Double)
  handed s = s.pushed ++ held_by s.reader

  -- what the turns on the queue leave as it is
  record Keeps (s t : Shared sim) : Type 0 where
    made : handed t ≡ handed s
    client : t.listener.cln_sock_descr ≡ s.listener.cln_sock_descr
    buffer : t.listener.buffer_msg ≡ s.listener.buffer_msg

  pushed-handed :
      (ps : List (Packet Double)) (q : Packet Double) (r : Reader Double)
      → r ≡ holding q
      → (ps ++ q ∷ []) ++ [] ≡ ps ++ held_by r
  pushed-handed ps q r e =
      append-nil (ps ++ q ∷ []) ∙ ap (λ (x : Reader Double). ps ++ held_by x) (sym e)

  Turn-Keeps : (os : Kernel) {s t : Shared sim} (m : Turn sim s t) → IsInner sim os m → Keeps s t
  unfolding push count_pushed take_off send_down
  Turn-Keeps os (reader_locks q r m) i = absurd i
  Turn-Keeps os {s} (pushes q r) i = record {
    made = pushed-handed s.pushed q s.reader r;
    client = refl;
    buffer = refl;
  }
  Turn-Keeps os {s} (counts r) i = record {
    made = ap (λ (x : Reader Double). s.pushed ++ held_by x) (sym r);
    client = refl;
    buffer = refl;
  }
  Turn-Keeps os (looks t) i = record { made = refl; client = refl; buffer = refl }
  Turn-Keeps os (timer_locks t m) i = record { made = refl; client = refl; buffer = refl }
  Turn-Keeps os (fronts t) i = record { made = refl; client = refl; buffer = refl }
  Turn-Keeps os (pops q t) i = record { made = refl; client = refl; buffer = refl }
  Turn-Keeps os (unlocks q t) i = record { made = refl; client = refl; buffer = refl }
  Turn-Keeps os (sends now q t) i = record { made = refl; client = refl; buffer = refl }

  -- Only the queue of the listener matters.
  listener-Orderly :
      (s : Shared sim) (l : Listener Double)
      → l.queue_pck_read ≡ s.listener.queue_pck_read
      → Orderly sim s
      → Orderly sim (record s { listener = l })
  listener-Orderly s l e o = record {
    guarded = o.guarded;
    present = subst (IsPresent s.timer) (sym e) o.present;
    in_order =
        ap (λ q. map payload_of s.sent ++ map payload_of (in_hand s.timer ++ q)) e ∙ o.in_order;
    counted = o.counted;
    numbered = o.numbered;
  }

module _ (sim : Sim) (os : Kernel) {fd : ℕ} (p : Peer os fd) where
  open sim use {Double}

  -- Of these messages the first are in the packets pushed, the next may be in the hands of the
  -- listening thread, and the others have not been read.
  pub record Told (msgs : List (List ℕ)) (c : Serving sim os) : Type 0 where
    pub orderly : Orderly sim c.shared
    pub sequence : InSequence sim 2 c.shared.sent
    pub client : c.shared.listener.cln_sock_descr ≡ fd
    pub buffer : length c.shared.listener.buffer_msg ≡ 4096
    pub sound : All HasPayload (handed sim c.shared)
    pub told : map content (handed sim c.shared) ++ messages_of (p.pending c.sys) ≡ msgs

  Turn-Told :
      {msgs : List (List ℕ)} {c : Serving sim os} {t : Shared sim} (m : Turn sim c.shared t)
      → IsInner sim os m
      → Told msgs c
      → Told msgs (record c { shared = t })
  Turn-Told {msgs} {c} {t} m i v =
      let k = Turn-Keeps sim os m i in
      record {
        orderly = Turn-Orderly sim m v.orderly;
        sequence = Turn-InSequence sim m v.orderly v.sequence;
        client = k.client ∙ v.client;
        buffer = ap length k.buffer ∙ v.buffer;
        sound = subst (All HasPayload) (sym k.made) v.sound;
        told = ap (λ ps. map content ps ++ messages_of (p.pending c.sys)) k.made ∙ v.told;
      }

  -- a packet that is made of the message that comes next
  receives-Told :
      {msgs : List (List ℕ)} (c : Serving sim os) (l₂ : Listener Double) (s₁ s₂ : os.State) (n : ℕ)
      (q : Packet Double) (l₁ : Listener Double)
      → c.shared.reader ≡ reading
      → c.shared.mutex ≡ free
      → Polled sim os p c.shared.listener c.sys l₁ s₁
      → Got sim os p l₁ s₁ n l₂ s₂
      → make_packet sim n l₂.buffer_msg ≡ some q
      → Told msgs c
      → Told msgs (record c {
        shared = record c.shared { listener = l₂; mutex = by_reader; reader = holding q };
        sys = s₂;
      })
  receives-Told {msgs} c l₂ s₁ s₂ n q l₁ r m polled got made v =
      let s : Shared sim = record c.shared { mutex = by_reader; reader = holding q } in
      let (q', e, w) =
        make_packet-Made sim n l₂.buffer_msg (omega (arith, got.size, got.fits)) got.buffer in
      let same : q' ≡ q = some-injective _ _ (sym e ∙ made) in
      let whole : Made sim n l₂.buffer_msg q = subst (Made sim n l₂.buffer_msg) same w in
      let carries : content q ≡ got.msg =
        whole.carries ∙ ap (λ k. take k l₂.buffer_msg) got.size ∙ got.begins in
      let before : handed sim c.shared ≡ c.shared.pushed =
        ap (λ (x : Reader Double). c.shared.pushed ++ held_by x) r ∙ append-nil c.shared.pushed in
      record {
        orderly =
            listener-Orderly sim s l₂ (got.queue ∙ polled.queue)
              (Turn-Orderly sim (reader_locks q r m) v.orderly);
        sequence = v.sequence;
        client = got.client ∙ polled.client ∙ v.client;
        buffer = got.buffer;
        sound =
            All-append HasPayload c.shared.pushed (q ∷ []) (subst (All HasPayload) before v.sound)
              (whole.payload, tt);
        told =
            ap (λ t. t ++ messages_of (p.pending s₂)) (map-append content c.shared.pushed (q ∷ []))
            ∙ append_assoc (map content c.shared.pushed) (content q ∷ [])
                (messages_of (p.pending s₂))
            ∙ ap (λ x. map content c.shared.pushed ++ (x ∷ messages_of (p.pending s₂))) carries
            ∙ ap (λ t. map content c.shared.pushed ++ t)
                (sym (ap messages_of (sym polled.pending) ∙ got.messages))
            ∙ ap (λ ps. map content ps ++ messages_of (p.pending c.sys)) (sym before)
            ∙ v.told;
      }

  Stride-Told :
      {msgs : List (List ℕ)} {c d : Serving sim os} → Stride sim os c d → Told msgs c → Told msgs d
  Stride-Told {msgs} {c} (idles {l} {s} r e) v =
      let q = ready_to_read-Polled sim os p c.shared.listener c.sys v.client e in
      absurd (ground (arith, q.ready, e))
  Stride-Told (turns m i) v = Turn-Told m i v
  Stride-Told {msgs} {c} (receives {l₁} {l₂} {s₁} {s₂} {n} {p = q} r m ready ran positive made) v =
      let polled = ready_to_read-Polled sim os p c.shared.listener c.sys v.client ready in
      let got =
        receive_packet-Got sim os p l₁ s₁ (polled.client ∙ v.client)
          (ap length polled.buffer ∙ v.buffer) ran positive in
      receives-Told c l₂ s₁ s₂ n q l₁ r m polled got made v

  -- a module just constructed, with a listener whose queue is empty
  abbrev pub begun : Bound Double → Listener Double → os.State → Serving sim os
  begun b l s = record {
    shared = record (at_start sim b l.port l.read_timeout l.buffer_msg) { listener = l };
    sys = s;
  }

  begun-Told :
      (b : Bound Double) (l : Listener Double) (s : os.State)
      → l.queue_pck_read ≡ []
      → l.cln_sock_descr ≡ fd
      → length l.buffer_msg ≡ 4096
      → Told (messages_of (p.pending s)) (begun b l s)
  unfolding new_listener
  begun-Told b l s empty c full = record {
    orderly =
        listener-Orderly sim (at_start sim b l.port l.read_timeout l.buffer_msg) l empty
          (Turns-Orderly sim b l.port l.read_timeout l.buffer_msg still);
    sequence = tt;
    client = c;
    buffer = full;
    sound = tt;
    told = refl;
  }

  pub Strides-Told :
      (b : Bound Double) (l : Listener Double) (s : os.State) {c : Serving sim os}
      → l.queue_pck_read ≡ []
      → l.cln_sock_descr ≡ fd
      → length l.buffer_msg ≡ 4096
      → Strides sim os (begun b l s) c
      → Told (messages_of (p.pending s)) c
  Strides-Told b l s empty c full stands = begun-Told b l s empty c full
  Strides-Told b l s empty c full (then_stride ds d) =
      Stride-Told d (Strides-Told b l s empty c full ds)
