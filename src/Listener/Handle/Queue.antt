-- ===== src/Listener/Handle/Queue.antt =====
-- The packets that `HandleTCPclient` puts into the queue.
use desert_addon_uwapp_net.Common.{
  ℕ, ◌≤◌, ◌<◌, ◌≡◌, sym, ◌∙◌, ap, none, some, List, [], ◌∷◌, ◌++◌, arith, All, length, take, drop,
  length-append, length-take, length-drop, take-append_self, size_of_int, u16, minus_one,
}
use desert_addon_uwapp_net.Sim.{Sim}
use desert_addon_uwapp_net.Kernel.{Kernel}
use desert_addon_uwapp_net.Packet.{Packet, max_length_payload}
use desert_addon_uwapp_net.AppNet.{incr_pkts_push_queue}
use desert_addon_uwapp_net.Listener.{Listener}
use desert_addon_uwapp_net.Listener.Wire.{memcpy}
use desert_addon_uwapp_net.Listener.Handle.{Work, make_packet, enqueue}

-- the bytes that a packet carries
abbrev pub content : {Double : Type 0} → Packet Double → List ℕ
content p = take p.payload_size p.payload_msg

-- The array of the header has its full size, and the sizes of the packet are within it.
pub record HasPayload {Double : Type 0} (p : Packet Double) : Type 0 where
  pub room : length p.payload_msg ≡ max_length_payload
  pub within : p.payload_size ≤ max_length_payload
  pub same : p.size ≡ p.payload_size

pub take-memcpy :
    (dst src : List ℕ) (n : ℕ)
    → n ≤ length src
    → n ≤ length dst
    → (out : List ℕ) × (memcpy dst src n ≡ some out)
      × (take n out ≡ take n src)
      × (length out ≡ length dst)
unfolding memcpy
take-memcpy dst src n hs hd =
    let len : length (take n src) ≡ n = omega (arith, length-take n src) in
    (
      take n src ++ drop n dst,
      ground arith,
      sym (ap (λ k. take k (take n src ++ drop n dst)) len)
          ∙ take-append_self (take n src) (drop n dst),
      omega (arith, length-append (take n src) (drop n dst), length-drop n dst, len),
    )

pub memcpy-outside : (dst src : List ℕ) (n : ℕ) → length dst < n → memcpy dst src n ≡ none
unfolding memcpy
memcpy-outside dst src n h = ground arith

module _ (sim : Sim) where
  open sim use {Double, alloc, alloc_room}

  -- what `make_packet` makes of the first `n` bytes of a buffer
  pub record Made (n : ℕ) (buffer : List ℕ) (p : Packet Double) : Type 0 where
    pub sized : p.payload_size ≡ n
    pub payload : HasPayload p
    pub carries : content p ≡ take n buffer

  pub make_packet-Made :
      (n : ℕ) (buffer : List ℕ)
      → n ≤ max_length_payload
      → length buffer ≡ max_length_payload
      → (p : Packet Double) × (make_packet sim n buffer ≡ some p) × Made n buffer p
  unfolding make_packet
  make_packet-Made n buffer small full =
      let (out, e, t, len) =
        take-memcpy alloc.payload_msg buffer n (omega arith) (omega (arith, alloc_room)) in
      let narrow : u16 n ≡ n = omega arith in
      let wide : size_of_int n ≡ n = ground arith in
      (
        record alloc {
          app = record alloc.app { payload_msg = out; payload_size = u16 n };
          size = n;
        },
        rw (wide, e),
        record {
          sized = narrow;
          payload = record { room = len ∙ alloc_room; within = omega arith; same = sym narrow };
          carries = ap (λ k. take k out) narrow ∙ t;
        },
      )

  -- A negative count is a copy of nearly 2 ^ 64 bytes.
  pub make_packet-negative : (buffer : List ℕ) → make_packet sim minus_one buffer ≡ none
  unfolding make_packet
  make_packet-negative buffer =
      rw (
        memcpy-outside alloc.payload_msg buffer (size_of_int minus_one) (omega (arith, alloc_room)))

module _ (sim : Sim) (os : Kernel) where
  open sim use {Double}

  -- The buffer has its size, and every packet of the queue its payload.
  pub record IsSound (l : Listener Double) : Type 0 where
    pub buffer : length l.buffer_msg ≡ max_length_payload
    pub queued : All HasPayload l.queue_pck_read

  pub All-snoc :
      (ps : List (Packet Double)) (p : Packet Double)
      → All HasPayload ps
      → HasPayload p
      → All HasPayload (ps ++ p ∷ [])
  All-snoc [] p h hp = (hp, tt)
  All-snoc (q ∷ ps) p h hp = (h.0, All-snoc ps p h.1 hp)

  -- what a message of `n` bytes does, when it is not the end of the connection
  pub enqueue-some :
      (n : ℕ) (w : Work sim os)
      → n ≤ max_length_payload
      → IsSound w.listener
      → (p : Packet Double) × (enqueue sim os n w
          ≡ some (record w {
            owner = incr_pkts_push_queue w.owner;
            listener = record w.listener { queue_pck_read = w.listener.queue_pck_read ++ p ∷ [] };
          }))
        × Made sim n w.listener.buffer_msg p
  unfolding enqueue
  enqueue-some n w small sound =
      let (p, e, made) = make_packet-Made sim n w.listener.buffer_msg small sound.buffer in
      (p, rw (e, enqueue), made)

  pub enqueue-negative : (w : Work sim os) → enqueue sim os minus_one w ≡ none
  unfolding enqueue
  enqueue-negative w = rw (make_packet-negative sim w.listener.buffer_msg)
