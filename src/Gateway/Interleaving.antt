-- ===== src/Gateway/Interleaving.antt =====
-- From the queue between the two threads of one module, whose steps may alternate in any way, to the
-- TCP client of another.
use desert_addon_uwapp_net.Common.{
  ℕ, ◌≤◌, ◌≡◌, refl, sym, ap, ◌∙◌, false, some, List, [], ◌∷◌, ◌++◌, map, arith, length, All,
  All-append_left, take, take-append_self, length-map,
}
use mathlib.Core.Path.{ap₂}
use mathlib.Core.List.{append_assoc, map-append, head-eq_of_cons-eq, tail-eq_of_cons-eq, cons≢nil}
use desert_addon_uwapp_net.Sim.{Sim}
use desert_addon_uwapp_net.Kernel.{Kernel}
use desert_addon_uwapp_net.Packet.{Packet}
use desert_addon_uwapp_net.AppNet.{AppNet, Bound, construct}
use desert_addon_uwapp_net.AppNet.Order.{construct-IsInOrder}
use desert_addon_uwapp_net.AppNet.Receive.{count_all}
use desert_addon_uwapp_net.AppNet.Sequence.{arrive, Consecutive}
use desert_addon_uwapp_net.Console.{logs_at}
use desert_addon_uwapp_net.Listener.Send.Framing.{Sink}
use desert_addon_uwapp_net.Listener.Send.Carrier.{sink_carrier}
use desert_addon_uwapp_net.Listener.Handle.Queue.{HasPayload, content}
use desert_addon_uwapp_net.Listener.Handle.Messages.{frames}
use desert_addon_uwapp_net.Listener.Transmit.Numbering.{payload_of, payload_of-HasPayload}
use desert_addon_uwapp_net.Handover.{Shared}
use desert_addon_uwapp_net.Handover.Shape.{in_hand}
use desert_addon_uwapp_net.Handover.Order.{Orderly}
use desert_addon_uwapp_net.Handover.Sequence.{InSequence, InSequence-Consecutive}
use desert_addon_uwapp_net.Handover.Reading.{Serving, Strides}
use desert_addon_uwapp_net.Handover.Reading.Told.{Strides-Told, begun, held_by}
use desert_addon_uwapp_net.Listener.{Listener}
use desert_addon_uwapp_net.Listener.Receive.Peer.{Peer}
use desert_addon_uwapp_net.Listener.Handle.Parsing.{messages_of}
use desert_addon_uwapp_net.Exchange.{from_two, construct-hrsn}
use desert_addon_uwapp_net.Node.{Held, Node, recv_all}
use desert_addon_uwapp_net.Node.Forwarding.{IsConnected, recv_all-Carried}
use desert_addon_uwapp_net.Gateway.{arrive_sound}

-- Packets with the same payloads have the same contents.
payload_of-content :
    {Double : Type 0} (ps qs : List (Packet Double))
    → map payload_of ps ≡ map payload_of qs
    → map content ps ≡ map content qs
payload_of-content [] [] e = refl
payload_of-content [] (q ∷ qs) e = absurd (cons≢nil (sym e))
payload_of-content (p ∷ ps) [] e = absurd (cons≢nil e)
payload_of-content (p ∷ ps) (q ∷ qs) e =
    ap₂ ◌∷◌ (ap (λ (v : List ℕ × ℕ × ℕ). take v.1 v.0) (head-eq_of_cons-eq e))
      (payload_of-content ps qs (tail-eq_of_cons-eq e))

module _ (sim : Sim) where
  open sim use {Double}

  -- Packets numbered from 2 on all pass at a new receiver.
  accepts_all :
      (to : Bound Double) (ts : List Double) (ps : List (Packet Double))
      → to.drop_out_of_order ≡ 1
      → length ts ≡ length ps
      → length ps ≤ 65533
      → Consecutive sim 2 ps
      → (n' : AppNet Double) × (count_all sim (arrive ts ps) (construct sim to) ≡ some (n', ps))
  unfolding count_all
  accepts_all to [] [] e l room c = (construct sim to, refl)
  accepts_all to (t ∷ ts) [] e l room c = absurd (omega (arith, l))
  accepts_all to ts (p ∷ ps) e l room c =
      let (n', ran, a) =
        from_two sim ts (p ∷ ps) (construct sim to) (construct-IsInOrder sim to e)
          (construct-hrsn sim to) l (omega arith) (omega (arith, room)) c in
      (n', ran)

  -- The messages that are sent down are the first of those that are pushed.
  Orderly-sent :
      (s : Shared sim)
      → Orderly sim s
      → (rest : List (Packet Double)) × (map content s.sent ++ map content rest
          ≡ map content s.pushed)
        × (map payload_of (s.sent ++ rest) ≡ map payload_of s.pushed)
  Orderly-sent s o =
      let rest = in_hand s.timer ++ s.listener.queue_pck_read in
      let payloads = map-append payload_of s.sent rest ∙ o.in_order in
      (
        rest,
        sym (map-append content s.sent rest)
            ∙ payload_of-content (s.sent ++ rest) s.pushed payloads,
        payloads,
      )

  take-first :
      (s : Shared sim) (rest msgs : List (List ℕ))
      → map content s.sent ++ rest ≡ msgs
      → take (length s.sent) msgs ≡ map content s.sent
  take-first s rest msgs e =
      ap (take (length s.sent)) (sym e)
      ∙ ap (λ n. take n (map content s.sent ++ rest)) (sym (length-map content s.sent))
      ∙ take-append_self (map content s.sent) rest

module _ (sim : Sim) (os : Kernel) where
  open sim use {Double}

  -- What the timer of a module has sent down goes to the client of another.
  gateway-Orderly :
      (to : Bound Double) {s : Shared sim} {fd : ℕ} (k : Sink os fd) (arrivals : List Double)
      (h : Held sim os) (b : Node sim os)
      → Orderly sim s
      → InSequence sim 2 s.sent
      → All HasPayload s.pushed
      → length s.sent ≤ 65533
      → length arrivals ≡ length s.sent
      → to.drop_out_of_order ≡ 1
      → logs_at 1 to.debug ≡ false
      → b.app ≡ construct sim to
      → IsConnected sim os fd h b
      → (b' : Node sim os) × (recv_all sim os (arrive arrivals s.sent) b ≡ some b')
        × (k.sent b'.sys ≡ k.sent b.sys ++ frames (map content s.sent))
  unfolding construct
  gateway-Orderly to {s} k arrivals h b o numbers sound room la drop quiet new c =
      let consecutive = InSequence-Consecutive sim 2 s.sent (omega (arith, room)) numbers in
      let (n', counted) = accepts_all sim to arrivals s.sent drop la room consecutive in
      let (rest, contents, payloads) = Orderly-sent sim s o in
      let sent_sound : All HasPayload s.sent =
        All-append_left HasPayload s.sent rest
          (payload_of-HasPayload (s.sent ++ rest) s.pushed payloads sound) in
      let (b', ran, app, f) =
        recv_all-Carried sim os (sink_carrier k) h (arrive arrivals s.sent) b c
          (arrive_sound arrivals s.sent sent_sound)
          (ap (λ (n : AppNet Double). logs_at 1 n.debug) new ∙ quiet)
          (ap (count_all sim (arrive arrivals s.sent)) new ∙ counted) in
      (b', ran, f.sent)

module _ (sim : Sim) (os_a os_b : Kernel) where
  open sim use {Double}

  -- A client of module A has sent any bytes whatever and closed its end; A was just constructed, with
  -- a listener whose queue is empty. However the listening thread, which reads from the client and
  -- queues packets, and the timer, which sends them down, alternate: if at most 65533 packets have
  -- been sent down by now, and these arrive, all and in order, at a module B just constructed with
  -- `drop_out_of_order` 1 and a debug level below 1, whose client is connected and takes all bytes,
  -- then B does not fault, and its client is sent exactly the frames of the first messages in the
  -- bytes of A's client, as many as packets have been sent down, in order.
  pub gateway-Strides :
      (from to : Bound Double) {fd_a fd_b : ℕ} (p : Peer os_a fd_a) (k : Sink os_b fd_b)
      (l : Listener Double) (sys : os_a.State) {c : Serving sim os_a} (arrivals : List Double)
      (h : Held sim os_b) (b : Node sim os_b)
      → l.queue_pck_read ≡ []
      → l.cln_sock_descr ≡ fd_a
      → length l.buffer_msg ≡ 4096
      → Strides sim os_a (begun sim os_a p from l sys) c
      → length c.shared.sent ≤ 65533
      → length arrivals ≡ length c.shared.sent
      → to.drop_out_of_order ≡ 1
      → logs_at 1 to.debug ≡ false
      → b.app ≡ construct sim to
      → IsConnected sim os_b fd_b h b
      → (b' : Node sim os_b) × (recv_all sim os_b (arrive arrivals c.shared.sent) b ≡ some b')
        × (k.sent b'.sys
            ≡ k.sent b.sys ++ frames (take (length c.shared.sent) (messages_of (p.pending sys))))
  gateway-Strides from to p k l sys {c} arrivals h b empty client full ts room la drop quiet new
        connected =
      let v = Strides-Told sim os_a p from l sys empty client full ts in
      let made = held_by c.shared.reader in
      let left = messages_of (p.pending c.sys) in
      let (rest, contents, payloads) = Orderly-sent sim c.shared v.orderly in
      let (b', ran, sent) =
        gateway-Orderly sim os_b to k arrivals h b v.orderly v.sequence
          (All-append_left HasPayload c.shared.pushed made v.sound) room la drop quiet new
          connected in
      let whole : map content c.shared.sent ++ (map content rest ++ (map content made ++ left))
          ≡ messages_of (p.pending sys) =
        sym (append_assoc (map content c.shared.sent) (map content rest) (map content made ++ left))
        ∙ ap (λ t. t ++ (map content made ++ left)) contents
        ∙ sym (append_assoc (map content c.shared.pushed) (map content made) left)
        ∙ ap (λ t. t ++ left) (sym (map-append content c.shared.pushed made))
        ∙ v.told in
      (b', ran, sent ∙ ap (λ m. k.sent b.sys ++ frames m) (sym (take-first sim c.shared _ _ whole)))
