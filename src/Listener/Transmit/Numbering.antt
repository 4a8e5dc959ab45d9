-- ===== src/Listener/Transmit/Numbering.antt =====
-- The packets that `init_Packet_TCP` sends down: in the order of the queue, numbered in sequence.
use desert_addon_uwapp_net.Common.{
  ℕ, suc, ◌+◌, ◌%◌, ◌^◌, ◌≡◌, refl, sym, ap, ◌∙◌, All, Option, none, some, List, [], ◌∷◌, map,
  arith, length, take, drop, take-nil, drop-nil,
}
use mathlib.Core.Path.{ap₂, subst₂}
use mathlib.Core.List.{head-eq_of_cons-eq, tail-eq_of_cons-eq, cons≢nil}
use desert_addon_uwapp_net.Sim.{Sim}
use desert_addon_uwapp_net.Packet.{Packet}
use desert_addon_uwapp_net.AppNet.{AppNet}
use desert_addon_uwapp_net.Listener.{Listener}
use desert_addon_uwapp_net.Listener.Handle.Queue.{content, HasPayload}
use desert_addon_uwapp_net.Listener.Transmit.{fill_packet, init_packet_tcp, with_sent, transmit_all}

-- the array, how much of it is used, and the size of the packet
abbrev pub payload_of : {Double : Type 0} → Packet Double → List ℕ × ℕ × ℕ
payload_of p = (p.payload_msg, p.payload_size, p.size)

-- Packets with the same payloads as sound ones are sound.
pub payload_of-HasPayload :
    {Double : Type 0} (ps qs : List (Packet Double))
    → map payload_of ps ≡ map payload_of qs
    → All HasPayload qs
    → All HasPayload ps
payload_of-HasPayload [] [] e h = tt
payload_of-HasPayload [] (q ∷ qs) e h = tt
payload_of-HasPayload (p ∷ ps) [] e h = absurd (cons≢nil e)
payload_of-HasPayload (p ∷ ps) (q ∷ qs) e h = (
  ground (arith, head-eq_of_cons-eq e, h.0),
  payload_of-HasPayload ps qs (tail-eq_of_cons-eq e) h.1,
)

module _ (sim : Sim) where
  open sim use {Double, pt_data_application, down}

  -- Application packets that carry the numbers `sn`, `sn + 1`, … and the uids `uid`, `uid + 1`, …,
  -- for this port and this address.
  abbrev pub Numbered : (port addr sn uid : ℕ) → List (Packet Double) → Type 0
  Numbered port addr sn uid [] = Unit
  Numbered port addr sn uid (p ∷ ps) =
      (p.sn ≡ sn % 2 ^ 16)
      × (p.uid ≡ uid % 2 ^ 32)
      × (p.ptype ≡ pt_data_application)
      × (p.dport ≡ port)
      × (p.daddr ≡ addr)
      × Numbered port addr (sn + 1) (uid + 1) ps

  -- Only the numbers modulo 2 ^ 32 matter.
  Numbered-mod :
      (port addr sn uid sn' uid' : ℕ) (ps : List (Packet Double))
      → sn % 2 ^ 32 ≡ sn' % 2 ^ 32
      → uid % 2 ^ 32 ≡ uid' % 2 ^ 32
      → Numbered port addr sn uid ps
      → Numbered port addr sn' uid' ps
  Numbered-mod port addr sn uid sn' uid' [] e u h = tt
  Numbered-mod port addr sn uid sn' uid' (p ∷ ps) e u h = (
    omega arith,
    omega arith,
    h.2,
    h.3,
    h.4,
    Numbered-mod port addr (sn + 1) (uid + 1) (sn' + 1) (uid' + 1) ps (omega arith) (omega arith)
        h.5,
  )

  -- what a sequence of expiries of the timer has sent
  pub record Sent (count : ℕ) (n : AppNet Double) (l : Listener Double) (l' : Listener Double)
      (sent : List (Packet Double)) : Type 0 where
    pub queue : l'.queue_pck_read ≡ drop count l.queue_pck_read
    pub contents : map content sent ≡ map content (take count l.queue_pck_read)
    pub payloads : map payload_of sent ≡ map payload_of (take count l.queue_pck_read)
    pub numbered : Numbered n.port_num n.dst_addr (n.txsn + 1) (n.uidcnt + 1) sent

  -- what a packet of the queue becomes
  record Filled (n : AppNet Double) (p : Packet Double) (n' : AppNet Double) (p' : Packet Double)
      : Type 0 where
    carries : content p' ≡ content p
    payload : payload_of p' ≡ payload_of p
    port : n'.port_num ≡ n.port_num
    addr : n'.dst_addr ≡ n.dst_addr
    txsn : n'.txsn ≡ (n.txsn + 1) % 2 ^ 32
    uidcnt : n'.uidcnt ≡ (n.uidcnt + 1) % 2 ^ 32
    sn : p'.sn ≡ (n.txsn + 1) % 2 ^ 16
    uid : p'.uid ≡ (n.uidcnt + 1) % 2 ^ 32
    ptype : p'.ptype ≡ pt_data_application
    dport : p'.dport ≡ n.port_num
    daddr : p'.daddr ≡ n.dst_addr

  fill_packet-Filled :
      (now : Double) (n : AppNet Double) (p : Packet Double)
      → let (n', p') = fill_packet sim now n p in Filled n p n' p'
  unfolding fill_packet
  fill_packet-Filled now n p = ground arith

  -- one packet of the queue, and then what the later expiries send
  Sent-cons :
      (count : ℕ) (n n' : AppNet Double) (l l₁ l' : Listener Double) (p p' : Packet Double)
      (sent rest : List (Packet Double))
      → l.queue_pck_read ≡ p ∷ rest
      → l₁.queue_pck_read ≡ rest
      → Filled n p n' p'
      → Sent count n' l₁ l' sent
      → Sent (suc count) n l l' (p' ∷ sent)
  Sent-cons count n n' l l₁ l' p p' sent rest e e₁ f s = record {
    queue = s.queue ∙ ap (drop count) e₁ ∙ sym (ap (drop (suc count)) e);
    contents =
        ap₂ ◌∷◌ f.carries (s.contents ∙ ap (λ q. map content (take count q)) e₁)
        ∙ sym (ap (λ q. map content (take (suc count) q)) e);
    payloads =
        ap₂ ◌∷◌ f.payload (s.payloads ∙ ap (λ q. map payload_of (take count q)) e₁)
        ∙ sym (ap (λ q. map payload_of (take (suc count) q)) e);
    numbered = (
      f.sn,
      f.uid,
      f.ptype,
      f.dport,
      f.daddr,
      subst₂ (λ a b. Numbered a b (n.txsn + 1 + 1) (n.uidcnt + 1 + 1) sent) f.port f.addr
          (Numbered-mod n'.port_num n'.dst_addr (n'.txsn + 1) (n'.uidcnt + 1) (n.txsn + 1 + 1)
            (n.uidcnt + 1 + 1) sent (omega arith) (omega arith) s.numbered),
    );
  }

  init_packet_tcp-nil :
      (now : Double) (n : AppNet Double) (l : Listener Double)
      → l.queue_pck_read ≡ []
      → init_packet_tcp sim now n l ≡ ((n, l), none)
  unfolding init_packet_tcp
  init_packet_tcp-nil now n l e = ground arith

  init_packet_tcp-cons :
      (now : Double) (n : AppNet Double) (l : Listener Double) (p : Packet Double)
      (rest : List (Packet Double))
      → l.queue_pck_read ≡ p ∷ rest
      → let (n', p') = fill_packet sim now n p in
        init_packet_tcp sim now n l ≡ ((n', record l { queue_pck_read = rest }), some p')
  unfolding init_packet_tcp
  init_packet_tcp-cons now n l p rest e = ground arith

  -- One expiry, and then the others.
  transmit_all-step :
      (now : Double) (nows : List Double) (n : AppNet Double) (l : Listener Double)
      {n' : AppNet Double} {l' : Listener Double} {sent : Option (Packet Double)}
      → init_packet_tcp sim now n l ≡ ((n', l'), sent)
      → transmit_all sim (now ∷ nows) n l ≡ with_sent sim (transmit_all sim nows n' l') sent
  unfolding transmit_all
  transmit_all-step now nows n l e =
      ap (λ r. with_sent sim (transmit_all sim nows r.0.0 r.0.1) r.1) e

  abbrev AllSent : List Double → AppNet Double → Listener Double → Type 0
  AllSent nows n l =
      let ((n', l'), sent) = transmit_all sim nows n l in Sent (length nows) n l l' sent

  AllSent-cons :
      (now : Double) (nows : List Double) (n : AppNet Double) (l : Listener Double)
      (q : List (Packet Double))
      → l.queue_pck_read ≡ q
      → ((n' : AppNet Double) (l' : Listener Double) → AllSent nows n' l')
      → AllSent (now ∷ nows) n l
  AllSent-cons now nows n l [] e ih =
      let s = ih n l in
      rw (transmit_all-step now nows n l (init_packet_tcp-nil now n l e)) (record {
        queue =
            s.queue
            ∙ ap (drop (length nows)) e
            ∙ drop-nil (Packet Double) (length nows)
            ∙ sym (ap (drop (suc (length nows))) e);
        contents =
            s.contents
            ∙ ap (λ q. map content (take (length nows) q)) e
            ∙ ap (map content) (take-nil (Packet Double) (length nows))
            ∙ sym (ap (λ q. map content (take (suc (length nows)) q)) e);
        payloads =
            s.payloads
            ∙ ap (λ q. map payload_of (take (length nows) q)) e
            ∙ ap (map payload_of) (take-nil (Packet Double) (length nows))
            ∙ sym (ap (λ q. map payload_of (take (suc (length nows)) q)) e);
        numbered = s.numbered;
      })
  AllSent-cons now nows n l (p ∷ rest) e ih =
      let (n', p') = fill_packet sim now n p in
      let l₁ = record l { queue_pck_read = rest } in
      let ((n'', l'), sent) = transmit_all sim nows n' l₁ in
      rw (transmit_all-step now nows n l (init_packet_tcp-cons now n l p rest e)) (
        Sent-cons (length nows) n n' l l₁ l' p p' sent rest e refl (fill_packet-Filled now n p)
          (ih n' l₁))

  -- In `count` expiries the first `count` packets of the queue, or all if there are fewer, are sent
  -- down in order and leave the queue; each keeps its array, its payload size and its size, is an
  -- application packet addressed as configured, and the sequence numbers (modulo 2 ^ 16) and uids
  -- (modulo 2 ^ 32) go up by one.
  pub transmit_all-Sent :
      (nows : List Double) (n : AppNet Double) (l : Listener Double)
      → let ((n', l'), sent) = transmit_all sim nows n l in Sent (length nows) n l l' sent
  unfolding transmit_all
  transmit_all-Sent [] n l = record {
    queue = refl;
    contents = refl;
    payloads = refl;
    numbered = tt;
  }
  transmit_all-Sent (now ∷ nows) n l =
      AllSent-cons now nows n l l.queue_pck_read refl (transmit_all-Sent nows)
