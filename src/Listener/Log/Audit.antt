-- ===== src/Listener/Log/Audit.antt =====
-- What the lines of `HandleTCPclient` say of the messages that have been queued.
use desert_addon_uwapp_net.Common.{
  ℕ, zero, suc, ◌≤◌, ◌≡◌, refl, sym, ap, ◌∙◌, subst, not, Bool-cases, inl, inr, true, false, some,
  ◌==◌, List, [], ◌∷◌, ◌++◌, map, arith, >>=-eq-some, if◌then◌else◌,
}
use mathlib.Core.Option.{some-injective}
use mathlib.Core.List.{append_assoc, append-nil, map-append}
use desert_addon_uwapp_net.Sim.{Sim}
use desert_addon_uwapp_net.Kernel.{Kernel}
use desert_addon_uwapp_net.Packet.{Packet, max_length_payload}
use desert_addon_uwapp_net.AppNet.{incr_pkts_push_queue}
use desert_addon_uwapp_net.Console.{logs_at}
use desert_addon_uwapp_net.Hex.{string_to_hexstring, buffer_to_hexstring}
use desert_addon_uwapp_net.Listener.Handle.{
  again, leave, Next, Work, handle_message, handle_round, handle_loop,
}
use desert_addon_uwapp_net.Listener.Handle.Queue.{IsSound, All-snoc, enqueue-some}
use desert_addon_uwapp_net.Listener.Handle.Rounds.{
  is_ready, polled, message_size, received, handle_round-idle, handle_round-ready,
  handle_message-negative, polled-IsSound, received-IsSound,
}
use desert_addon_uwapp_net.Listener.Receive.Bounds.{receive_packet-IsWithin}
use desert_addon_uwapp_net.Listener.Setup.{ready_to_read}
use desert_addon_uwapp_net.Listener.Log.{
  LogLine, from_level, receive_lines, ready_lines, message_lines, round_lines, loop_lines,
}
use desert_addon_uwapp_net.Listener.Log.Dumps.{
  dumps, dumps-append, dump, buffer_to_hexstring-take, receive_lines-undumped, ready_lines-undumped,
}

module _ (sim : Sim) (os : Kernel) where
  open sim use {Double}

  -- From `w` to `w'` packets have been queued, and these lines have their contents.
  pub record Dumped (w : Work sim os) (lines : List LogLine) (w' : Work sim os) : Type 0 where
    pub packets : List (Packet Double)
    pub queued : w'.listener.queue_pck_read ≡ w.listener.queue_pck_read ++ packets
    pub dumped : dumps lines ≡ map dump packets
    pub sound : IsSound sim os w'.listener
    pub debug : w'.owner.debug ≡ w.owner.debug

  handle_message-Dumped :
      (n : ℕ) (w : Work sim os) {next : Next} {w' : Work sim os}
      → n ≤ max_length_payload
      → IsSound sim os w.listener
      → logs_at 1 w.owner.debug ≡ true
      → handle_message sim os n w ≡ some (next, w')
      → Dumped w (message_lines sim os n w) w'
  unfolding handle_message message_lines from_level incr_pkts_push_queue
  handle_message-Dumped n w {next} {w'} small sound verbose h = elim (Bool-cases (n == 0)) [
    | inl e ↦
        let same : record w { sys = os.shutdown w.listener.cln_sock_descr w.sys } ≡ w' =
          ground (arith, h, e) in
        let silent : dumps (message_lines sim os n w) ≡ [] = ground (arith, e) in
        subst (Dumped w (message_lines sim os n w)) same (record {
          packets = [];
          queued = sym (append-nil w.listener.queue_pck_read);
          dumped = silent;
          sound = sound;
          debug = refl;
        })
    | inr e ↦
        let (p, made_it, made) = enqueue-some sim os n w small sound in
        let same : record w {
          owner = incr_pkts_push_queue w.owner;
          listener = record w.listener { queue_pck_read = w.listener.queue_pck_read ++ p ∷ [] };
        }
            ≡ w' =
          ground (arith, h, e, made_it) in
        let told : dumps (message_lines sim os n w)
            ≡ buffer_to_hexstring w.listener.buffer_msg n false false ∷ [] =
          ground (arith, e, verbose) in
        let right : buffer_to_hexstring w.listener.buffer_msg n false false ≡ dump p =
          buffer_to_hexstring-take w.listener.buffer_msg n small
          ∙ ap (λ t. string_to_hexstring t false false) (sym made.carries) in
        subst (Dumped w (message_lines sim os n w)) same (record {
          packets = p ∷ [];
          queued = refl;
          dumped = told ∙ ap (λ t. t ∷ []) right;
          sound = record {
            buffer = sound.buffer;
            queued = All-snoc sim os w.listener.queue_pck_read p sound.queued made.payload;
          };
          debug = refl;
        })
  ]

  round_lines-dumps :
      (w : Work sim os)
      → dumps (round_lines sim os w) ≡ (
          if is_ready sim os w
          then dumps (message_lines sim os (message_size sim os w) (received sim os w))
          else [])
  unfolding round_lines
  round_lines-dumps w =
      let read = receive_lines os w.owner.debug (polled sim os w).listener (polled sim os w).sys in
      let told = message_lines sim os (message_size sim os w) (received sim os w) in
      dumps-append (ready_lines os w.owner.debug w.listener w.sys)
        (if not (is_ready sim os w) then [] else read ++ told)
      ∙ ap (λ t. t ++ dumps (if not (is_ready sim os w) then [] else read ++ told))
          (ready_lines-undumped os w.owner.debug w.listener w.sys)
      ∙ ground (
        arith,
        dumps-append read told,
        receive_lines-undumped os w.owner.debug (polled sim os w).listener (polled sim os w).sys,
      )

  handle_round-Dumped :
      (w : Work sim os) {next : Next} {w' : Work sim os}
      → IsSound sim os w.listener
      → logs_at 1 w.owner.debug ≡ true
      → handle_round sim os w ≡ some (next, w')
      → Dumped w (round_lines sim os w) w'
  unfolding ready_to_read
  handle_round-Dumped w {next} {w'} sound verbose h = elim (Bool-cases (is_ready sim os w)) [
    | inr idle ↦
        let same : (again, polled sim os w) ≡ (next, w') =
          some-injective _ _ (sym (handle_round-idle sim os w idle) ∙ h) in
        subst (Dumped w (round_lines sim os w)) (ap (λ (r : Next × Work sim os). r.1) same)
          (record {
            packets = [];
            queued = sym (append-nil w.listener.queue_pck_read);
            dumped = round_lines-dumps w ∙ ground (arith, idle);
            sound = polled-IsSound sim os w sound;
            debug = refl;
          })
    | inl ready ↦
        let (sound', size) = received-IsSound sim os w sound in
        let e = sym (handle_round-ready sim os w ready) ∙ h in
        let kept =
          (receive_packet-IsWithin os (polled sim os w).listener (polled sim os w).sys).queue in
        elim size [
          | inl negative ↦
              absurd
                (ground (arith, e, negative, handle_message-negative sim os (received sim os w)))
          | inr small ↦
              let d =
                handle_message-Dumped (message_size sim os w) (received sim os w) small sound'
                  verbose e in
              record {
                packets = d.packets;
                queued = d.queued ∙ ap (λ q. q ++ d.packets) kept;
                dumped = round_lines-dumps w ∙ ground (arith, ready, d.dumped);
                sound = d.sound;
                debug = d.debug;
              }
        ]
  ]

  Dumped-trans :
      (w w₁ w' : Work sim os) (a b : List LogLine)
      → Dumped w a w₁
      → Dumped w₁ b w'
      → Dumped w (a ++ b) w'
  Dumped-trans w w₁ w' a b x y = record {
    packets = x.packets ++ y.packets;
    queued =
        y.queued
        ∙ ap (λ q. q ++ y.packets) x.queued
        ∙ append_assoc w.listener.queue_pck_read x.packets y.packets;
    dumped = dumps-append a b ∙ simp (map-append, x.dumped, y.dumped);
    sound = y.sound;
    debug = y.debug ∙ x.debug;
  }

  -- the lines of a loop, by what its first round does
  loop_lines-again :
      (calls : ℕ) (w w₁ : Work sim os)
      → handle_round sim os w ≡ some (again, w₁)
      → loop_lines sim os (suc calls) w ≡ round_lines sim os w ++ loop_lines sim os calls w₁
  unfolding loop_lines
  loop_lines-again calls w w₁ e = rw (loop_lines, e) refl

  loop_lines-leave :
      (calls : ℕ) (w w₁ : Work sim os)
      → handle_round sim os w ≡ some (leave, w₁)
      → loop_lines sim os (suc calls) w ≡ round_lines sim os w ++ []
  unfolding loop_lines
  loop_lines-leave calls w w₁ e = rw (loop_lines, e) refl

  -- With a debug level of at least 1, `HandleTCPclient` on a sound listener, whatever comes over the
  -- connection and in any number of rounds that do not fault: the payloads that its lines show, in
  -- order, are the contents of the packets that it has appended to the queue, in hexadecimal.
  pub loop_lines-Dumped :
      (calls : ℕ) (w : Work sim os) {left : ℕ} {w' : Work sim os}
      → IsSound sim os w.listener
      → logs_at 1 w.owner.debug ≡ true
      → handle_loop sim os calls w ≡ some (left, w')
      → Dumped w (loop_lines sim os calls w) w'
  unfolding handle_loop loop_lines
  loop_lines-Dumped zero w sound verbose h =
      subst (Dumped w []) (ap (λ (r : ℕ × Work sim os). r.1) (some-injective _ _ h)) (record {
        packets = [];
        queued = sym (append-nil w.listener.queue_pck_read);
        dumped = refl;
        sound = sound;
        debug = refl;
      })
  loop_lines-Dumped (suc calls) w {left} {w'} sound verbose h =
      let ((next, w₁), one, rest) = >>=-eq-some (handle_round sim os w) _ h in
      go next w₁ one rest (handle_round-Dumped w sound verbose one) (λ v. loop_lines-Dumped calls v)
    where
      go :
          (next : Next) (w₁ : Work sim os)
          → handle_round sim os w ≡ some (next, w₁)
          → elim next [ again ↦ handle_loop sim os calls w₁ | leave ↦ some (calls, w₁) ]
            ≡ some (left, w')
          → Dumped w (round_lines sim os w) w₁
          → ((v : Work sim os)
              → IsSound sim os v.listener
              → logs_at 1 v.owner.debug ≡ true
              → handle_loop sim os calls v ≡ some (left, w')
              → Dumped v (loop_lines sim os calls v) w')
          → Dumped w (loop_lines sim os (suc calls) w) w'
      go again w₁ one rest d others =
          subst (λ ls. Dumped w ls w') (sym (loop_lines-again calls w w₁ one))
            (Dumped-trans w w₁ w' (round_lines sim os w) (loop_lines sim os calls w₁) d
              (others w₁ d.sound (ap (logs_at 1) d.debug ∙ verbose) rest))
      go leave w₁ one rest d others =
          subst (Dumped w (loop_lines sim os (suc calls) w))
            (ap (λ (r : ℕ × Work sim os). r.1) (some-injective _ _ rest))
            (subst (λ ls. Dumped w ls w₁)
              (sym (loop_lines-leave calls w w₁ one ∙ append-nil (round_lines sim os w))) d)
