-- ===== src/Listener/Handle/Session.antt =====
-- One client, from the connection to its end.
use desert_addon_uwapp_net.Common.{
  ℕ, zero, Option-cases, none, ◌≤◌, suc, ◌+◌, ◌%◌, ◌^◌, ◌≡◌, refl, sym, ◌∙◌, ap, some, List, [],
  ◌∷◌, ◌++◌, map, arith, length, Bool-cases, inl, inr, subst,
}
use mathlib.Core.Option.{some-injective}
use mathlib.Core.List.{append_assoc, append-nil, map-append}
use desert_addon_uwapp_net.Sim.{Sim}
use desert_addon_uwapp_net.Kernel.{Kernel}
use desert_addon_uwapp_net.Listener.Setup.{ready_to_read}
use desert_addon_uwapp_net.Listener.Handle.{
  again, leave, Next, Work, enqueue, handle_message, handle_round, handle_loop,
}
use desert_addon_uwapp_net.Packet.{Packet}
use desert_addon_uwapp_net.Listener.Handle.Queue.{IsSound, content}
use desert_addon_uwapp_net.Listener.Handle.Rounds.{
  is_ready, polled, message_size, received, handle_round-ready, handle_round-idle,
}
use desert_addon_uwapp_net.Listener.Receive.Message.{next_message}
use desert_addon_uwapp_net.Listener.Receive.Peer.{
  stream_of, receive_packet-none, receive_packet-some,
}
use desert_addon_uwapp_net.Listener.Handle.Parsing.{
  messages_in, messages_in-none, messages_in-some, next_message-short, next_message-shorter,
}
use desert_addon_uwapp_net.Listener.Handle.Messages.{IsServing, Took, handle_round-received}
use desert_addon_uwapp_net.Listener.Handle.Backlog.{
  Backlog, IsCalm, IsCalm-trans, receive_packet-IsCalm, ready_to_read-IsCalm,
}

-- the calls of `StopRequested` for these messages, and then `calls` more
unfoldable pub rounds : List (List ℕ) → ℕ → ℕ
rounds [] calls = calls
rounds (m ∷ ms) calls = suc (rounds ms calls)

module _ (sim : Sim) (os : Kernel) {srv fd : ℕ} (b : Backlog os srv fd) where
  open sim use {Double}

  abbrev pub Calm : Work sim os → Work sim os → Type 0
  Calm w w' = IsCalm os b w.listener w.sys w'.listener w'.sys

  received-Calm : (w : Work sim os) → w.listener.cln_sock_descr ≡ fd → Calm w (received sim os w)
  received-Calm w c =
      let p = ready_to_read-IsCalm os b w.listener w.sys c in
      IsCalm-trans os b p
        (receive_packet-IsCalm os b (polled sim os w).listener (polled sim os w).sys (p.client ∙ c))

  handle_message-Calm :
      (n : ℕ) (w : Work sim os) {next : Next} {w' : Work sim os}
      → w.listener.cln_sock_descr ≡ fd
      → handle_message sim os n w ≡ some (next, w')
      → Calm w w'
  unfolding handle_message enqueue
  handle_message-Calm n w c h = ground (arith, c, h, b.shutdown_waiting w.sys)

  handle_round-Calm :
      (w : Work sim os) {next : Next} {w' : Work sim os}
      → w.listener.cln_sock_descr ≡ fd
      → handle_round sim os w ≡ some (next, w')
      → Calm w w'
  handle_round-Calm w {next} {w'} c h = elim (Bool-cases (is_ready sim os w)) [
    | inl on ↦
        let r = received-Calm w c in
        IsCalm-trans os b r (
          handle_message-Calm (message_size sim os w) (received sim os w) (r.client ∙ c)
            (sym (handle_round-ready sim os w on) ∙ h))
    | inr off ↦
        let same : (again, polled sim os w) ≡ (next, w') =
          some-injective _ _ (sym (handle_round-idle sim os w off) ∙ h) in
        subst (Calm w) (ap (λ (r : Next × Work sim os). r.1) same)
          (ready_to_read-IsCalm os b w.listener w.sys c)
  ]

  -- what serving a client has done: its messages are queued and counted, its descriptor is cleared
  pub record Served (w : Work sim os) (msgs : List (List ℕ)) (w' : Work sim os) : Type 0 where
    pub packets : List (Packet Double)
    pub queued : w'.listener.queue_pck_read ≡ w.listener.queue_pck_read ++ packets
    pub carried : map content packets ≡ msgs
    pub counted :
        w'.owner.pkts_push_queue % 2 ^ 32 ≡ (w.owner.pkts_push_queue + length msgs) % 2 ^ 32
    pub numbers : w'.owner.txsn ≡ w.owner.txsn
    pub sound : IsSound sim os w'.listener
    pub calm : Calm w w'

  -- What has come does not begin with a message, or nothing has: the loop is left.
  handle_round-end :
      (w : Work sim os)
      → IsServing sim os (stream_of b.peer) w
      → next_message (b.peer.pending w.sys) ≡ none
      → (w' : Work sim os) × (handle_round sim os w ≡ some (leave, w')) × Served w [] w'
  unfolding handle_round ready_to_read handle_message
  handle_round-end w v e =
      let (left, s₁, selected, same) = b.peer.selects w.listener.read_timeout w.sys in
      let l₁ = record w.listener { read_timeout = left } in
      let (s₂, ended) =
        receive_packet-none os b.peer l₁ s₁ v.client v.sound.buffer (ap next_message same ∙ e) in
      let w' : Work sim os = record w {
        listener = l₁;
        sys = os.shutdown w.listener.cln_sock_descr s₂;
      } in
      let ran : handle_round sim os w ≡ some (leave, w') =
        ground (arith, v.client, selected, ended) in
      (
        w',
        ran,
        record {
          packets = [];
          queued = sym (append-nil w.listener.queue_pck_read);
          carried = refl;
          counted = omega arith;
          numbers = refl;
          sound = record { buffer = v.sound.buffer; queued = v.sound.queued };
          calm = handle_round-Calm w v.client ran;
        },
      )

  -- What has come begins with a message: it is taken off and queued.
  handle_round-next :
      (w : Work sim os) {msg rest : List ℕ}
      → IsServing sim os (stream_of b.peer) w
      → next_message (b.peer.pending w.sys) ≡ some (msg, rest)
      → (w' : Work sim os) × (handle_round sim os w ≡ some (again, w'))
        × Took sim os (stream_of b.peer) w (msg ∷ []) rest w'
  handle_round-next w {msg} {rest} v e =
      let (left, s₁, selected, same) = b.peer.selects w.listener.read_timeout w.sys in
      let (s₂, ran, after, pos, fits) =
        receive_packet-some os b.peer (record w.listener { read_timeout = left }) s₁ v.client
          v.sound.buffer (ap next_message same ∙ e) in
      handle_round-received sim os (stream_of b.peer) w msg rest left v (pos, fits) selected ran
        after

  -- a message that has been taken, and what the rest of the session has done
  Took-Served :
      (w w₁ w' : Work sim os) (m rest : List ℕ) (ms : List (List ℕ))
      → Calm w w₁
      → Took sim os (stream_of b.peer) w (m ∷ []) rest w₁
      → Served w₁ ms w'
      → Served w (m ∷ ms) w'
  Took-Served w w₁ w' m rest ms c t u = record {
    packets = t.packets ++ u.packets;
    queued =
        u.queued
        ∙ ap (λ q. q ++ u.packets) t.queued
        ∙ append_assoc w.listener.queue_pck_read t.packets u.packets;
    carried = simp (map-append, t.carried, u.carried);
    counted = omega (arith, t.counted, u.counted);
    numbers = u.numbers ∙ t.numbers;
    sound = u.sound;
    calm = IsCalm-trans os b c u.calm;
  }

  -- the loop takes these messages, and is left
  abbrev pub Session : Work sim os → ℕ → List (List ℕ) → Type 0
  Session w calls ms =
      (w' : Work sim os) × (handle_loop sim os (rounds ms (suc calls)) w ≡ some (calls, w'))
      × Served w ms w'

  Session-end :
      (calls : ℕ) (w : Work sim os)
      → IsServing sim os (stream_of b.peer) w
      → next_message (b.peer.pending w.sys) ≡ none
      → Session w calls []
  unfolding handle_loop rounds
  Session-end calls w v e = let (w', ran, t) = handle_round-end w v e in (w', rw ran refl, t)

  pub handle_loop-Session :
      (n : ℕ) (bs : List ℕ) (calls : ℕ) (w : Work sim os)
      → IsServing sim os (stream_of b.peer) w
      → b.peer.pending w.sys ≡ bs
      → length bs ≤ n
      → Session w calls (messages_in n bs)
  unfolding handle_loop messages_in rounds
  handle_loop-Session zero bs calls w v e h =
      Session-end calls w v (ap next_message e ∙ next_message-short bs (omega arith))
  handle_loop-Session (suc n) bs calls w v e h = elim (Option-cases (next_message bs)) [
    | inl ended ↦
        subst (Session w calls) (sym (messages_in-none n bs ended))
          (Session-end calls w v (ap next_message e ∙ ended))
    | inr ((m, rest), more) ↦
        let (w₁, one, t) = handle_round-next w v (ap next_message e ∙ more) in
        let less = next_message-shorter bs more in
        let (w', others, u) =
          handle_loop-Session n rest calls w₁ t.serving t.left (omega (arith, less)) in
        subst (Session w calls) (sym (messages_in-some n bs more)) (
          w',
          rw (one, others) refl,
          Took-Served w w₁ w' m rest (messages_in n rest) (handle_round-Calm w v.client one) t u,
        )
  ]
