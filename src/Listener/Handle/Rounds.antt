-- ===== src/Listener/Handle/Rounds.antt =====
-- One round of the loop of `HandleTCPclient`: when it faults, and what it keeps.
use desert_addon_uwapp_net.Common.{
  ℕ, ◌≤◌, ◌≡◌, ◌≢◌, ◌⊎◌, ◌∙◌, ap, Bool, true, false, none, some, [], ◌∷◌, ◌++◌, arith, ◌==◌,
  minus_one, Bool-cases, inl, inr,
}
use desert_addon_uwapp_net.Sim.{Sim}
use desert_addon_uwapp_net.Kernel.{Kernel}
use desert_addon_uwapp_net.Packet.{max_length_payload}
use desert_addon_uwapp_net.AppNet.{incr_pkts_push_queue}
use desert_addon_uwapp_net.Listener.Setup.{ready_to_read}
use desert_addon_uwapp_net.Listener.Receive.{receive_packet}
use desert_addon_uwapp_net.Listener.Receive.Bounds.{receive_packet-IsWithin}
use desert_addon_uwapp_net.Listener.Handle.{Next, again, leave, Work, handle_message, handle_round}
use desert_addon_uwapp_net.Listener.Handle.Queue.{IsSound, All-snoc, enqueue-some, enqueue-negative}

module _ (sim : Sim) (os : Kernel) where
  open sim use {Double}

  -- A message that is not a failed read is handled, and leaves a sound listener.
  handle_message-ok :
      (n : ℕ) (w : Work sim os)
      → n ≤ max_length_payload
      → IsSound sim os w.listener
      → (next : Next) × (w' : Work sim os) × (handle_message sim os n w ≡ some (next, w'))
        × IsSound sim os w'.listener
  unfolding handle_message
  handle_message-ok n w small sound = elim (Bool-cases (n == 0)) [
    | inl e ↦ (leave, record w { sys = os.shutdown w.listener.cln_sock_descr w.sys }, rw e, sound)
    | inr e ↦
        let (p, q, made) = enqueue-some sim os n w small sound in
        (
          again,
          record w {
            owner = incr_pkts_push_queue w.owner;
            listener = record w.listener { queue_pck_read = w.listener.queue_pck_read ++ p ∷ [] };
          },
          rw (e, q),
          record {
            buffer = sound.buffer;
            queued = All-snoc sim os w.listener.queue_pck_read p sound.queued made.payload;
          },
        )
  ]

  pub handle_message-negative : (w : Work sim os) → handle_message sim os minus_one w ≡ none
  unfolding handle_message
  handle_message-negative w = rw (enqueue-negative sim os w)

  -- the states of a round that starts at `w`: after `ReadyToRead`, and after `ReceivePacket`
  abbrev pub is_ready : Work sim os → Bool
  is_ready w = (ready_to_read os w.listener w.sys).0.0

  abbrev pub polled : Work sim os → Work sim os
  polled w =
      let ((ready, l), s) = ready_to_read os w.listener w.sys in record w { listener = l; sys = s }

  abbrev pub message_size : Work sim os → ℕ
  message_size w = (receive_packet os (polled w).listener (polled w).sys).0.0

  abbrev pub received : Work sim os → Work sim os
  received w =
      let ((n, l), s) = receive_packet os (polled w).listener (polled w).sys in
      record w { listener = l; sys = s }

  pub handle_round-idle :
      (w : Work sim os) → is_ready w ≡ false → handle_round sim os w ≡ some (again, polled w)
  unfolding handle_round
  handle_round-idle w e = rw e

  pub handle_round-ready :
      (w : Work sim os)
      → is_ready w ≡ true
      → handle_round sim os w ≡ handle_message sim os (message_size w) (received w)
  unfolding handle_round
  handle_round-ready w e = rw e

  pub polled-IsSound :
      (w : Work sim os) → IsSound sim os w.listener → IsSound sim os (polled w).listener
  unfolding ready_to_read
  polled-IsSound w sound = record { buffer = sound.buffer; queued = sound.queued }

  pub received-IsSound :
      (w : Work sim os)
      → IsSound sim os w.listener
      → IsSound sim os (received w).listener
        × ((message_size w ≡ minus_one) ⊎ (message_size w ≤ max_length_payload))
  received-IsSound w sound =
      let p = polled-IsSound w sound in
      let b = receive_packet-IsWithin os (polled w).listener (polled w).sys in
      (
        record { buffer = b.buffer ∙ p.buffer; queued = rw b.queue p.queued },
        ground (arith, b.result, p.buffer),
      )

  -- A round on a sound listener either completes and leaves a sound listener, or it faults; and it
  -- faults exactly if there was something to read and `ReceivePacket` returned -1.
  pub handle_round-IsSound :
      (w : Work sim os)
      → IsSound sim os w.listener
      → ((next : Next) × (w' : Work sim os) × (handle_round sim os w ≡ some (next, w'))
          × IsSound sim os w'.listener
          × ((is_ready w ≡ false) ⊎ (message_size w ≢ minus_one)))
        ⊎ ((handle_round sim os w ≡ none) × (is_ready w ≡ true) × (message_size w ≡ minus_one))
  handle_round-IsSound w sound = elim (Bool-cases (is_ready w)) [
    | inl ready ↦
        let (sound', size) = received-IsSound w sound in
        elim size [
          | inl e ↦ inr (
            handle_round-ready w ready
                ∙ ap (λ k. handle_message sim os k (received w)) e
                ∙ handle_message-negative (received w),
            ready,
            e,
          )
          | inr small ↦
              let (next, w', e, kept) =
                handle_message-ok (message_size w) (received w) small sound' in
              inl (next, w', handle_round-ready w ready ∙ e, kept, inr (omega arith))
        ]
    | inr idle ↦ inl (again, polled w, handle_round-idle w idle, polled-IsSound w sound, inl idle)
  ]
