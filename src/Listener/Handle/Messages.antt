-- ===== src/Listener/Handle/Messages.antt =====
-- `HandleTCPclient` on a connection that carries framed messages.
use desert_addon_uwapp_net.Common.{
  ℕ, ◌+◌, ◌%◌, ◌^◌, ◌<◌, ◌≤◌, ◌≡◌, ◌≢◌, refl, sym, ◌∙◌, ap, true, some, List, [], ◌∷◌, ◌++◌, map,
  arith, length, take, drop, All, take-append_self, length-append, length-drop,
}
use mathlib.Core.List.{append_assoc, append-nil, map-append}
use desert_addon_uwapp_net.Sim.{Sim}
use desert_addon_uwapp_net.Kernel.{Kernel}
use desert_addon_uwapp_net.Packet.{Packet, max_length_payload}
use desert_addon_uwapp_net.AppNet.{incr_pkts_push_queue}
use desert_addon_uwapp_net.Listener.{Listener}
use desert_addon_uwapp_net.Listener.Wire.{overwrite, frame, bytes_of_word}
use desert_addon_uwapp_net.Listener.Setup.{ready_to_read}
use desert_addon_uwapp_net.Listener.Receive.{receive_packet}
use desert_addon_uwapp_net.Listener.Receive.Framing.{Stream, receive_packet-frame}
use desert_addon_uwapp_net.Listener.Handle.{again, Work, handle_message, handle_round, handle_loop}
use desert_addon_uwapp_net.Listener.Handle.Queue.{content, IsSound, All-snoc, enqueue-some}

-- a message that the buffer holds and that is not empty
abbrev pub IsMessage : List ℕ → Type 0
IsMessage msg = (0 < length msg) × (length msg ≤ max_length_payload)

-- messages, one after the other
unfoldable pub frames : List (List ℕ) → List ℕ
frames [] = []
frames (m ∷ ms) = frame m ++ frames ms

pub frames-append : (xs ys : List (List ℕ)) → frames (xs ++ ys) ≡ frames xs ++ frames ys
unfolding frames
frames-append [] ys = refl
frames-append (x ∷ xs) ys =
    ap (λ t. frame x ++ t) (frames-append xs ys)
    ∙ sym (append_assoc (frame x) (frames xs) (frames ys))

frame-ne-nil : (msg rest bs : List ℕ) → bs ≡ frame msg ++ rest → bs ≢ []
unfolding frame bytes_of_word
frame-ne-nil msg rest bs e = λ q. cc

module _ (sim : Sim) (os : Kernel) {fd : ℕ} (st : Stream os fd) where
  open sim use {Double}

  -- A connected listener that is sound.
  pub record IsServing (w : Work sim os) : Type 0 where
    pub client : w.listener.cln_sock_descr ≡ fd
    pub sound : IsSound sim os w.listener

  -- From `w` to `w'` these messages have been taken off the connection and queued.
  pub record Took (w : Work sim os) (msgs : List (List ℕ)) (rest : List ℕ) (w' : Work sim os)
      : Type 0 where
    pub packets : List (Packet Double)
    pub queued : w'.listener.queue_pck_read ≡ w.listener.queue_pck_read ++ packets
    pub carried : map content packets ≡ msgs
    pub left : st.pending w'.sys ≡ rest
    pub counted :
        w'.owner.pkts_push_queue % 2 ^ 32 ≡ (w.owner.pkts_push_queue + length msgs) % 2 ^ 32
    pub numbers : w'.owner.txsn ≡ w.owner.txsn
    pub serving : IsServing w'

  handle_message-message :
      (n : ℕ) (w : Work sim os) (msg rest : List ℕ)
      → IsServing w
      → n ≡ length msg
      → IsMessage msg
      → take (length msg) w.listener.buffer_msg ≡ msg
      → st.pending w.sys ≡ rest
      → (w' : Work sim os) × (handle_message sim os n w ≡ some (again, w'))
        × Took w (msg ∷ []) rest w'
  unfolding handle_message incr_pkts_push_queue
  handle_message-message n w msg rest v e is_msg t p =
      let (q, ran, made) = enqueue-some sim os n w (omega arith) v.sound in
      (
        record w {
          owner = incr_pkts_push_queue w.owner;
          listener = record w.listener { queue_pck_read = w.listener.queue_pck_read ++ q ∷ [] };
        },
        ground (arith, ran),
        record {
          packets = q ∷ [];
          queued = refl;
          carried = ap (λ c. c ∷ []) (made.carries ∙ ap (λ k. take k w.listener.buffer_msg) e ∙ t);
          left = p;
          counted = omega arith;
          numbers = refl;
          serving = record {
            client = v.client;
            sound = record {
              buffer = v.sound.buffer;
              queued = All-snoc sim os w.listener.queue_pck_read q v.sound.queued made.payload;
            };
          };
        },
      )

  -- A round in which both calls return as stated is the handling of the message.
  round_of :
      (w : Work sim os) {l₁ l₂ : Listener Double} {s₁ s₂ : os.State} {n : ℕ}
      → ready_to_read os w.listener w.sys ≡ ((true, l₁), s₁)
      → receive_packet os l₁ s₁ ≡ ((n, l₂), s₂)
      → handle_round sim os w ≡ handle_message sim os n (record w { listener = l₂; sys = s₂ })
  unfolding handle_round
  round_of w ready ran = rw (ready, ran)

  -- A round in which the connection is readable and this message is received.
  pub handle_round-received :
      (w : Work sim os) (msg rest : List ℕ) (left : ℕ) {s₁ s₂ : os.State}
      → IsServing w
      → IsMessage msg
      → os.select fd w.listener.read_timeout w.sys ≡ ((1, left), s₁)
      → receive_packet os (record w.listener { read_timeout = left }) s₁ ≡ (
        (
          length msg,
          record w.listener {
            read_timeout = left;
            buffer_msg = overwrite msg w.listener.buffer_msg;
          },
        ),
        s₂,
      )
      → st.pending s₂ ≡ rest
      → (w' : Work sim os) × (handle_round sim os w ≡ some (again, w')) × Took w (msg ∷ []) rest w'
  unfolding ready_to_read
  handle_round-received w msg rest left {s₁} {s₂} v is_msg selected ran after =
      let w₂ : Work sim os = record w {
        listener = record w.listener {
          read_timeout = left;
          buffer_msg = overwrite msg w.listener.buffer_msg;
        };
        sys = s₂;
      } in
      let ready : ready_to_read os w.listener w.sys
          ≡ ((true, record w.listener { read_timeout = left }), s₁) =
        ground (arith, v.client, selected) in
      let v₂ : IsServing w₂ = record {
        client = v.client;
        sound = record {
          buffer = omega (
            arith,
            v.sound.buffer,
            length-append msg (drop (length msg) w.listener.buffer_msg),
            length-drop (length msg) w.listener.buffer_msg,
          );
          queued = v.sound.queued;
        };
      } in
      let (w', handled, t) =
        handle_message-message (length msg) w₂ msg rest v₂ refl is_msg
          (take-append_self msg (drop (length msg) w.listener.buffer_msg)) after in
      (
        w',
        round_of w ready ran ∙ handled,
        record {
          packets = t.packets;
          queued = t.queued;
          carried = t.carried;
          left = t.left;
          counted = t.counted;
          numbers = t.numbers;
          serving = t.serving;
        },
      )

  pub handle_round-message :
      (w : Work sim os) (msg rest : List ℕ)
      → IsServing w
      → IsMessage msg
      → st.pending w.sys ≡ frame msg ++ rest
      → (w' : Work sim os) × (handle_round sim os w ≡ some (again, w')) × Took w (msg ∷ []) rest w'
  handle_round-message w msg rest v is_msg e =
      let (left, s₁, selected, same) =
        st.selects w.listener.read_timeout w.sys (frame-ne-nil msg rest (st.pending w.sys) e) in
      let (s₂, ran, after) =
        receive_packet-frame os (record w.listener { read_timeout = left }) st msg rest s₁ v.client
          is_msg.0 (omega (arith, v.sound.buffer)) (omega (arith, v.sound.buffer)) (same ∙ e) in
      handle_round-received w msg rest left v is_msg selected ran after

  -- On a sound listener whose connection carries framed messages, each neither empty nor larger
  -- than the buffer, `HandleTCPclient` takes them all in so many rounds: it appends one packet for
  -- each to the queue, in order and with the message's bytes, counts them in `pkts_push_queue`
  -- (modulo 2 ^ 32), and leaves what follows on the connection.
  pub handle_loop-frames :
      (msgs : List (List ℕ)) (rest : List ℕ) (w : Work sim os)
      → IsServing w
      → All IsMessage msgs
      → st.pending w.sys ≡ frames msgs ++ rest
      → (w' : Work sim os) × (handle_loop sim os (length msgs) w ≡ some (0, w'))
        × Took w msgs rest w'
  unfolding handle_loop frames
  handle_loop-frames [] rest w v h e = (
    w,
    refl,
    record {
      packets = [];
      queued = sym (append-nil w.listener.queue_pck_read);
      carried = refl;
      left = e;
      counted = omega arith;
      numbers = refl;
      serving = v;
    },
  )
  handle_loop-frames (m ∷ ms) rest w v h e =
      let (w₁, one, t) =
        handle_round-message w m (frames ms ++ rest) v h.0
          (e ∙ append_assoc (frame m) (frames ms) rest) in
      let (w', others, u) = handle_loop-frames ms rest w₁ t.serving h.1 t.left in
      (
        w',
        rw (one, others) refl,
        record {
          packets = t.packets ++ u.packets;
          queued =
              u.queued
              ∙ ap (λ q. q ++ u.packets) t.queued
              ∙ append_assoc w.listener.queue_pck_read t.packets u.packets;
          carried = simp (map-append, t.carried, u.carried);
          left = u.left;
          counted = omega (arith, t.counted, u.counted);
          numbers = u.numbers ∙ t.numbers;
          serving = u.serving;
        },
      )
