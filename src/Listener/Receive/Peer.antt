-- ===== src/Listener/Receive/Peer.antt =====
-- `ReceivePacket` on a connection whose other end has sent all that it sends, whatever that is.
use desert_addon_uwapp_net.Common.{
  ℕ, min, ◌-◌, ◌≤◌, ◌<◌, ◌≡◌, sym, ap, ◌∙◌, ◌||◌, none, some, List, arith, length, take, drop, ltb,
  ◌==◌, length-take, length-drop, take-append_self, drop-append_self, Bool-cases, inl, inr,
}
use desert_addon_uwapp_net.Kernel.{Kernel}
use desert_addon_uwapp_net.Listener.{Listener}
use desert_addon_uwapp_net.Listener.Wire.{overwrite, word_of_bytes, magic_tag}
use desert_addon_uwapp_net.Listener.Receive.{
  receive_packet, receive_size, check_magic, check_size, receive_payload,
}
use desert_addon_uwapp_net.Listener.Receive.Framing.{Stream}
use desert_addon_uwapp_net.Listener.Receive.Message.{
  next_message, word-whole, nothing_left, next_message-Begins,
}

-- A connection on which everything has arrived, and the other end is closed: each `read` gets as many
-- bytes as it asks for, or those that are left; `select` always finds it readable.
pub record Peer (os : Kernel) (fd : ℕ) : Type 0 where
  pub pending : os.State → List ℕ
  pub reads :
      (n : ℕ) (s : os.State)
      → (s' : os.State) × (os.read fd n s ≡ (some (take n (pending s)), s'))
        × (pending s' ≡ drop n (pending s))
  pub selects :
      (timeout : ℕ) (s : os.State)
      → (left : ℕ) × (s' : os.State) × (os.select fd timeout s ≡ ((1, left), s'))
        × (pending s' ≡ pending s)

abbrev pub stream_of : {os : Kernel} {fd : ℕ} → Peer os fd → Stream os fd
stream_of p = record {
  pending = p.pending;
  full_reads = λ xs rest s e.
      let (s', r, q) = p.reads (length xs) s in
      (
        s',
        r ∙ ap (λ t. (some t, s')) (ap (take (length xs)) e ∙ take-append_self xs rest),
        q ∙ ap (drop (length xs)) e ∙ drop-append_self xs rest,
      );
  selects = λ timeout s ne. p.selects timeout s;
}

module _ (os : Kernel) {Double : Type 0} {fd : ℕ} (p : Peer os fd) where
  open os use {State, stack_word, stack_word_length}

  -- the three reads of `ReceivePacket`, one after the other
  receive_packet-tag :
      (l : Listener Double) (s : State)
      → l.cln_sock_descr ≡ fd
      → (s' : State) × (receive_packet os l s
          ≡ check_magic os
              (length (take 4 (p.pending s)))
              (word_of_bytes (overwrite (take 4 (p.pending s)) (stack_word s)))
              l
              s')
        × (p.pending s' ≡ drop 4 (p.pending s))
  unfolding receive_packet
  receive_packet-tag l s c = let (s', r, q) = p.reads 4 s in (s', ground (arith, c, r), q)

  receive_size-read :
      (l : Listener Double) (s : State)
      → l.cln_sock_descr ≡ fd
      → (s' : State) × (receive_size os l s
          ≡ check_size os
              (length (take 4 (p.pending s)))
              (word_of_bytes (overwrite (take 4 (p.pending s)) (stack_word s)))
              l
              s')
        × (p.pending s' ≡ drop 4 (p.pending s))
  unfolding receive_size
  receive_size-read l s c = let (s', r, q) = p.reads 4 s in (s', ground (arith, c, r), q)

  receive_payload-read :
      (size : ℕ) (l : Listener Double) (s : State)
      → l.cln_sock_descr ≡ fd
      → (s' : State) × (receive_payload os size l s ≡ (
        (
          length (take size (p.pending s)),
          record l { buffer_msg = overwrite (take size (p.pending s)) l.buffer_msg },
        ),
        s',
      ))
        × (p.pending s' ≡ drop size (p.pending s))
  unfolding receive_payload
  receive_payload-read size l s c = let (s', r, q) = p.reads size s in (s', ground (arith, c, r), q)

  -- Bytes that do not begin with a message: `ReceivePacket` returns 0.
  pub receive_packet-none :
      (l : Listener Double) (s : State)
      → l.cln_sock_descr ≡ fd
      → length l.buffer_msg ≡ 4096
      → next_message (p.pending s) ≡ none
      → (s' : State) × (receive_packet os l s ≡ ((0, l), s'))
  unfolding check_magic check_size
  receive_packet-none l s c full e =
      let (s₁, one, p₁) = receive_packet-tag l s c in
      let (s₂, two, p₂) = receive_size-read l s₁ c in
      let size = word_of_bytes (overwrite (take 4 (p.pending s₁)) (stack_word s₁)) in
      let (s₃, three, p₃) = receive_payload-read size l s₂ c in
      let tag = word_of_bytes (overwrite (take 4 (p.pending s)) (stack_word s)) in
      elim (Bool-cases (length (take 4 (p.pending s)) == 0)) [
        | inl ended ↦ (s₁, one ∙ ground (arith, ended))
        | inr some_tag ↦ elim (Bool-cases (tag == magic_tag)) [
          | inr other ↦ (s₁, one ∙ ground (arith, some_tag, other))
          | inl magic ↦ elim (Bool-cases (length (take 4 (p.pending s₁)) == 0 || ltb 4096 size)) [
            | inl refused ↦ (s₂, one ∙ ground (arith, some_tag, magic, refused, two, full))
            | inr fits ↦
                let got =
                  nothing_left (p.pending s) (p.pending s₁) (p.pending s₂) (stack_word s)
                    (stack_word s₁) p₁ p₂ (stack_word_length s) (stack_word_length s₁) e
                    (ground (arith, magic)) (ground (arith, fits)) in
                (s₃, one ∙ ground (arith, some_tag, magic, fits, two, full, three, got))
          ]
        ]
      ]

  pub receive_packet-some :
      (l : Listener Double) (s : State) {msg rest : List ℕ}
      → l.cln_sock_descr ≡ fd
      → length l.buffer_msg ≡ 4096
      → next_message (p.pending s) ≡ some (msg, rest)
      → (s' : State) × (receive_packet os l s
          ≡ ((length msg, record l { buffer_msg = overwrite msg l.buffer_msg }), s'))
        × (p.pending s' ≡ rest)
        × (0 < length msg)
        × (length msg ≤ 4096)
  unfolding check_magic check_size
  receive_packet-some l s {msg} c full e =
      let b = next_message-Begins (p.pending s) e in
      let (s₁, one, p₁) = receive_packet-tag l s c in
      let (s₂, two, p₂) = receive_size-read l s₁ c in
      let (s₃, three, p₃) = receive_payload-read b.size l s₂ c in
      let got : take b.size (p.pending s₂) ≡ msg =
        ap (take b.size) (p₂ ∙ ap (drop 4) p₁) ∙ b.message in
      let len : length msg ≡ min b.size (length (p.pending s) - 4 - 4) =
        sym (ap length got)
        ∙ length-take b.size (p.pending s₂)
        ∙ ap (λ k. min b.size k)
            (ap length p₂
              ∙ length-drop 4 (p.pending s₁)
              ∙ ap (λ k. k - 4) (ap length p₁ ∙ length-drop 4 (p.pending s))) in
      let w₁ =
        ap word_of_bytes
          (word-whole (p.pending s) (stack_word s) (omega (arith, b.long)) (stack_word_length s))
        ∙ b.tag in
      let w₂ =
        ap word_of_bytes (
          word-whole (p.pending s₁) (stack_word s₁)
            (omega (arith, b.long, ap length p₁, length-drop 4 (p.pending s)))
            (stack_word_length s₁))
        ∙ ap (λ t. word_of_bytes (take 4 t)) p₁
        ∙ b.sized in
      let n₁ : length (take 4 (p.pending s)) ≡ 4 =
        omega (arith, b.long, length-take 4 (p.pending s)) in
      let n₂ : length (take 4 (p.pending s₁)) ≡ 4 =
        omega (
          arith,
          b.long,
          length-take 4 (p.pending s₁),
          ap length p₁,
          length-drop 4 (p.pending s),
        ) in
      (
        s₃,
        one ∙ ground (arith, w₁, w₂, n₁, n₂, two, three, got, full, b.fits, b.positive),
        p₃ ∙ ap (drop b.size) (p₂ ∙ ap (drop 4) p₁) ∙ b.behind,
        omega (arith, len, b.long, b.positive),
        omega (arith, len, b.fits),
      )
