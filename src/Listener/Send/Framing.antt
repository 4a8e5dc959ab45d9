-- ===== src/Listener/Send/Framing.antt =====
-- What `send_data` puts on the connection, and that `ReceivePacket` reads it back.
use desert_addon_uwapp_net.Common.{
  ℕ, ◌≤◌, ◌<◌, ◌^◌, ◌≡◌, ◌≢◌, sym, ◌∙◌, ap, true, none, some, List, [], ◌++◌, arith, length, take,
  length-take, take_self, u32,
}
use mathlib.Core.List.{append_assoc}
use desert_addon_uwapp_net.Kernel.{Kernel}
use desert_addon_uwapp_net.Listener.{Listener}
use desert_addon_uwapp_net.Listener.Wire.{overwrite, magic_tag, bytes_of_word, frame}
use desert_addon_uwapp_net.Listener.Send.{send_body, send_size, send_data}
use desert_addon_uwapp_net.Listener.Receive.{receive_packet}
use desert_addon_uwapp_net.Listener.Receive.Framing.{Stream, receive_packet-frame}

-- A connection that takes all the bytes of each `write`, and what has been written to it.
pub record Sink (os : Kernel) (fd : ℕ) : Type 0 where
  pub sent : os.State → List ℕ
  pub full_writes :
      (bs : List ℕ) (s : os.State)
      → (s' : os.State) × (os.write fd bs s ≡ (some (length bs), s')) × (sent s' ≡ sent s ++ bs)

module _ (os : Kernel) {Double : Type 0} where
  open os use {State}

  -- the first two writes of `send_data` on such a connection
  send_header :
      {fd : ℕ} (l : Listener Double) (k : Sink os fd) (msg : List ℕ) (size : ℕ) (s : State)
      → l.cln_sock_descr ≡ fd
      → fd ≢ 0
      → (s' : State) × (send_data os msg size l s ≡ send_body os msg size l s')
        × (k.sent s' ≡ k.sent s ++ (bytes_of_word magic_tag ++ bytes_of_word (u32 size)))
  unfolding send_data send_size bytes_of_word
  send_header l k msg size s c open_fd =
      let (s₁, w₁, p₁) = k.full_writes (bytes_of_word magic_tag) s in
      let (s₂, w₂, p₂) = k.full_writes (bytes_of_word (u32 size)) s₁ in
      (
        s₂,
        ground (arith, w₁, w₂),
        p₂
            ∙ ap (λ t. t ++ bytes_of_word (u32 size)) p₁
            ∙ append_assoc (k.sent s) (bytes_of_word magic_tag) (bytes_of_word (u32 size)),
      )

  -- To a connected client that takes all the bytes, `send_data` with a size that the array holds
  -- sends exactly the frame of the array's first `size` bytes, and returns true.
  pub send_data-frame :
      {fd : ℕ} (l : Listener Double) (k : Sink os fd) (msg : List ℕ) (size : ℕ) (s : State)
      → l.cln_sock_descr ≡ fd
      → fd ≢ 0
      → size ≤ length msg
      → size < 2 ^ 32
      → (s' : State) × (send_data os msg size l s ≡ some (true, s'))
        × (k.sent s' ≡ k.sent s ++ frame (take size msg))
  unfolding send_body frame
  send_data-frame l k msg size s c open_fd fits small =
      let (s₁, e, p) = send_header l k msg size s c open_fd in
      let (s₂, w, q) = k.full_writes (take size msg) s₁ in
      let len : length (take size msg) ≡ size = omega (arith, length-take size msg) in
      let whole : u32 size ≡ length (take size msg) = omega (arith, len) in
      (
        s₂,
        e ∙ ground (arith, w, len),
        q
            ∙ ap (λ t. t ++ take size msg) p
            ∙ append_assoc (k.sent s) (bytes_of_word magic_tag ++ bytes_of_word (u32 size))
                (take size msg)
            ∙ ap (λ t. k.sent s ++ t)
                (append_assoc (bytes_of_word magic_tag) (bytes_of_word (u32 size)) (take size msg))
            ∙ ap (λ v. k.sent s ++ (bytes_of_word magic_tag ++ (bytes_of_word v ++ take size msg)))
                whole,
      )

  -- If the size is larger than the array, `send_data` on an open connection that takes all bytes
  -- reads behind it.
  send_data-overread :
      {fd : ℕ} (l : Listener Double) (k : Sink os fd) (msg : List ℕ) (size : ℕ) (s : State)
      → l.cln_sock_descr ≡ fd
      → fd ≢ 0
      → length msg < size
      → send_data os msg size l s ≡ none
  unfolding send_body
  send_data-overread l k msg size s c open_fd over =
      let (s₁, e, p) = send_header l k msg size s c open_fd in e ∙ ground arith

  -- Round trip: if `send_data` on a fresh connection that takes all bytes has returned true for a
  -- whole array that is neither empty nor larger than the peer's buffer (of less than 2 ^ 32
  -- bytes), and its bytes (and then `rest`) are what the peer's connection delivers, then the
  -- peer's `ReceivePacket` returns the array's length with the array at the start of its buffer,
  -- and leaves `rest`.
  pub receive_packet-send_data :
      {fd fd₂ : ℕ} (l peer : Listener Double) (k : Sink os fd) (st : Stream os fd₂)
      (msg rest : List ℕ) (s s' r : State)
      → l.cln_sock_descr ≡ fd
      → fd ≢ 0
      → peer.cln_sock_descr ≡ fd₂
      → 0 < length msg
      → length msg ≤ length peer.buffer_msg
      → length peer.buffer_msg < 2 ^ 32
      → k.sent s ≡ []
      → send_data os msg (length msg) l s ≡ some (true, s')
      → st.pending r ≡ k.sent s' ++ rest
      → (r' : State) × (receive_packet os peer r
          ≡ ((length msg, record peer { buffer_msg = overwrite msg peer.buffer_msg }), r'))
        × (st.pending r' ≡ rest)
  receive_packet-send_data l peer k st msg rest s s' r c open_fd c₂ pos fits small fresh sent
        arrived =
      let (s₁, e, p) =
        send_data-frame l k msg (length msg) s c open_fd (omega arith) (omega arith) in
      let same : s₁ ≡ s' = ground (arith, e, sent) in
      let whole : k.sent s' ≡ frame msg =
        ap k.sent (sym same)
        ∙ p
        ∙ ap (λ t. t ++ frame (take (length msg) msg)) fresh
        ∙ ap frame (take_self msg) in
      receive_packet-frame os peer st msg rest r c₂ pos fits small
        (arrived ∙ ap (λ t. t ++ rest) whole)
