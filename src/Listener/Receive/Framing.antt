-- ===== src/Listener/Receive/Framing.antt =====
-- `ReceivePacket` reads back what is framed as tcp_listener.h frames it.
use desert_addon_uwapp_net.Common.{ℕ, ◌≤◌, ◌<◌, ◌^◌, ◌≡◌, ◌≢◌, some, List, [], ◌++◌, arith, length}
use desert_addon_uwapp_net.Kernel.{Kernel}
use desert_addon_uwapp_net.Listener.{Listener}
use desert_addon_uwapp_net.Listener.Wire.{overwrite, magic_tag, bytes_of_word, word-read, frame}
use desert_addon_uwapp_net.Listener.Receive.{receive_packet}

-- A connection that delivers its bytes in order, each `read` as many as it asks for where there are
-- so many, and on which `select` finds the bytes that are there.
pub record Stream (os : Kernel) (fd : ℕ) : Type 0 where
  pub pending : os.State → List ℕ
  pub full_reads :
      (xs rest : List ℕ) (s : os.State)
      → pending s ≡ xs ++ rest
      → (s' : os.State) × (os.read fd (length xs) s ≡ (some xs, s')) × (pending s' ≡ rest)
  pub selects :
      (timeout : ℕ) (s : os.State)
      → pending s ≢ []
      → (left : ℕ) × (s' : os.State) × (os.select fd timeout s ≡ ((1, left), s'))
        × (pending s' ≡ pending s)

module _ (os : Kernel) {Double : Type 0} where
  open os use {State, stack_word, stack_word_length}

  -- A framed message that is not empty and fits `buffer_msg` is received whole: the result is its
  -- length, the buffer begins with it, and what follows it stays on the connection.
  pub receive_packet-frame :
      {fd : ℕ} (l : Listener Double) (st : Stream os fd) (msg rest : List ℕ) (s : State)
      → l.cln_sock_descr ≡ fd
      → 0 < length msg
      → length msg ≤ length l.buffer_msg
      → length l.buffer_msg < 2 ^ 32
      → st.pending s ≡ frame msg ++ rest
      → (s' : State) × (receive_packet os l s
          ≡ ((length msg, record l { buffer_msg = overwrite msg l.buffer_msg }), s'))
        × (st.pending s' ≡ rest)
  unfolding receive_packet frame bytes_of_word
  receive_packet-frame l st msg rest s c pos fits small e =
      let (s₁, r₁, p₁) =
        st.full_reads (bytes_of_word magic_tag) (bytes_of_word (length msg) ++ (msg ++ rest)) s e in
      let (s₂, r₂, p₂) = st.full_reads (bytes_of_word (length msg)) (msg ++ rest) s₁ p₁ in
      let (s₃, r₃, p₃) = st.full_reads msg rest s₂ p₂ in
      let tag = word-read magic_tag (stack_word s) (omega arith) (stack_word_length s) in
      let size = word-read (length msg) (stack_word s₁) (omega arith) (stack_word_length s₁) in
      (s₃, ground (arith, r₁, r₂, r₃, tag, size), p₃)
