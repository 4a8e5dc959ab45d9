-- ===== src/Listener/Receive.antt =====
-- tcp_listener.h, `ReceivePacket`: one message into `buffer_msg`; its result is an `int`.
pub mod Bounds
pub mod Framing
pub mod Message
pub mod Peer
use desert_addon_uwapp_net.Common.{ℕ, not, none, some, ltb, ◌==◌, if◌then◌else◌, length, minus_one}
use desert_addon_uwapp_net.Kernel.{Kernel}
use desert_addon_uwapp_net.Listener.{Listener}
use desert_addon_uwapp_net.Listener.Wire.{magic_tag, word_of_bytes, overwrite}

abbrev pub Received : Kernel → Type 0 → Type 0
Received os Double = (ℕ × Listener Double) × os.State

module _ (os : Kernel) {Double : Type 0} where
  open os use {State, read, stack_word}

  unfoldable pub receive_payload : ℕ → Listener Double → State → Received os Double
  receive_payload size l s =
      let (r, s') = read l.cln_sock_descr size s in
      elim r [
        | none ↦ ((minus_one, l), s')
        | some bs ↦ ((length bs, record l { buffer_msg = overwrite bs l.buffer_msg }), s')
      ]

  -- `read` has returned `n` for the length, which is now `size`.
  unfoldable pub check_size : ℕ → ℕ → Listener Double → State → Received os Double
  unfolding receive_payload
  check_size n size l s =
      if n == 0
      then ((0, l), s)
      else if ltb (length l.buffer_msg) size
      then ((0, l), s)
      else receive_payload size l s

  unfoldable pub receive_size : Listener Double → State → Received os Double
  unfolding check_size
  receive_size l s =
      let (r, s') = read l.cln_sock_descr 4 s in
      elim r [
        | none ↦ ((minus_one, l), s')
        | some bs ↦ check_size (length bs) (word_of_bytes (overwrite bs (stack_word s))) l s'
      ]

  -- `read` has returned `n` for the begin tag, which is now `magic`.
  unfoldable pub check_magic : ℕ → ℕ → Listener Double → State → Received os Double
  unfolding receive_size
  check_magic n magic l s =
      if n == 0
      then ((0, l), s)
      else if not (magic == magic_tag)
      then ((0, l), s)
      else receive_size l s

  unfoldable pub receive_packet : Listener Double → State → Received os Double
  unfolding check_magic
  receive_packet l s =
      let (r, s') = read l.cln_sock_descr 4 s in
      elim r [
        | none ↦ ((minus_one, l), s')
        | some bs ↦ check_magic (length bs) (word_of_bytes (overwrite bs (stack_word s))) l s'
      ]
