-- ===== src/Listener/Receive/Bounds.antt =====
-- `ReceivePacket` stays within `buffer_msg`.
use desert_addon_uwapp_net.Common.{
  ℕ, ◌≤◌, ◌≡◌, ◌⊎◌, inl, inr, refl, some, none, arith, length, length-append, length-drop,
  minus_one, drop, Option, List,
}
use desert_addon_uwapp_net.Kernel.{Kernel}
use desert_addon_uwapp_net.Listener.{Listener}
use desert_addon_uwapp_net.Listener.Receive.{
  Received, receive_payload, check_size, receive_size, check_magic, receive_packet,
}

module _ (os : Kernel) {Double : Type 0} where
  open os use {State, read, read_count, stack_word}

  -- The result is -1 or a count that the buffer holds, and the buffer keeps its length.
  pub record IsWithin (l : Listener Double) (r : Received os Double) : Type 0 where
    pub result : (r.0.0 ≡ minus_one) ⊎ (r.0.0 ≤ length l.buffer_msg)
    pub buffer : length r.0.1.buffer_msg ≡ length l.buffer_msg
    pub queue : r.0.1.queue_pck_read ≡ l.queue_pck_read
    pub client : r.0.1.cln_sock_descr ≡ l.cln_sock_descr

  receive_payload-IsWithin :
      (size : ℕ) (l : Listener Double) (s : State)
      → size ≤ length l.buffer_msg
      → IsWithin l (receive_payload os size l s)
  unfolding receive_payload
  receive_payload-IsWithin size l s le =
      go (read l.cln_sock_descr size s).0 (read l.cln_sock_descr size s).1 refl
    where
      go :
          (r : Option (List ℕ)) (s' : State)
          → read l.cln_sock_descr size s ≡ (r, s')
          → IsWithin l (receive_payload os size l s)
      go none s' e =
          rw (e, receive_payload)
            (record { result = inl refl; buffer = refl; queue = refl; client = refl })
      go (some bs) s' e =
          let short = read_count l.cln_sock_descr size s bs s' e in
          rw (e, receive_payload)
            (record {
              result = inr (omega arith);
              buffer = omega (
                arith,
                length-append bs (drop (length bs) l.buffer_msg),
                length-drop (length bs) l.buffer_msg,
              );
              queue = refl;
              client = refl;
            })

  check_size-IsWithin :
      (n size : ℕ) (l : Listener Double) (s : State) → IsWithin l (check_size os n size l s)
  unfolding check_size
  check_size-IsWithin n size l s = grind (arith, receive_payload-IsWithin)

  receive_size-IsWithin : (l : Listener Double) (s : State) → IsWithin l (receive_size os l s)
  unfolding receive_size
  receive_size-IsWithin l s = grind (arith, check_size-IsWithin)

  check_magic-IsWithin :
      (n magic : ℕ) (l : Listener Double) (s : State) → IsWithin l (check_magic os n magic l s)
  unfolding check_magic
  check_magic-IsWithin n magic l s = ground (arith, receive_size-IsWithin l s)

  -- For every content of the connection and whatever the calls of `read` return, the result of
  -- `ReceivePacket` is -1 or at most the size of `buffer_msg`, the buffer keeps its size (no byte
  -- is written behind it), and the queue and the descriptor are left alone.
  pub receive_packet-IsWithin :
      (l : Listener Double) (s : State) → IsWithin l (receive_packet os l s)
  unfolding receive_packet
  receive_packet-IsWithin l s = grind (arith, check_magic-IsWithin)
