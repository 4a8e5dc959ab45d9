-- ===== src/Listener/Handle/Backlog.antt =====
-- Clients that wait to be accepted, one after the other, and what serving one leaves of the others.
use desert_addon_uwapp_net.Common.{
  ℕ, ◌≡◌, refl, ◌∙◌, none, some, List, ◌∷◌, arith, Option, ap, length,
}
use desert_addon_uwapp_net.Kernel.{Kernel}
use desert_addon_uwapp_net.Listener.{Listener}
use desert_addon_uwapp_net.Listener.Wire.{word_of_bytes, overwrite}
use desert_addon_uwapp_net.Listener.Setup.{ready_to_read}
use desert_addon_uwapp_net.Listener.Receive.{
  receive_payload, check_size, receive_size, check_magic, receive_packet,
}
use desert_addon_uwapp_net.Listener.Receive.Peer.{Peer}

-- The descriptor `srv` accepts the clients in order, each on the descriptor `fd`, which is free again
-- by then; `waiting` has the bytes that each of them sends before it closes its end. Calls on one
-- connection leave the clients alone that wait.
pub record Backlog (os : Kernel) (srv fd : ℕ) : Type 0 where
  pub peer : Peer os fd
  pub waiting : os.State → List (List ℕ)
  pub accepts :
      (c : List ℕ) (cs : List (List ℕ)) (s : os.State)
      → waiting s ≡ c ∷ cs
      → (s' : os.State) × (os.accept srv s ≡ (fd, s')) × (peer.pending s' ≡ c) × (waiting s' ≡ cs)
  pub read_waiting : (n : ℕ) (s : os.State) → waiting (os.read fd n s).1 ≡ waiting s
  pub select_waiting : (timeout : ℕ) (s : os.State) → waiting (os.select fd timeout s).1 ≡ waiting s
  pub shutdown_waiting : (s : os.State) → waiting (os.shutdown fd s) ≡ waiting s
  pub close_waiting : (s : os.State) → waiting (os.close fd s) ≡ waiting s

module _ (os : Kernel) {srv fd : ℕ} (b : Backlog os srv fd) where
  open os use {State, stack_word}

  -- The server's state, and the clients that wait, are as before.
  pub record IsCalm {Double : Type 0} (l : Listener Double) (s : State) (l' : Listener Double)
      (s' : State) : Type 0 where
    pub server : l'.serv_sock_descr ≡ l.serv_sock_descr
    pub client : l'.cln_sock_descr ≡ l.cln_sock_descr
    pub up : l'.socket_set_up ≡ l.socket_set_up
    pub others : b.waiting s' ≡ b.waiting s

  module _ {Double : Type 0} where
    receive_payload-IsCalm :
        (size : ℕ) (l : Listener Double) (s : State)
        → l.cln_sock_descr ≡ fd
        → let ((n, l'), s') = receive_payload os size l s in IsCalm l s l' s'
    unfolding receive_payload
    receive_payload-IsCalm size l s c = ground (arith, c, b.read_waiting size s)

    check_size-IsCalm :
        (n size : ℕ) (l : Listener Double) (s : State)
        → l.cln_sock_descr ≡ fd
        → let ((k, l'), s') = check_size os n size l s in IsCalm l s l' s'
    unfolding check_size
    check_size-IsCalm n size l s c = ground (arith, c, receive_payload-IsCalm size l s c)

    -- a chain of calls
    pub IsCalm-trans :
        {l l₁ l' : Listener Double} {s s₁ s' : State}
        → IsCalm l s l₁ s₁
        → IsCalm l₁ s₁ l' s'
        → IsCalm l s l' s'
    IsCalm-trans x y = record {
      server = y.server ∙ x.server;
      client = y.client ∙ x.client;
      up = y.up ∙ x.up;
      others = y.others ∙ x.others;
    }

    -- a call of `read` alone
    read-IsCalm :
        (n : ℕ) (l : Listener Double) (s : State)
        → l.cln_sock_descr ≡ fd
        → IsCalm l s l (os.read l.cln_sock_descr n s).1
    read-IsCalm n l s c = record {
      server = refl;
      client = refl;
      up = refl;
      others = ap (λ d. b.waiting (os.read d n s).1) c ∙ b.read_waiting n s;
    }

    receive_size-IsCalm :
        (l : Listener Double) (s : State)
        → l.cln_sock_descr ≡ fd
        → let ((k, l'), s') = receive_size os l s in IsCalm l s l' s'
    unfolding receive_size
    receive_size-IsCalm l s c = go (os.read l.cln_sock_descr 4 s).0 refl
      where
        s₁ : State
        s₁ = (os.read l.cln_sock_descr 4 s).1

        go :
            (r : Option (List ℕ))
            → (os.read l.cln_sock_descr 4 s).0 ≡ r
            → let ((k, l'), s') = receive_size os l s in IsCalm l s l' s'
        go none e = ground (arith, e, read-IsCalm 4 l s c)
        go (some bs) e =
            let n = length bs in
            let size = word_of_bytes (overwrite bs (stack_word s)) in
            ground (arith, e, IsCalm-trans (read-IsCalm 4 l s c) (check_size-IsCalm n size l s₁ c))

    check_magic-IsCalm :
        (n magic : ℕ) (l : Listener Double) (s : State)
        → l.cln_sock_descr ≡ fd
        → let ((k, l'), s') = check_magic os n magic l s in IsCalm l s l' s'
    unfolding check_magic
    check_magic-IsCalm n magic l s c = ground (arith, receive_size-IsCalm l s c)

    pub receive_packet-IsCalm :
        (l : Listener Double) (s : State)
        → l.cln_sock_descr ≡ fd
        → let ((k, l'), s') = receive_packet os l s in IsCalm l s l' s'
    unfolding receive_packet
    receive_packet-IsCalm l s c = go (os.read l.cln_sock_descr 4 s).0 refl
      where
        s₁ : State
        s₁ = (os.read l.cln_sock_descr 4 s).1

        go :
            (r : Option (List ℕ))
            → (os.read l.cln_sock_descr 4 s).0 ≡ r
            → let ((k, l'), s') = receive_packet os l s in IsCalm l s l' s'
        go none e = ground (arith, e, read-IsCalm 4 l s c)
        go (some bs) e =
            let n = length bs in
            let magic = word_of_bytes (overwrite bs (stack_word s)) in
            ground
              (arith, e, IsCalm-trans (read-IsCalm 4 l s c) (check_magic-IsCalm n magic l s₁ c))

    pub ready_to_read-IsCalm :
        (l : Listener Double) (s : State)
        → l.cln_sock_descr ≡ fd
        → let ((ok, l'), s') = ready_to_read os l s in IsCalm l s l' s'
    unfolding ready_to_read
    ready_to_read-IsCalm l s c = ground (arith, c, b.select_waiting l.read_timeout s)
