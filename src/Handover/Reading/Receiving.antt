-- ===== src/Handover/Reading/Receiving.antt =====
-- What the listening thread receives in a round, from a client that has sent all that it sends.
use desert_addon_uwapp_net.Common.{
  ℕ, Bool, ◌≤◌, ◌≡◌, ◌==◌, sym, ap, ◌∙◌, true, false, List, ◌∷◌, arith, length, take, Option-cases,
  inl, inr, length-append, length-drop, take-append_self, drop,
}
use desert_addon_uwapp_net.Sim.{Sim}
use desert_addon_uwapp_net.Kernel.{Kernel}
use desert_addon_uwapp_net.Listener.{Listener}
use desert_addon_uwapp_net.Listener.Wire.{overwrite}
use desert_addon_uwapp_net.Listener.Setup.{ready_to_read}
use desert_addon_uwapp_net.Listener.Receive.{Received, receive_packet}
use desert_addon_uwapp_net.Listener.Receive.Message.{next_message}
use desert_addon_uwapp_net.Listener.Receive.Peer.{Peer, receive_packet-none, receive_packet-some}
use desert_addon_uwapp_net.Listener.Handle.Parsing.{messages_of, messages_of-next}

module _ (sim : Sim) (os : Kernel) {fd : ℕ} (p : Peer os fd) where
  open sim use {Double}

  -- `ReadyToRead` changes nothing but the timeout, and takes nothing off the connection.
  pub record Polled (l : Listener Double) (s : os.State) (l' : Listener Double) (s' : os.State)
      : Type 0 where
    pub ready : (ready_to_read os l s).0.0 ≡ true
    pub client : l'.cln_sock_descr ≡ l.cln_sock_descr
    pub buffer : l'.buffer_msg ≡ l.buffer_msg
    pub queue : l'.queue_pck_read ≡ l.queue_pck_read
    pub pending : p.pending s' ≡ p.pending s

  pub ready_to_read-Polled :
      (l : Listener Double) (s : os.State) {ok : Bool} {l' : Listener Double} {s' : os.State}
      → l.cln_sock_descr ≡ fd
      → ready_to_read os l s ≡ ((ok, l'), s')
      → Polled l s l' s'
  unfolding ready_to_read
  ready_to_read-Polled l s c e =
      let (left, s₁, selected, same) = p.selects l.read_timeout s in
      record {
        ready = ground (arith, c, selected);
        client = ground (arith, c, selected, e);
        buffer = ground (arith, c, selected, e);
        queue = ground (arith, c, selected, e);
        pending = ground (arith, c, selected, e, same);
      }

  -- what `ReceivePacket` has received, if it has returned something
  pub record Got (l : Listener Double) (s : os.State) (n : ℕ) (l' : Listener Double) (s' : os.State)
      : Type 0 where
    pub msg : List ℕ
    pub size : n ≡ length msg
    pub fits : length msg ≤ 4096
    pub client : l'.cln_sock_descr ≡ l.cln_sock_descr
    pub buffer : length l'.buffer_msg ≡ 4096
    pub begins : take (length msg) l'.buffer_msg ≡ msg
    pub queue : l'.queue_pck_read ≡ l.queue_pck_read
    pub messages : messages_of (p.pending s) ≡ msg ∷ messages_of (p.pending s')

  pub receive_packet-Got :
      (l : Listener Double) (s : os.State) {n : ℕ} {l' : Listener Double} {s' : os.State}
      → l.cln_sock_descr ≡ fd
      → length l.buffer_msg ≡ 4096
      → receive_packet os l s ≡ ((n, l'), s')
      → (n == 0) ≡ false
      → Got l s n l' s'
  receive_packet-Got l s {n} {l'} {s'} c full ran positive =
      elim (Option-cases (next_message (p.pending s))) [
        | inl ended ↦
            let (s₁, zero_bytes) = receive_packet-none os p l s c full ended in
            absurd (ground (arith, zero_bytes, ran, positive))
        | inr ((msg, rest), more) ↦
            let (s₁, one, after, pos, fits) = receive_packet-some os p l s c full more in
            let long : length (overwrite msg l.buffer_msg) ≡ 4096 = omega (
              arith,
              full,
              fits,
              length-append msg (drop (length msg) l.buffer_msg),
              length-drop (length msg) l.buffer_msg,
            ) in
            let same : ((length msg, record l { buffer_msg = overwrite msg l.buffer_msg }), s₁)
                ≡ ((n, l'), s') =
              sym one ∙ ran in
            let listener : record l { buffer_msg = overwrite msg l.buffer_msg } ≡ l' =
              ap (λ (r : Received os Double). r.0.1) same in
            record {
              msg = msg;
              size = sym (ap (λ (r : Received os Double). r.0.0) same);
              fits = fits;
              client = ap (λ (x : Listener Double). x.cln_sock_descr) (sym listener);
              buffer = ap (λ (x : Listener Double). length x.buffer_msg) (sym listener) ∙ long;
              begins =
                  ap (λ (x : Listener Double). take (length msg) x.buffer_msg) (sym listener)
                  ∙ take-append_self msg (drop (length msg) l.buffer_msg);
              queue = ap (λ (x : Listener Double). x.queue_pck_read) (sym listener);
              messages =
                  messages_of-next (p.pending s) more
                  ∙ ap (λ t. msg ∷ messages_of t)
                      (sym after ∙ ap (λ (r : Received os Double). p.pending r.1) same);
            }
      ]
