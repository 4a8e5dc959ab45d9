-- ===== src/Listener/Handle/Clients.antt =====
-- `Run` serves the clients one after the other.
use desert_addon_uwapp_net.Common.{
  ℕ, suc, zero, ◌+◌, ◌%◌, ◌^◌, ◌<◌, ◌≡◌, refl, sym, ◌∙◌, ap, subst, true, false, some, List, [],
  ◌∷◌, ◌++◌, map, arith, length, length-append, All, is_negative,
}
use mathlib.Core.List.{append_assoc, append-nil, map-append, flatten}
use desert_addon_uwapp_net.Sim.{Sim}
use desert_addon_uwapp_net.Kernel.{Kernel}
use desert_addon_uwapp_net.Packet.{Packet}
use desert_addon_uwapp_net.Listener.Handle.{
  Work, close_client, handle_tcp_client, close_server, run_loop, run,
}
use desert_addon_uwapp_net.Listener.Handle.Queue.{IsSound, content}
use desert_addon_uwapp_net.Listener.Handle.Messages.{IsMessage, frames, IsServing}
use desert_addon_uwapp_net.Listener.Handle.Backlog.{Backlog}
use desert_addon_uwapp_net.Listener.Handle.Session.{rounds, handle_loop-Session}
use desert_addon_uwapp_net.Listener.Receive.Peer.{stream_of}
use desert_addon_uwapp_net.Listener.Handle.Parsing.{messages_of, messages_of-frames}

-- The calls of `StopRequested` for these clients: for each, one in `Run`, one for each message and one
-- for the end of the connection.
unfoldable pub calls_for : List (List (List ℕ)) → ℕ
unfolding rounds
calls_for [] = 0
calls_for (c ∷ cs) = suc (rounds c (suc (calls_for cs)))

rounds-le : (ms : List (List ℕ)) (calls : ℕ) → rounds ms calls ≡ length ms + calls
unfolding rounds
rounds-le [] calls = omega arith
rounds-le (m ∷ ms) calls = omega (arith, rounds-le ms calls)

-- The messages of the clients, each up to the first place where none begins.
abbrev pub sessions : List (List ℕ) → List (List (List ℕ))
sessions clients = map messages_of clients

sessions-frames :
    (clients : List (List (List ℕ)))
    → All (All IsMessage) clients
    → sessions (map frames clients) ≡ clients
sessions-frames [] h = refl
sessions-frames (c ∷ cs) h =
    ap (λ t. t ∷ sessions (map frames cs)) (messages_of-frames c h.0)
    ∙ ap (λ t. c ∷ t) (sessions-frames cs h.1)

module _ (sim : Sim) (os : Kernel) {srv fd : ℕ} (b : Backlog os srv fd) where
  open sim use {Double}

  pub record Collected (w : Work sim os) (msgs : List (List ℕ)) (w' : Work sim os) : Type 0 where
    pub packets : List (Packet Double)
    pub queued : w'.listener.queue_pck_read ≡ w.listener.queue_pck_read ++ packets
    pub carried : map content packets ≡ msgs
    pub counted :
        w'.owner.pkts_push_queue % 2 ^ 32 ≡ (w.owner.pkts_push_queue + length msgs) % 2 ^ 32
    pub numbers : w'.owner.txsn ≡ w.owner.txsn
    pub sound : IsSound sim os w'.listener
    pub nobody_waits : b.waiting w'.sys ≡ []

  run_loop-sessions :
      (clients : List (List ℕ)) (fuel : ℕ) (w : Work sim os)
      → is_negative fd ≡ false
      → IsSound sim os w.listener
      → w.listener.serv_sock_descr ≡ srv
      → b.waiting w.sys ≡ clients
      → calls_for (sessions clients) < fuel
      → (w' : Work sim os) × (run_loop sim os fuel (calls_for (sessions clients)) w
          ≡ some (true, w'))
        × Collected w (flatten (sessions clients)) w'
  unfolding run_loop calls_for flatten handle_tcp_client close_client messages_of
  run_loop-sessions cs zero w pos sound srv_eq e lt = absurd (omega arith)
  run_loop-sessions [] (suc fuel) w pos sound srv_eq e lt = (
    w,
    refl,
    record {
      packets = [];
      queued = sym (append-nil w.listener.queue_pck_read);
      carried = refl;
      counted = omega arith;
      numbers = refl;
      sound = sound;
      nobody_waits = e;
    },
  )
  run_loop-sessions (c ∷ cs) (suc fuel) w pos sound srv_eq e lt =
      let (s₁, taken, bytes, others) = b.accepts c cs w.sys e in
      let w₁ : Work sim os = record w {
        listener = record w.listener { cln_sock_descr = fd };
        sys = s₁;
      } in
      let v : IsServing sim os (stream_of b.peer) w₁ = record {
        client = refl;
        sound = record { buffer = sound.buffer; queued = sound.queued };
      } in
      let calls = calls_for (sessions cs) in
      let (w₂, served, t) =
        handle_loop-Session sim os b (length c) c calls w₁ v bytes (omega arith) in
      let w₃ : Work sim os = close_client sim os w₂ in
      let (w', rest, u) =
        run_loop-sessions cs fuel w₃ pos
          (record { buffer = t.sound.buffer; queued = t.sound.queued }) (t.calm.server ∙ srv_eq)
          (ap (λ d. b.waiting (os.close d w₂.sys)) t.calm.client
            ∙ b.close_waiting w₂.sys
            ∙ t.calm.others
            ∙ others)
          (omega (arith, rounds-le (messages_of c) (suc calls), lt)) in
      (
        w',
        ground (arith, srv_eq, taken, pos, served, rest),
        record {
          packets = t.packets ++ u.packets;
          queued =
              u.queued
              ∙ ap (λ q. q ++ u.packets) t.queued
              ∙ append_assoc w.listener.queue_pck_read t.packets u.packets;
          carried = simp (map-append, t.carried, u.carried);
          counted =
              omega (
                arith,
                t.counted,
                u.counted,
                length-append (messages_of c) (flatten (sessions cs)),
              );
          numbers = u.numbers ∙ t.numbers;
          sound = u.sound;
          nobody_waits = u.nobody_waits;
        },
      )

  -- `Run`, on a sound listener that is set up, with clients that wait one after the other, each of
  -- which has sent any bytes whatever and closed its end. If a stop is requested once all are served,
  -- `Run` does not fault and comes to its end; it has accepted every client and put one packet for
  -- each message into the queue, in the order of the clients and of their messages and with their
  -- bytes, and counted them in `pkts_push_queue` (modulo 2 ^ 32); nobody waits any more, and at last
  -- the server's descriptor is closed. The messages of a client are those that its bytes begin with,
  -- each behind a header with the begin tag and a size from 1 to 4096, up to the first place without
  -- such a header or without a byte behind it; the last message is cut where the bytes end.
  pub run-sessions :
      (clients : List (List ℕ)) (w : Work sim os)
      → is_negative fd ≡ false
      → w.listener.socket_set_up ≡ true
      → IsSound sim os w.listener
      → w.listener.serv_sock_descr ≡ srv
      → b.waiting w.sys ≡ clients
      → (w' : Work sim os) × (run sim os (calls_for (sessions clients)) w
          ≡ some (true, close_server sim os w'))
        × Collected w (flatten (sessions clients)) w'
  unfolding run
  run-sessions clients w pos up sound srv_eq e =
      let (w', ran, t) =
        run_loop-sessions clients (suc (calls_for (sessions clients))) w pos sound srv_eq e
          (omega arith) in
      (w', ground (arith, up, ran), t)

  -- If the clients send framed messages, neither empty nor larger than the buffer, and then close
  -- their ends, every message of every client is queued.
  run-clients :
      (clients : List (List (List ℕ))) (w : Work sim os)
      → is_negative fd ≡ false
      → w.listener.socket_set_up ≡ true
      → IsSound sim os w.listener
      → w.listener.serv_sock_descr ≡ srv
      → b.waiting w.sys ≡ map frames clients
      → All (All IsMessage) clients
      → (w' : Work sim os) × (run sim os (calls_for clients) w
          ≡ some (true, close_server sim os w'))
        × Collected w (flatten clients) w'
  run-clients clients w pos up sound srv_eq e h =
      subst
        (λ ms.
          (w' : Work sim os) × (run sim os (calls_for ms) w ≡ some (true, close_server sim os w'))
          × Collected w (flatten ms) w')
        (sessions-frames clients h) (run-sessions (map frames clients) w pos up sound srv_eq e)
