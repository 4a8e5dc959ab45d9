-- ===== src/Node/Events/Books.antt =====
-- What the counters of a module say of its packets, and what each operation does to that.
use desert_addon_uwapp_net.Common.{
  ℕ, ◌+◌, ◌%◌, ◌^◌, ◌≡◌, subst, ap, Option, none, some, List, [], ◌∷◌, ◌++◌, arith, length,
  length-append, >>=-eq-some,
}
use mathlib.Core.Option.{some-injective}
use desert_addon_uwapp_net.Sim.{Sim}
use desert_addon_uwapp_net.Kernel.{Kernel}
use desert_addon_uwapp_net.Packet.{Packet}
use desert_addon_uwapp_net.AppNet.{AppNet, incr_pkts_push_queue}
use desert_addon_uwapp_net.AppNet.Receive.{Verdict, accepted, dropped, count}
use desert_addon_uwapp_net.AppNet.Accounting.{tally, tally-count}
use desert_addon_uwapp_net.Console.{Line, verdict_lines}
use desert_addon_uwapp_net.Listener.Handle.{Work, enqueue, make_packet}
use desert_addon_uwapp_net.Listener.Transmit.{fill_packet, init_packet_tcp}
use desert_addon_uwapp_net.Node.{Held, Node, forward, statistics, recv, expire}
use desert_addon_uwapp_net.Node.Events.{queue_message}

module _ (sim : Sim) (os : Kernel) where
  open sim use {Double}

  -- the length of the queue
  abbrev pub waiting : Option (Held sim os) → ℕ
  waiting none = 0
  waiting (some h) = length h.tcp.queue_pck_read

  -- The counters agree with what has become of the packets: `received` is the number of those from
  -- below, and `gone` of those that were queued in listeners that are no longer used.
  pub record Books (gone received : ℕ) (w : Node sim os) : Type 0 where
    pub sent : w.app.txsn % 2 ^ 32 ≡ (1 + length w.sent_down) % 2 ^ 32
    pub pushed :
        w.app.pkts_push_queue % 2 ^ 32
        ≡ (length w.sent_down + waiting w.p_tcp_listener + gone) % 2 ^ 32
    pub disposed : length w.freed + length w.drops ≡ received
    pub counted : tally w.app % 2 ^ 32 ≡ received % 2 ^ 32

  abbrev pub Agrees : ℕ → Node sim os → Type 0
  Agrees received w = Books 0 received w

  -- `statistics` leaves alone what the sending side counts.
  count-unsent :
      (now : Double) (p : Packet Double) (n : AppNet Double) {n' : AppNet Double} {v : Verdict}
      → count sim now p n ≡ some (n', v)
      → (n'.txsn ≡ n.txsn) × (n'.pkts_push_queue ≡ n.pkts_push_queue)
  unfolding count
  count-unsent now p n h = ground arith

  -- `forward` frees the packet, and changes nothing else but the connection.
  forward-freed :
      (p : Packet Double) (w : Node sim os) {w' : Node sim os}
      → forward sim os p w ≡ some w'
      → (w'.freed ≡ w.freed ++ p ∷ [])
        × (w'.drops ≡ w.drops)
        × (w'.app ≡ w.app)
        × (w'.sent_down ≡ w.sent_down)
        × (w'.p_tcp_listener ≡ w.p_tcp_listener)
  unfolding forward
  forward-freed p w h = ground arith

  -- a packet that has been counted
  verdict-Books :
      (p : Packet Double) (gone r : ℕ) (w w' : Node sim os) (n : AppNet Double) (c : List Line)
      (v : Verdict)
      → Books gone r w
      → n.txsn ≡ w.app.txsn
      → n.pkts_push_queue ≡ w.app.pkts_push_queue
      → tally n % 2 ^ 32 ≡ (tally w.app + 1) % 2 ^ 32
      → elim v [
        | accepted ↦ forward sim os p (record w { app = n; console = c })
        | dropped d ↦ some (record w { app = n; console = c; drops = w.drops ++ (p, d) ∷ [] })
      ]
        ≡ some w'
      → Books gone (1 + r) w'
  verdict-Books p gone r w w' n c accepted a sent pushed counted h =
      let (freed, drops, app, down, held) = forward-freed p (record w { app = n; console = c }) h in
      record {
        sent = ground (arith, app, ap length down, a.sent);
        pushed = ground (arith, app, ap length down, ap waiting held, a.pushed);
        disposed =
            omega
              (arith, ap length freed, length-append w.freed (p ∷ []), ap length drops, a.disposed);
        counted = omega (arith, ap tally app, a.counted);
      }
  verdict-Books p gone r w w' n c (dropped d) a sent pushed counted h =
      let (freed, drops, app, down, held) : (w'.freed ≡ w.freed)
          × (w'.drops ≡ w.drops ++ (p, d) ∷ [])
          × (w'.app ≡ n)
          × (w'.sent_down ≡ w.sent_down)
          × (w'.p_tcp_listener ≡ w.p_tcp_listener) =
        ground (arith, h) in
      record {
        sent = ground (arith, app, ap length down, a.sent);
        pushed = ground (arith, app, ap length down, ap waiting held, a.pushed);
        disposed = omega (
          arith,
          ap length freed,
          ap length drops,
          length-append w.drops ((p, d) ∷ []),
          a.disposed,
        );
        counted = omega (arith, ap tally app, a.counted);
      }

  pub recv-Books :
      (now : Double) (p : Packet Double) (gone r : ℕ) (w : Node sim os) {w' : Node sim os}
      → recv sim os now p w ≡ some w'
      → Books gone r w
      → Books gone (1 + r) w'
  unfolding recv statistics
  recv-Books now p gone r w {w'} h a =
      let ((n, v), one, more) = >>=-eq-some (count sim now p w.app) _ h in
      let (lines, printed, rest) = >>=-eq-some (verdict_lines v n p) _ more in
      let (sent, pushed) = count-unsent now p w.app one in
      verdict-Books p gone r w w' n _ v a sent pushed (tally-count sim now p w.app one) rest

  fill_packet-counters :
      (now : Double) (n : AppNet Double) (p : Packet Double)
      → let (n', p') = fill_packet sim now n p in
        (n'.txsn ≡ (n.txsn + 1) % 2 ^ 32)
        × (n'.pkts_push_queue ≡ n.pkts_push_queue)
        × (tally n' ≡ tally n)
  unfolding fill_packet
  fill_packet-counters now n p = ground arith

  -- the module with this listener, and this queue in it
  abbrev with_queue : Node sim os → Held sim os → List (Packet Double) → Node sim os
  with_queue w h q = record w {
    p_tcp_listener = some (record h { tcp = record h.tcp { queue_pck_read = q } });
  }

  expire_queue-Books :
      (now : Double) (gone r : ℕ) (w : Node sim os) (h : Held sim os) (q : List (Packet Double))
      → Books gone r (with_queue w h q)
      → Books gone r (expire sim os now (with_queue w h q))
  unfolding expire init_packet_tcp
  expire_queue-Books now gone r w h [] a = record {
    sent = a.sent;
    pushed = a.pushed;
    disposed = a.disposed;
    counted = a.counted;
  }
  expire_queue-Books now gone r w h (p ∷ rest) a =
      let (txsn, pushed, same) = fill_packet-counters now w.app p in
      let more = length-append w.sent_down ((fill_packet sim now w.app p).1 ∷ []) in
      record {
        sent = omega (arith, txsn, more, a.sent);
        pushed = omega (arith, pushed, more, a.pushed);
        disposed = a.disposed;
        counted = omega (arith, same, a.counted);
      }

  pub expire_held-Books :
      (now : Double) (gone r : ℕ) (w : Node sim os) (held : Option (Held sim os))
      → Books gone r (record w { p_tcp_listener = held })
      → Books gone r (expire sim os now (record w { p_tcp_listener = held }))
  unfolding expire
  expire_held-Books now gone r w none a = record {
    sent = a.sent;
    pushed = a.pushed;
    disposed = a.disposed;
    counted = a.counted;
  }
  expire_held-Books now gone r w (some h) a =
      expire_queue-Books now gone r w h h.tcp.queue_pck_read a

  pub queue_held-Books :
      (size gone r : ℕ) (w : Node sim os) (held : Option (Held sim os)) {w' : Node sim os}
      → queue_message sim os size (record w { p_tcp_listener = held }) ≡ some w'
      → Books gone r (record w { p_tcp_listener = held })
      → Books gone r w'
  unfolding queue_message enqueue incr_pkts_push_queue
  queue_held-Books size gone r w none h a = subst (Books gone r) (some-injective _ _ h) a
  queue_held-Books size gone r w (some held) h a =
      let (u, ran, done) =
        >>=-eq-some
          (enqueue sim os size (record { owner = w.app; listener = held.tcp; sys = w.sys })) _ h in
      let (p, made, eq) = >>=-eq-some (make_packet sim size held.tcp.buffer_msg) _ ran in
      let more = length-append held.tcp.queue_pck_read (p ∷ []) in
      subst (Books gone r) (some-injective _ _ done) (
        subst
          (λ (v : Work sim os). Books gone r (record w {
            app = v.owner;
            p_tcp_listener = some (record held { tcp = v.listener });
            sys = v.sys;
          }))
          (some-injective _ _ eq)
          (record {
            sent = a.sent;
            pushed = omega (arith, more, a.pushed);
            disposed = a.disposed;
            counted = a.counted;
          }))
