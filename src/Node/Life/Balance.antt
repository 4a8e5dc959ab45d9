-- ===== src/Node/Life/Balance.antt =====
-- Where the packets of a module are, at any moment of its life.
use desert_addon_uwapp_net.Common.{
  ℕ, ◌+◌, ◌≡◌, refl, sym, ap, subst, Bool, Option, none, some, List, [], ◌∷◌, ◌++◌, arith, length,
  length-append, >>=-eq-some,
}
use mathlib.Core.Option.{some-injective}
use desert_addon_uwapp_net.Sim.{Sim}
use desert_addon_uwapp_net.Kernel.{Kernel}
use desert_addon_uwapp_net.AppNet.{incr_pkts_push_queue}
use desert_addon_uwapp_net.Listener.{new_listener}
use desert_addon_uwapp_net.Listener.Setup.{setup}
use desert_addon_uwapp_net.Listener.Handle.{Work, enqueue, make_packet}
use desert_addon_uwapp_net.Thread.{start}
use desert_addon_uwapp_net.Node.{done, waits, Held, Node, delete_listener, stop, start_command}
use desert_addon_uwapp_net.Node.Events.Books.{
  waiting, Books, recv-Books, expire_held-Books, queue_held-Books,
}
use desert_addon_uwapp_net.Node.Life.{
  Life, held_of, queue_of, Happens, receives, expires, starts, stops, blocks, joins, queues, moves,
  orphan_queues, orphan_moves, Happened, nothing, then_happens,
}

module _ (sim : Sim) (os : Kernel) where
  open sim use {Double}

  -- the packets in the queues of these listeners
  abbrev pub queued_in : List (Held sim os) → ℕ
  queued_in [] = 0
  queued_in (h ∷ hs) = length h.tcp.queue_pck_read + queued_in hs

  -- The counters agree with what has become of the packets.
  abbrev pub Balanced : Life sim os → Type 0
  Balanced s = Books sim os (queued_in s.orphans + length s.abandoned) (length s.received) s.node

  queued_in-append :
      (xs ys : List (Held sim os)) → queued_in (xs ++ ys) ≡ queued_in xs + queued_in ys
  queued_in-append [] ys = omega arith
  queued_in-append (h ∷ hs) ys = omega (arith, queued_in-append hs ys)

  queued_in-held_of : (o : Option (Held sim os)) → queued_in (held_of sim os o) ≡ waiting sim os o
  queued_in-held_of none = refl
  queued_in-held_of (some h) = omega arith

  length-queue_of : (o : Option (Held sim os)) → length (queue_of sim os o) ≡ waiting sim os o
  length-queue_of none = refl
  length-queue_of (some h) = refl

  -- From `w` to `w'` no packet has come, gone or been counted.
  record Keeps (w w' : Node sim os) : Type 0 where
    app : w'.app ≡ w.app
    sent_down : w'.sent_down ≡ w.sent_down
    freed : w'.freed ≡ w.freed
    drops : w'.drops ≡ w.drops

  Keeps-Books :
      {g g' r : ℕ} {w w' : Node sim os}
      → Keeps w w'
      → waiting sim os w'.p_tcp_listener + g' ≡ waiting sim os w.p_tcp_listener + g
      → Books sim os g r w
      → Books sim os g' r w'
  Keeps-Books k e a = record {
    sent = ground (arith, k.app, ap length k.sent_down, a.sent);
    pushed = ground (arith, k.app, ap length k.sent_down, e, a.pushed);
    disposed = omega (arith, ap length k.freed, ap length k.drops, a.disposed);
    counted = ground (arith, k.app, a.counted);
  }

  setup-queue :
      (w : Node sim os) (buffer : List ℕ)
      → (setup os {Double = Double}
          (new_listener w.app.serv_port w.app.socket_read_timeout buffer)
          w.sys).0.1.queue_pck_read
        ≡ []
  unfolding setup new_listener
  setup-queue w buffer = ground arith

  start_command-Keeps :
      (spawns : Bool) (buffer : List ℕ) (w : Node sim os) {ok : Bool} {w' : Node sim os}
      → start_command sim os spawns buffer w ≡ done (ok, w')
      → Keeps w w' × (waiting sim os w'.p_tcp_listener ≡ 0)
  unfolding start_command start
  start_command-Keeps spawns buffer w h = (
    record {
      app = ground arith;
      sent_down = ground arith;
      freed = ground arith;
      drops = ground arith;
    },
    ground (arith, setup-queue w buffer),
  )

  stop-Keeps :
      (w : Node sim os) {w' : Node sim os}
      → stop sim os w ≡ done w'
      → Keeps w w' × (w'.p_tcp_listener ≡ none)
  unfolding stop
  stop-Keeps w h = (
    record {
      app = ground arith;
      sent_down = ground arith;
      freed = ground arith;
      drops = ground arith;
    },
    ground arith,
  )

  stop_waits-Keeps :
      (w : Node sim os) {w' : Node sim os}
      → stop sim os w ≡ waits w'
      → Keeps w w' × (waiting sim os w'.p_tcp_listener ≡ waiting sim os w.p_tcp_listener)
  unfolding stop
  stop_waits-Keeps w h = (
    record {
      app = ground arith;
      sent_down = ground arith;
      freed = ground arith;
      drops = ground arith;
    },
    ground arith,
  )

  delete_listener-Keeps :
      (h : Held sim os) (w : Node sim os) {w' : Node sim os}
      → delete_listener sim os h w ≡ done w'
      → Keeps w w' × (w'.p_tcp_listener ≡ none)
  unfolding delete_listener
  delete_listener-Keeps h w e = (
    record {
      app = ground arith;
      sent_down = ground arith;
      freed = ground arith;
      drops = ground arith;
    },
    ground arith,
  )

  -- A message that is queued is counted, whatever listener it is queued in.
  enqueue-counted :
      (size : ℕ) (w : Work sim os) {u : Work sim os}
      → enqueue sim os size w ≡ some u
      → (u.owner ≡ incr_pkts_push_queue w.owner)
        × (length u.listener.queue_pck_read ≡ length w.listener.queue_pck_read + 1)
  unfolding enqueue
  enqueue-counted size w {u} h =
      let (p, made, e) = >>=-eq-some (make_packet sim size w.listener.buffer_msg) _ h in
      let same = some-injective _ _ e in
      (
        sym (ap (λ (v : Work sim os). v.owner) same),
        omega (
          arith,
          ap (λ (v : Work sim os). length v.listener.queue_pck_read) same,
          length-append w.listener.queue_pck_read (p ∷ []),
        ),
      )

  -- the queues when one listener among them has changed
  queued_in-replaced :
      (before : List (Held sim os)) (h h' : Held sim os) (after : List (Held sim os))
      → queued_in (before ++ h' ∷ after) + length h.tcp.queue_pck_read
        ≡ queued_in (before ++ h ∷ after) + length h'.tcp.queue_pck_read
  queued_in-replaced before h h' after =
      omega (arith, queued_in-append before (h' ∷ after), queued_in-append before (h ∷ after))

  orphan_queues-Balanced :
      (s : Life sim os) (size : ℕ) (before : List (Held sim os)) (h : Held sim os)
      (after : List (Held sim os)) {u : Work sim os}
      → s.orphans ≡ before ++ h ∷ after
      → enqueue sim os size (record { owner = s.node.app; listener = h.tcp; sys = s.node.sys })
        ≡ some u
      → Balanced s
      → Balanced (record s {
        node = record s.node { app = u.owner; sys = u.sys };
        orphans = before ++ record h { tcp = u.listener } ∷ after;
      })
  unfolding incr_pkts_push_queue
  orphan_queues-Balanced s size before h after {u} e ran b =
      let (owner, longer) = enqueue-counted size _ ran in
      let swapped = queued_in-replaced before h (record h { tcp = u.listener }) after in
      record {
        sent = ground (arith, owner, b.sent);
        pushed =
            omega
              (arith, ap (λ n. n.pkts_push_queue) owner, longer, swapped, ap queued_in e, b.pushed);
        disposed = b.disposed;
        counted = ground (arith, owner, b.counted);
      }

  -- The queue of a deleted listener is abandoned.
  stopped :
      (s : Life sim os) {held : Option (Held sim os)}
      → held ≡ none
      → waiting sim os held
          + (queued_in s.orphans + length (s.abandoned ++ queue_of sim os s.node.p_tcp_listener))
        ≡ waiting sim os s.node.p_tcp_listener + (queued_in s.orphans + length s.abandoned)
  stopped s e = omega (
    arith,
    ap (waiting sim os) e,
    length-append s.abandoned (queue_of sim os s.node.p_tcp_listener),
    length-queue_of s.node.p_tcp_listener,
  )

  Happens-Balanced : {s t : Life sim os} → Happens sim os s t → Balanced s → Balanced t
  Happens-Balanced {s} (receives {w} now p free ran) b =
      subst (λ k. Books sim os (queued_in s.orphans + length s.abandoned) k w)
        (omega (arith, length-append s.received (p ∷ [])))
        (recv-Books sim os now p _ _ s.node ran b)
  Happens-Balanced {s} (expires now free set) b =
      expire_held-Books sim os now _ _ s.node s.node.p_tcp_listener b
  Happens-Balanced {s} (starts spawns buffer free ran) b =
      let (k, empty) = start_command-Keeps spawns buffer s.node ran in
      Keeps-Books k
        (omega (
          arith,
          empty,
          queued_in-append s.orphans (held_of sim os s.node.p_tcp_listener),
          queued_in-held_of s.node.p_tcp_listener,
        ))
        b
  Happens-Balanced {s} (stops free ran) b =
      let (k, gone) = stop-Keeps s.node ran in Keeps-Books k (stopped s gone) b
  Happens-Balanced {s} (blocks free ran) b =
      let (k, same) = stop_waits-Keeps s.node ran in Keeps-Books k (omega (arith, same)) b
  Happens-Balanced {s} (joins {h} {t} busy held ran deleted) b =
      let (k, gone) = delete_listener-Keeps (record h { thread = t }) s.node deleted in
      Keeps-Books k (stopped s gone) b
  Happens-Balanced {s} (queues size held runs ran) b =
      queue_held-Books sim os size _ _ s.node s.node.p_tcp_listener ran b
  Happens-Balanced {s} (moves {h} held moved) b =
      Keeps-Books (record { app = refl; sent_down = refl; freed = refl; drops = refl })
        (omega (arith, ap (waiting sim os) held)) b
  Happens-Balanced {s} (orphan_queues size before h after e runs ran) b =
      orphan_queues-Balanced s size before h after e ran b
  Happens-Balanced {s} (orphan_moves {t} before h after e moved) b =
      Keeps-Books (record { app = refl; sent_down = refl; freed = refl; drops = refl })
        (omega (arith, queued_in-replaced before h (record h { thread = t }) after, ap queued_in e))
        b

  -- Whatever happens to a module, receptions, expiries, the commands `start` and `stop` in any order,
  -- and its listening threads, those of overwritten listeners among them, at any moment: if its
  -- counters agree with what has become of the packets, they do so afterwards. `txsn` is one more
  -- than the packets sent down; `pkts_push_queue` counts those sent down, those that wait in the
  -- queue, those in the queues of overwritten listeners, which nobody sends, and those that were
  -- queued in a listener when `stop` deleted it; the received packets are counted as received, out of
  -- sequence or invalid (these modulo 2 ^ 32), and as many have been freed or dropped.
  pub Happened-Balanced : {s t : Life sim os} → Happened sim os s t → Balanced s → Balanced t
  Happened-Balanced nothing b = b
  Happened-Balanced (then_happens before last) b =
      Happens-Balanced last (Happened-Balanced before b)
