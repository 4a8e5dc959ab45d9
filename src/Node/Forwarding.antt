-- ===== src/Node/Forwarding.antt =====
-- What the client of a receiving module gets.
use desert_addon_uwapp_net.Common.{
  ℕ, ◌≡◌, ◌≢◌, false, refl, sym, ap, ◌∙◌, subst, some, List, [], ◌∷◌, ◌++◌, map, arith, All,
}
use mathlib.Core.List.{append_assoc, append-nil, map-append}
use desert_addon_uwapp_net.Sim.{Sim}
use desert_addon_uwapp_net.Kernel.{Kernel}
use desert_addon_uwapp_net.Packet.{Packet}
use desert_addon_uwapp_net.AppNet.{AppNet}
use desert_addon_uwapp_net.AppNet.Receive.{Verdict, accepted, dropped, count, count_all}
use desert_addon_uwapp_net.AppNet.Accounting.{passes, passes-append, count_all-cons}
use desert_addon_uwapp_net.Console.{logs_at, recv_lines}
use desert_addon_uwapp_net.Console.Lines.{verdict_lines-quiet, count-debug}
use desert_addon_uwapp_net.Listener.Send.Framing.{Sink}
use desert_addon_uwapp_net.Listener.Send.Carrier.{Carrier, sink_carrier}
use desert_addon_uwapp_net.Listener.Handle.Queue.{content, HasPayload}
use desert_addon_uwapp_net.Listener.Handle.Messages.{frames}
use desert_addon_uwapp_net.Node.{Held, Node, forward, statistics, recv, recv_all}

abbrev pub ArrivesSound : {Double : Type 0} → Double × Packet Double → Type 0
ArrivesSound (now, p) = HasPayload p

module _ (sim : Sim) (os : Kernel) where
  open sim use {Double}

  -- A listener is there, and its client is connected.
  pub record IsConnected (fd : ℕ) (h : Held sim os) (w : Node sim os) : Type 0 where
    pub held : w.p_tcp_listener ≡ some h
    pub client : h.tcp.cln_sock_descr ≡ fd
    pub is_open : fd ≢ 0

  module _ {fd : ℕ} (k : Carrier os fd) (h : Held sim os) where
    forward-carried :
        (p : Packet Double) (w : Node sim os)
        → IsConnected fd h w
        → HasPayload p
        → (s : os.State) × (forward sim os p w
            ≡ some (record w { sys = s; freed = w.freed ++ p ∷ [] }))
          × k.carried w.sys (content p ∷ []) s
    unfolding forward
    forward-carried p w c sound =
        let (ok, s, e, q) =
          k.carried_send h.tcp p.payload_msg p.payload_size w.sys c.client c.is_open
            (omega (arith, sound.room, sound.within)) (omega (arith, sound.within)) in
        (s, ground (arith, c.held, e), q)

    -- From `w` to `w'` these packets have been freed, and their payloads carried.
    pub record Carried (w : Node sim os) (passed : List (Packet Double)) (w' : Node sim os)
        : Type 0 where
      pub freed : w'.freed ≡ w.freed ++ passed
      pub sent : k.carried w.sys (map content passed) w'.sys
      pub connected : IsConnected fd h w'

    Carried-append :
        {w w₁ w' : Node sim os} {a b : List (Packet Double)}
        → Carried w a w₁
        → Carried w₁ b w'
        → Carried w (a ++ b) w'
    Carried-append {w} {w₁} {w'} {a} {b} f g = record {
      freed = g.freed ∙ ap (λ t. t ++ b) f.freed ∙ append_assoc w.freed a b;
      sent =
          subst (λ ms. k.carried w.sys ms w'.sys) (sym (map-append content a b))
            (k.carried_append (map content a) (map content b) f.sent g.sent);
      connected = g.connected;
    }

    Carried-nil : (w : Node sim os) → IsConnected fd h w → Carried w [] w
    Carried-nil w c = record {
      freed = sym (append-nil w.freed);
      sent = k.carried_nil w.sys;
      connected = c;
    }

    statistics-Carried :
        (now : Double) (p : Packet Double) (w : Node sim os) (n : AppNet Double) (v : Verdict)
        → IsConnected fd h w
        → HasPayload p
        → logs_at 1 n.debug ≡ false
        → count sim now p w.app ≡ some (n, v)
        → (w' : Node sim os) × (statistics sim os now p w ≡ some w')
          × (w'.app ≡ n)
          × Carried w (passes v p) w'
    unfolding statistics
    statistics-Carried now p w n accepted c sound quiet e =
        let (lines, printed) =
          verdict_lines-quiet accepted n p quiet (omega (arith, sound.room, sound.within)) in
        let w₁ : Node sim os = record w { app = n; console = w.console ++ lines } in
        let c₁ : IsConnected fd h w₁ = record {
          held = c.held;
          client = c.client;
          is_open = c.is_open;
        } in
        let (s, ran, sent) = forward-carried p w₁ c₁ sound in
        (
          record w₁ { sys = s; freed = w.freed ++ p ∷ [] },
          rw (e, printed) ran,
          refl,
          record {
            freed = refl;
            sent = sent;
            connected = record { held = c.held; client = c.client; is_open = c.is_open };
          },
        )
    statistics-Carried now p w n (dropped r) c sound quiet e =
        let (lines, printed) =
          verdict_lines-quiet (dropped r) n p quiet (omega (arith, sound.room, sound.within)) in
        (
          record w { app = n; console = w.console ++ lines; drops = w.drops ++ (p, r) ∷ [] },
          rw (e, printed) refl,
          refl,
          record {
            freed = sym (append-nil w.freed);
            sent = k.carried_nil w.sys;
            connected = record { held = c.held; client = c.client; is_open = c.is_open };
          },
        )

    -- What `count_all` lets through is carried, in order, and freed; nothing faults.
    pub recv_all-Carried :
        (ps : List (Double × Packet Double)) (w : Node sim os) {n' : AppNet Double}
        {passed : List (Packet Double)}
        → IsConnected fd h w
        → All ArrivesSound ps
        → logs_at 1 w.app.debug ≡ false
        → count_all sim ps w.app ≡ some (n', passed)
        → (w' : Node sim os) × (recv_all sim os ps w ≡ some w')
          × (w'.app ≡ n')
          × Carried w passed w'
    unfolding recv_all recv count_all
    recv_all-Carried [] w c sound quiet e =
        (w, refl, ground arith, subst (λ q. Carried w q w) (ground arith) (Carried-nil w c))
    recv_all-Carried ((now, p) ∷ ps) w {n' = n'} {passed = passed} c sound quiet e =
        let (n₁, v, rest, one, others, q) = count_all-cons sim now p ps w.app e in
        let still = count-debug sim now p w.app one in
        let heard : Node sim os = record w { console = w.console ++ recv_lines w.app } in
        let (w₁, ran, app₁, f) =
          statistics-Carried now p heard n₁ v
            (record { held = c.held; client = c.client; is_open = c.is_open }) sound.0
            (ap (logs_at 1) still ∙ quiet) one in
        let (w', more, app', g) =
          recv_all-Carried ps w₁ f.connected sound.1
            (ap (λ (n : AppNet Double). logs_at 1 n.debug) app₁ ∙ ap (logs_at 1) still ∙ quiet)
            (ap (count_all sim ps) app₁ ∙ others) in
        let f' : Carried w (passes v p) w₁ = record {
          freed = f.freed;
          sent = f.sent;
          connected = f.connected;
        } in
        (
          w',
          rw ran more,
          app',
          subst (λ t. Carried w t w') (passes-append v p rest ∙ sym q) (Carried-append f' g),
        )

  module _ {fd : ℕ} (k : Sink os fd) (h : Held sim os) where
    -- From `w` to `w'` these packets have been freed, and their frames sent to the client.
    pub record Forwarded (w : Node sim os) (passed : List (Packet Double)) (w' : Node sim os)
        : Type 0 where
      pub freed : w'.freed ≡ w.freed ++ passed
      pub sent : k.sent w'.sys ≡ k.sent w.sys ++ frames (map content passed)
      pub connected : IsConnected fd h w'

    -- Let `count_all` pass certain packets of those that arrive, all with a payload size that their
    -- array has room for. Then `statistics` on these arrivals, at a module with a debug level below 1
    -- whose client is connected and takes all bytes, does not fault; it sends the client the frames
    -- of exactly the packets that pass, in order, frees exactly them, and leaves the counters as
    -- `count_all` does.
    pub recv_all-Forwarded :
        (ps : List (Double × Packet Double)) (w : Node sim os) {n' : AppNet Double}
        {passed : List (Packet Double)}
        → IsConnected fd h w
        → All ArrivesSound ps
        → logs_at 1 w.app.debug ≡ false
        → count_all sim ps w.app ≡ some (n', passed)
        → (w' : Node sim os) × (recv_all sim os ps w ≡ some w')
          × (w'.app ≡ n')
          × Forwarded w passed w'
    recv_all-Forwarded ps w c sound quiet e =
        let (w', ran, app, f) = recv_all-Carried (sink_carrier k) h ps w c sound quiet e in
        (w', ran, app, record { freed = f.freed; sent = f.sent; connected = f.connected })
