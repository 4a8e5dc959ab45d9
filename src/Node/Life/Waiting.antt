-- ===== src/Node/Life/Waiting.antt =====
-- A `stop()` of the module that waits for its listening thread.
use desert_addon_uwapp_net.Common.{
  ℕ, List, Bool, ◌≡◌, ◌≢◌, refl, sym, ◌∙◌, subst, true, Option, none, some, arith, >>=-eq-some,
}
use mathlib.Core.Option.{some-injective}
use desert_addon_uwapp_net.Sim.{Sim}
use desert_addon_uwapp_net.Kernel.{Kernel}
use desert_addon_uwapp_net.Packet.{Packet}
use desert_addon_uwapp_net.Listener.Handle.{enqueue}
use desert_addon_uwapp_net.Thread.{
  Thread, unborn, start, join, request_stop, enter_run, leave_run, finish, Advance, enters, awaits,
  connects, refuses, selects, reads, client_leaves, heeds, leaves, finishes,
}
use desert_addon_uwapp_net.Node.{
  done, waits, Held, Node, delete_listener, stop, start_command, recv, statistics, forward, expire,
}
use desert_addon_uwapp_net.Node.Events.{queue_message}
use desert_addon_uwapp_net.Node.Life.{
  Life, Happens, receives, expires, starts, stops, blocks, joins, queues, moves, orphan_queues,
  orphan_moves, Happened, nothing, then_happens,
}

-- A thread that can be joined has been made.
abbrev pub IsMade : Thread → Type 0
IsMade t = t.joinable ≡ true → t.phase ≢ unborn

Advance-IsMade : {t u : Thread} → Advance t u → IsMade t → IsMade u
unfolding enter_run leave_run finish
Advance-IsMade (enters e) m = λ j q. cc
Advance-IsMade (awaits e n) m = λ j q. cc
Advance-IsMade (connects e) m = λ j q. cc
Advance-IsMade (refuses e) m = λ j q. cc
Advance-IsMade (selects e) m = λ j q. cc
Advance-IsMade (reads e) m = λ j q. cc
Advance-IsMade (client_leaves e) m = λ j q. cc
Advance-IsMade (heeds e y) m = λ j q. cc
Advance-IsMade (leaves e y) m = λ j q. cc
Advance-IsMade (finishes e) m = λ j q. cc

pub Advance-joinable : {t u : Thread} → Advance t u → u.joinable ≡ t.joinable
unfolding enter_run leave_run finish
Advance-joinable (enters e) = refl
Advance-joinable (awaits e n) = refl
Advance-joinable (connects e) = refl
Advance-joinable (refuses e) = refl
Advance-joinable (selects e) = refl
Advance-joinable (reads e) = refl
Advance-joinable (client_leaves e) = refl
Advance-joinable (heeds e y) = refl
Advance-joinable (leaves e y) = refl
Advance-joinable (finishes e) = refl

pub Advance-stop : {t u : Thread} → Advance t u → u.stop ≡ t.stop
unfolding enter_run leave_run finish
Advance-stop (enters e) = refl
Advance-stop (awaits e n) = refl
Advance-stop (connects e) = refl
Advance-stop (refuses e) = refl
Advance-stop (selects e) = refl
Advance-stop (reads e) = refl
Advance-stop (client_leaves e) = refl
Advance-stop (heeds e y) = refl
Advance-stop (leaves e y) = refl
Advance-stop (finishes e) = refl

module _ (sim : Sim) (os : Kernel) where
  open sim use {Double}

  abbrev pub MadeIn : Option (Held sim os) → Type 0
  MadeIn none = Unit
  MadeIn (some h) = IsMade h.thread

  -- The listener's thread can be joined and has been asked to stop: a `stop()` leaves it so if it
  -- waits.
  abbrev pub JoinsIn : Option (Held sim os) → Type 0
  JoinsIn none = ⊥
  JoinsIn (some h) = (h.thread.joinable ≡ true) × (h.thread.stop ≡ true)

  pub record IsSound (s : Life sim os) : Type 0 where
    pub made : MadeIn s.node.p_tcp_listener
    pub joins : s.blocked ≡ true → JoinsIn s.node.p_tcp_listener × (s.node.timer ≡ none)

  pub recv-held :
      (now : Double) (p : Packet Double) (w : Node sim os) {w' : Node sim os}
      → recv sim os now p w ≡ some w'
      → w'.p_tcp_listener ≡ w.p_tcp_listener
  unfolding recv statistics forward
  recv-held now p w h = ground arith

  expire-MadeIn :
      (now : Double) (w : Node sim os) (held : Option (Held sim os))
      → MadeIn held
      → MadeIn (expire sim os now (record w { p_tcp_listener = held })).p_tcp_listener
  unfolding expire
  expire-MadeIn now w none m = tt
  expire-MadeIn now w (some h) m = m

  start_command-MadeIn :
      (spawns : Bool) (buffer : List ℕ) (w : Node sim os) {ok : Bool} {w' : Node sim os}
      → start_command sim os spawns buffer w ≡ done (ok, w')
      → MadeIn w'.p_tcp_listener
  unfolding start_command start
  start_command-MadeIn spawns buffer w h = ground arith

  pub stop-none :
      (w : Node sim os) {w' : Node sim os} → stop sim os w ≡ done w' → w'.p_tcp_listener ≡ none
  unfolding stop
  stop-none w h = ground arith

  pub delete_listener-none :
      (h : Held sim os) (w : Node sim os) {w' : Node sim os}
      → delete_listener sim os h w ≡ done w'
      → w'.p_tcp_listener ≡ none
  unfolding delete_listener
  delete_listener-none h w e = ground arith

  stop_held-joins :
      (w : Node sim os) (held : Option (Held sim os)) {w' : Node sim os}
      → stop sim os (record w { p_tcp_listener = held }) ≡ waits w'
      → MadeIn held
      → MadeIn w'.p_tcp_listener × JoinsIn w'.p_tcp_listener × (w'.timer ≡ none)
  unfolding stop join request_stop
  stop_held-joins w none h m = absurd (ground arith)
  stop_held-joins w (some k) {w'} h m =
      let (joined, after) : (k.thread.joinable ≡ true)
          × (record w {
            timer = none;
            p_tcp_listener = some (record k { thread = request_stop k.thread });
          }
              ≡ w') =
        ground arith in
      subst
        (λ (v : Node sim os). MadeIn v.p_tcp_listener × JoinsIn v.p_tcp_listener × (v.timer ≡ none))
        after (m, (joined, refl), refl)

  queue_held-keeps :
      (size : ℕ) (w : Node sim os) (held : Option (Held sim os)) {w' : Node sim os}
      → queue_message sim os size (record w { p_tcp_listener = held }) ≡ some w'
      → (MadeIn held → MadeIn w'.p_tcp_listener)
        × (JoinsIn held → JoinsIn w'.p_tcp_listener)
        × (w'.timer ≡ w.timer)
  unfolding queue_message
  queue_held-keeps size w none h =
      subst
        (λ (v : Node sim os).
          (MadeIn none → MadeIn v.p_tcp_listener)
          × (JoinsIn none → JoinsIn v.p_tcp_listener)
          × (v.timer ≡ w.timer))
        (some-injective _ _ h) (λ m. m, λ j. j, refl)
  queue_held-keeps size w (some k) h =
      let (u, ran, eq) =
        >>=-eq-some (enqueue sim os size (record { owner = w.app; listener = k.tcp; sys = w.sys }))
          _ h in
      subst
        (λ (v : Node sim os).
          (MadeIn (some k) → MadeIn v.p_tcp_listener)
          × (JoinsIn (some k) → JoinsIn v.p_tcp_listener)
          × (v.timer ≡ w.timer))
        (some-injective _ _ eq) (λ m. m, λ j. j, refl)

  Happens-IsSound : {s t : Life sim os} → Happens sim os s t → IsSound s → IsSound t
  Happens-IsSound {s} (receives now p free ran) v = record {
    made = subst MadeIn (sym (recv-held now p s.node ran)) v.made;
    joins = λ b. absurd cc;
  }
  Happens-IsSound {s} (expires now free set) v = record {
    made = expire-MadeIn now s.node s.node.p_tcp_listener v.made;
    joins = λ b. absurd cc;
  }
  Happens-IsSound {s} (starts spawns buffer free ran) v = record {
    made = start_command-MadeIn spawns buffer s.node ran;
    joins = λ b. absurd cc;
  }
  Happens-IsSound {s} (stops free ran) v = record {
    made = subst MadeIn (sym (stop-none s.node ran)) tt;
    joins = λ b. absurd cc;
  }
  Happens-IsSound {s} (blocks free ran) v =
      let (made, joinable, timer) = stop_held-joins s.node s.node.p_tcp_listener ran v.made in
      record { made = made; joins = λ b. (joinable, timer) }
  Happens-IsSound {s} (joins {h} {t} busy held ran deleted) v = record {
    made = subst MadeIn (sym (delete_listener-none (record h { thread = t }) s.node deleted)) tt;
    joins = λ b. absurd cc;
  }
  Happens-IsSound {s} (queues size held runs ran) v =
      let (made, joinable, timer) = queue_held-keeps size s.node s.node.p_tcp_listener ran in
      record {
        made = made v.made;
        joins = λ b. let (j, none_set) = v.joins b in (joinable j, timer ∙ none_set);
      }
  Happens-IsSound {s} (moves {h} held moved) v = record {
    made = Advance-IsMade moved (subst MadeIn held v.made);
    joins = λ b.
        let (j, none_set) = v.joins b in
        let (joinable, asked) = subst JoinsIn held j in
        ((Advance-joinable moved ∙ joinable, Advance-stop moved ∙ asked), none_set);
  }
  Happens-IsSound {s} (orphan_queues size before h after e runs ran) v = record {
    made = v.made;
    joins = v.joins;
  }
  Happens-IsSound {s} (orphan_moves {t} before h after e moved) v = record {
    made = v.made;
    joins = v.joins;
  }

  pub Happened-IsSound : {s t : Life sim os} → Happened sim os s t → IsSound s → IsSound t
  Happened-IsSound nothing v = v
  Happened-IsSound (then_happens before last) v = Happens-IsSound last (Happened-IsSound before v)
