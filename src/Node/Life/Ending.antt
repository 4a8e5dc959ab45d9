-- ===== src/Node/Life/Ending.antt =====
-- A `stop()` of the module that waits for its listening thread: when it comes to its end, and when
-- it does not.
use desert_addon_uwapp_net.Common.{
  ◌++◌, ◌≡◌, ◌≢◌, refl, sym, ap, ◌∙◌, Bool, true, false, ◌&&◌, Option, none, some, arith,
}
use desert_addon_uwapp_net.Sim.{Sim}
use desert_addon_uwapp_net.Kernel.{Kernel}
use desert_addon_uwapp_net.Thread.{
  Thread, Phase, unborn, spawned, in_run, accepting, serving, receiving, returned, finished, join,
  enter_run, leave_run, finish, destroy_aborts, Advance, enters, heeds, leaves, finishes, is_own,
  waits_for_client,
}
use desert_addon_uwapp_net.Node.{Held, delete_listener}
use desert_addon_uwapp_net.Node.Life.Waiting.{
  MadeIn, JoinsIn, Advance-joinable, Advance-stop, Happened-IsSound,
}
use desert_addon_uwapp_net.Node.Life.{
  Life, queue_of, Happens, joins, moves, Happened, nothing, then_happens,
}

module _ (sim : Sim) (os : Kernel) where
  open sim use {Double}

  -- Is a step one of the listening thread for which no client does anything, or the return of `join`?
  unfoldable pub is_alone : {s t : Life sim os} → Happens sim os s t → Bool
  is_alone (joins _ _ _ _) = true
  is_alone (moves _ m) = is_own m
  is_alone _ = false

  unfoldable pub all_alone : {s t : Life sim os} → Happened sim os s t → Bool
  all_alone nothing = true
  all_alone (then_happens before last) = all_alone before && is_alone last

  -- The `stop()` that waits comes to its end, although no client does anything.
  pub record Ends (s : Life sim os) : Type 0 where
    pub after : Life sim os
    pub path : Happened sim os s after
    pub alone : all_alone path ≡ true
    pub free : after.blocked ≡ false
    pub no_listener : after.node.p_tcp_listener ≡ none
    pub no_timer : after.node.timer ≡ none
    pub kept : after.node.app ≡ s.node.app
    pub left : after.abandoned ≡ s.abandoned ++ queue_of sim os s.node.p_tcp_listener

  unfoldable then_Happened :
      {s t u : Life sim os} → Happens sim os s t → Happened sim os t u → Happened sim os s u
  then_Happened one nothing = then_happens nothing one
  then_Happened one (then_happens before last) = then_happens (then_Happened one before) last

  then_Happened-alone :
      {s t u : Life sim os} (one : Happens sim os s t) (path : Happened sim os t u)
      → is_alone one ≡ true
      → all_alone path ≡ true
      → all_alone (then_Happened one path) ≡ true
  unfolding then_Happened all_alone
  then_Happened-alone one nothing i a = i
  then_Happened-alone one (then_happens before last) i a =
      let (b, l) : (all_alone before ≡ true) × (is_alone last ≡ true) = ground arith in
      let c = then_Happened-alone one before i b in ground arith

  -- the module whose listener's thread is there
  abbrev with_thread : Life sim os → Held sim os → Thread → Life sim os
  with_thread s h t = record s {
    node = record s.node { p_tcp_listener = some (record h { thread = t }) };
  }

  -- The thread takes a step first.
  moves-Ends :
      (s : Life sim os) (h : Held sim os) {t : Thread}
      → s.node.p_tcp_listener ≡ some h
      → (moved : Advance h.thread t) → is_own moved ≡ true
      → Ends (with_thread s h t)
      → Ends s
  unfolding is_alone
  moves-Ends s h held moved own e = record {
    after = e.after;
    path = then_Happened (moves held moved) e.path;
    alone = then_Happened-alone (moves held moved) e.path own e.alone;
    free = e.free;
    no_listener = e.no_listener;
    no_timer = e.no_timer;
    kept = e.kept;
    left = e.left ∙ ap (λ o. s.abandoned ++ queue_of sim os o) (sym held);
  }

  -- a module whose `stop()` waits for this listener's thread
  record Waits (s : Life sim os) (h : Held sim os) : Type 0 where
    blocked : s.blocked ≡ true
    held : s.node.p_tcp_listener ≡ some h
    timer : s.node.timer ≡ none
    joinable : h.thread.joinable ≡ true
    asked : h.thread.stop ≡ true

  finished-Ends :
      (s : Life sim os) (h : Held sim os) → Waits s h → h.thread.phase ≡ finished → Ends s
  unfolding join delete_listener destroy_aborts all_alone is_alone
  finished-Ends s h w e = record {
    after = _;
    path =
        then_happens nothing
          (joins {t = record h.thread { joinable = false }} w.blocked w.held (ground arith) refl);
    alone = refl;
    free = refl;
    no_listener = refl;
    no_timer = w.timer;
    kept = refl;
    left = refl;
  }

  moved-Waits :
      {s : Life sim os} {h : Held sim os} {t : Thread}
      → Advance h.thread t
      → Waits s h
      → Waits (with_thread s h t) (record h { thread = t })
  moved-Waits moved w = record {
    blocked = w.blocked;
    held = refl;
    timer = w.timer;
    joinable = Advance-joinable moved ∙ w.joinable;
    asked = Advance-stop moved ∙ w.asked;
  }

  returned-Ends :
      (s : Life sim os) (h : Held sim os) → Waits s h → h.thread.phase ≡ returned → Ends s
  unfolding finish is_own
  returned-Ends s h w e =
      moves-Ends s h w.held (finishes e) refl (finished-Ends _ _ (moved-Waits (finishes e) w) refl)

  -- The test of the loop of `Run` finds the request to stop.
  running-Ends : (s : Life sim os) (h : Held sim os) → Waits s h → h.thread.phase ≡ in_run → Ends s
  unfolding leave_run is_own
  running-Ends s h w e =
      let step = leaves e w.asked in
      moves-Ends s h w.held step refl (returned-Ends _ _ (moved-Waits step w) refl)

  -- The test of the loop of `HandleTCPclient` finds it.
  serving-Ends : (s : Life sim os) (h : Held sim os) → Waits s h → h.thread.phase ≡ serving → Ends s
  unfolding is_own
  serving-Ends s h w e =
      let step = heeds e w.asked in
      moves-Ends s h w.held step refl (running-Ends _ _ (moved-Waits step w) refl)

  spawned-Ends : (s : Life sim os) (h : Held sim os) → Waits s h → h.thread.phase ≡ spawned → Ends s
  unfolding enter_run is_own
  spawned-Ends s h w e =
      moves-Ends s h w.held (enters e) refl (running-Ends _ _ (moved-Waits (enters e) w) refl)

  -- the rest of the wait, by where the thread stands
  Waits-Ends :
      (s : Life sim os) (h : Held sim os) (p : Phase)
      → Waits s h
      → h.thread.phase ≡ p
      → p ≢ unborn
      → waits_for_client p ≡ false
      → Ends s
  unfolding waits_for_client
  Waits-Ends s h unborn w e ne idle = absurd (ne refl)
  Waits-Ends s h spawned w e ne idle = spawned-Ends s h w e
  Waits-Ends s h in_run w e ne idle = running-Ends s h w e
  Waits-Ends s h accepting w e ne idle = absurd cc
  Waits-Ends s h serving w e ne idle = serving-Ends s h w e
  Waits-Ends s h receiving w e ne idle = absurd cc
  Waits-Ends s h returned w e ne idle = returned-Ends s h w e
  Waits-Ends s h finished w e ne idle = finished-Ends s h w e

  -- Is the thread of the listener in a call that waits for a client?
  unfoldable pub in_call : Option (Held sim os) → Bool
  in_call none = false
  in_call (some h) = waits_for_client h.thread.phase

  Held-Ends :
      (s : Life sim os) (held : Option (Held sim os))
      → s.node.p_tcp_listener ≡ held
      → s.blocked ≡ true
      → s.node.timer ≡ none
      → MadeIn sim os held
      → JoinsIn sim os held
      → in_call held ≡ false
      → Ends s
  unfolding in_call
  Held-Ends s none e b t m j idle = absurd j
  Held-Ends s (some h) e b t m j idle =
      Waits-Ends s h h.thread.phase
        (record { blocked = b; held = e; timer = t; joinable = j.0; asked = j.1 }) refl (m j.0) idle

  -- Let a `stop()` of the module wait, whatever has happened before, other calls of `start` and
  -- `stop` among it, since a moment when no `stop()` waited and a listener's thread that could be
  -- joined had been made. If the listening thread is not in a call of `accept` or `read` that waits
  -- for a client, the `stop()` is not stuck: there are steps of that thread, none of which needs a
  -- client, in which it sees the request to stop and comes to its end, and with which the `stop()`
  -- comes to its end without ending the program. Then there is no listener and no timer, the
  -- statistics are as when it waited, and what was queued in the listener is abandoned.
  pub Happened-Ends :
      {s t : Life sim os}
      → s.blocked ≡ false
      → MadeIn sim os s.node.p_tcp_listener
      → Happened sim os s t
      → t.blocked ≡ true
      → in_call t.node.p_tcp_listener ≡ false
      → Ends t
  Happened-Ends {s} {t} free made before busy idle =
      let v = Happened-IsSound sim os before (record { made = made; joins = λ b. absurd cc }) in
      let (joins_in, timer) = v.joins busy in
      Held-Ends t t.node.p_tcp_listener refl busy timer v.made joins_in idle
