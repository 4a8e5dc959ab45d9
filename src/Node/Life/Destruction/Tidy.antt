-- ===== src/Node/Life/Destruction/Tidy.antt =====
-- The threads of a module's listeners: which of them have been asked to stop, and which are over.
use desert_addon_uwapp_net.Common.{
  ℕ, ◌≡◌, ◌⊎◌, inl, inr, refl, sym, subst, Bool, false, Option, none, some, List, arith, All,
  All-append, All-replace, >>=-eq-some,
}
use mathlib.Core.Option.{some-injective}
use desert_addon_uwapp_net.Sim.{Sim}
use desert_addon_uwapp_net.Kernel.{Kernel}
use desert_addon_uwapp_net.Listener.Handle.{enqueue}
use desert_addon_uwapp_net.Thread.{
  Thread, unborn, finished, start, join, request_stop, enter_run, leave_run, finish, Advance,
  enters, awaits, connects, refuses, selects, reads, client_leaves, heeds, leaves, finishes,
}
use desert_addon_uwapp_net.Node.{done, waits, Held, Node, stop, start_command, expire}
use desert_addon_uwapp_net.Node.Events.{queue_message}
use desert_addon_uwapp_net.Node.Life.Waiting.{recv-held, stop-none, delete_listener-none}
use desert_addon_uwapp_net.Node.Life.{
  Life, held_of, Happens, receives, expires, starts, stops, blocks, joins, queues, moves,
  orphan_queues, orphan_moves, Happened, nothing, then_happens,
}

-- No thread was made, or it has come to its end.
abbrev pub IsOver : Thread → Type 0
IsOver t = (t.phase ≡ unborn) ⊎ (t.phase ≡ finished)

-- A thread that cannot be joined is not there.
abbrev pub IsSettled : Thread → Type 0
IsSettled t = t.joinable ≡ false → IsOver t

-- `Stop` has not been called.
abbrev pub IsUnasked : Thread → Type 0
IsUnasked t = t.stop ≡ false

Advance-IsUnasked : {t u : Thread} → Advance t u → IsUnasked t → IsUnasked u
unfolding enter_run leave_run finish
Advance-IsUnasked (enters e) h = h
Advance-IsUnasked (awaits e n) h = h
Advance-IsUnasked (connects e) h = h
Advance-IsUnasked (refuses e) h = h
Advance-IsUnasked (selects e) h = h
Advance-IsUnasked (reads e) h = h
Advance-IsUnasked (client_leaves e) h = h
Advance-IsUnasked (heeds e y) h = h
Advance-IsUnasked (leaves e y) h = h
Advance-IsUnasked (finishes e) h = h

Advance-IsSettled : {t u : Thread} → Advance t u → IsSettled t → IsSettled u
unfolding enter_run leave_run finish
Advance-IsSettled (enters e) h = λ j. elim (h j) [ inl q ↦ absurd cc | inr q ↦ absurd cc ]
Advance-IsSettled (awaits e n) h = λ j. elim (h j) [ inl q ↦ absurd cc | inr q ↦ absurd cc ]
Advance-IsSettled (connects e) h = λ j. elim (h j) [ inl q ↦ absurd cc | inr q ↦ absurd cc ]
Advance-IsSettled (refuses e) h = λ j. elim (h j) [ inl q ↦ absurd cc | inr q ↦ absurd cc ]
Advance-IsSettled (selects e) h = λ j. elim (h j) [ inl q ↦ absurd cc | inr q ↦ absurd cc ]
Advance-IsSettled (reads e) h = λ j. elim (h j) [ inl q ↦ absurd cc | inr q ↦ absurd cc ]
Advance-IsSettled (client_leaves e) h = λ j. elim (h j) [ inl q ↦ absurd cc | inr q ↦ absurd cc ]
Advance-IsSettled (heeds e y) h = λ j. elim (h j) [ inl q ↦ absurd cc | inr q ↦ absurd cc ]
Advance-IsSettled (leaves e y) h = λ j. elim (h j) [ inl q ↦ absurd cc | inr q ↦ absurd cc ]
Advance-IsSettled (finishes e) h = λ j. inr refl

pub join-IsOver : (t u : Thread) → join t ≡ some u → IsSettled t → IsOver u
unfolding join
join-IsOver t u e h = ground (arith, h)

module _ (sim : Sim) (os : Kernel) where
  open sim use {Double}

  -- of the listener, if there is one, and of a list of listeners
  abbrev pub InHeld : (Thread → Type 0) → Option (Held sim os) → Type 0
  InHeld P o = All (λ h. P h.thread) (held_of sim os o)

  pub record IsTidy (s : Life sim os) : Type 0 where
    pub settled : InHeld IsSettled s.node.p_tcp_listener
    pub unasked : s.blocked ≡ false → InHeld IsUnasked s.node.p_tcp_listener
    pub spared : All (λ h. IsUnasked h.thread) s.orphans

  expire-InHeld :
      (P : Thread → Type 0) (now : Double) (w : Node sim os) (o : Option (Held sim os))
      → InHeld P o
      → InHeld P (expire sim os now (record w { p_tcp_listener = o })).p_tcp_listener
  unfolding expire
  expire-InHeld P now w none h = tt
  expire-InHeld P now w (some k) h = h

  queue_message-InHeld :
      (P : Thread → Type 0) (size : ℕ) (w : Node sim os) (o : Option (Held sim os))
      {w' : Node sim os}
      → queue_message sim os size (record w { p_tcp_listener = o }) ≡ some w'
      → InHeld P o
      → InHeld P w'.p_tcp_listener
  unfolding queue_message
  queue_message-InHeld P size w none e h =
      subst (λ (v : Node sim os). InHeld P v.p_tcp_listener) (some-injective _ _ e) tt
  queue_message-InHeld P size w (some k) e h =
      let (u, ran, eq) =
        >>=-eq-some (enqueue sim os size (record { owner = w.app; listener = k.tcp; sys = w.sys }))
          _ e in
      subst (λ (v : Node sim os). InHeld P v.p_tcp_listener) (some-injective _ _ eq) h

  start_command-InHeld :
      (spawns : Bool) (buffer : List ℕ) (w : Node sim os) {ok : Bool} {w' : Node sim os}
      → start_command sim os spawns buffer w ≡ done (ok, w')
      → InHeld IsSettled w'.p_tcp_listener × InHeld IsUnasked w'.p_tcp_listener
  unfolding start_command start
  start_command-InHeld spawns buffer w h = ground arith

  stop-InHeld :
      (w : Node sim os) (o : Option (Held sim os)) {w' : Node sim os}
      → stop sim os (record w { p_tcp_listener = o }) ≡ waits w'
      → InHeld IsSettled o
      → InHeld IsSettled w'.p_tcp_listener
  unfolding stop join request_stop
  stop-InHeld w none e h = absurd (ground arith)
  stop-InHeld w (some k) e h = ground arith

  Happens-IsTidy : {s t : Life sim os} → Happens sim os s t → IsTidy s → IsTidy t
  Happens-IsTidy {s} (receives now p free ran) v =
      let same = sym (recv-held sim os now p s.node ran) in
      record {
        settled = subst (InHeld IsSettled) same v.settled;
        unasked = λ b. subst (InHeld IsUnasked) same (v.unasked b);
        spared = v.spared;
      }
  Happens-IsTidy {s} (expires now free set) v = record {
    settled = expire-InHeld IsSettled now s.node s.node.p_tcp_listener v.settled;
    unasked = λ b. expire-InHeld IsUnasked now s.node s.node.p_tcp_listener (v.unasked b);
    spared = v.spared;
  }
  Happens-IsTidy {s} (starts spawns buffer free ran) v =
      let (settled, unasked) = start_command-InHeld spawns buffer s.node ran in
      record {
        settled = settled;
        unasked = λ b. unasked;
        spared =
            All-append (λ h. IsUnasked h.thread) s.orphans (held_of sim os s.node.p_tcp_listener)
              v.spared (v.unasked free);
      }
  Happens-IsTidy {s} (stops free ran) v =
      let gone = sym (stop-none sim os s.node ran) in
      record {
        settled = subst (InHeld IsSettled) gone tt;
        unasked = λ b. subst (InHeld IsUnasked) gone tt;
        spared = v.spared;
      }
  Happens-IsTidy {s} (blocks free ran) v = record {
    settled = stop-InHeld s.node s.node.p_tcp_listener ran v.settled;
    unasked = λ b. absurd cc;
    spared = v.spared;
  }
  Happens-IsTidy {s} (joins {h} {t} busy held ran deleted) v =
      let gone = sym (delete_listener-none sim os (record h { thread = t }) s.node deleted) in
      record {
        settled = subst (InHeld IsSettled) gone tt;
        unasked = λ b. subst (InHeld IsUnasked) gone tt;
        spared = v.spared;
      }
  Happens-IsTidy {s} (queues size held runs ran) v = record {
    settled = queue_message-InHeld IsSettled size s.node s.node.p_tcp_listener ran v.settled;
    unasked =
        λ b. queue_message-InHeld IsUnasked size s.node s.node.p_tcp_listener ran (v.unasked b);
    spared = v.spared;
  }
  Happens-IsTidy {s} (moves {h} held moved) v = record {
    settled = (Advance-IsSettled moved (subst (InHeld IsSettled) held v.settled).0, tt);
    unasked = λ b. (Advance-IsUnasked moved (subst (InHeld IsUnasked) held (v.unasked b)).0, tt);
    spared = v.spared;
  }
  Happens-IsTidy {s} (orphan_queues size before h after e runs ran) v = record {
    settled = v.settled;
    unasked = v.unasked;
    spared =
        All-replace (λ h. IsUnasked h.thread) before after (λ q. q)
          (subst (All (λ h. IsUnasked h.thread)) e v.spared);
  }
  Happens-IsTidy {s} (orphan_moves {t} before h after e moved) v = record {
    settled = v.settled;
    unasked = v.unasked;
    spared =
        All-replace (λ h. IsUnasked h.thread) before after (Advance-IsUnasked moved)
          (subst (All (λ h. IsUnasked h.thread)) e v.spared);
  }

  pub Happened-IsTidy : {s t : Life sim os} → Happened sim os s t → IsTidy s → IsTidy t
  Happened-IsTidy nothing v = v
  Happened-IsTidy (then_happens before last) v = Happens-IsTidy last (Happened-IsTidy before v)
