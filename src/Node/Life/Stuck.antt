-- ===== src/Node/Life/Stuck.antt =====
-- A `stop()` of the module that waits for a listening thread in `accept` or `read`.
use desert_addon_uwapp_net.Common.{
  ◌≡◌, refl, sym, ap, ◌∙◌, subst, Bool, true, false, ◌||◌, some, arith,
}
use desert_addon_uwapp_net.Sim.{Sim}
use desert_addon_uwapp_net.Kernel.{Kernel}
use desert_addon_uwapp_net.Thread.{
  Thread, join, Advance, enters, heeds, leaves, finishes, is_answer, waits_for_client, connects,
  refuses, reads, awaits, selects, client_leaves,
}
use desert_addon_uwapp_net.Node.Life.Waiting.{MadeIn, JoinsIn, IsSound, Happened-IsSound}
use desert_addon_uwapp_net.Node.Life.{
  Life, Happens, receives, expires, starts, stops, blocks, joins, queues, moves, orphan_queues,
  orphan_moves, Happened, nothing, then_happens,
}
use desert_addon_uwapp_net.Node.Life.Ending.{in_call}

-- In such a call the thread does nothing by itself.
Advance-is_answer :
    {t u : Thread} (m : Advance t u) → waits_for_client t.phase ≡ true → is_answer m ≡ true
unfolding waits_for_client is_answer
Advance-is_answer (enters e) w = absurd (ground arith)
Advance-is_answer (awaits e n) w = absurd (ground arith)
Advance-is_answer (connects e) w = refl
Advance-is_answer (refuses e) w = refl
Advance-is_answer (selects e) w = absurd (ground arith)
Advance-is_answer (reads e) w = refl
Advance-is_answer (client_leaves e) w = absurd (ground arith)
Advance-is_answer (heeds e y) w = absurd (ground arith)
Advance-is_answer (leaves e y) w = absurd (ground arith)
Advance-is_answer (finishes e) w = absurd (ground arith)

-- It is not joined.
join-waits :
    (t u : Thread) → t.joinable ≡ true → waits_for_client t.phase ≡ true → join t ≡ some u → ⊥
unfolding join waits_for_client
join-waits t u j w e = ground arith

module _ (sim : Sim) (os : Kernel) where
  -- Does a call of `accept` or `read` of the listening thread return in a step?
  unfoldable pub is_answered : {s t : Life sim os} → Happens sim os s t → Bool
  is_answered (moves _ m) = is_answer m
  is_answered _ = false

  unfoldable pub some_answered : {s t : Life sim os} → Happened sim os s t → Bool
  some_answered nothing = false
  some_answered (then_happens before last) = some_answered before || is_answered last

  -- Nothing has changed of the wait.
  abbrev pub Stays : Life sim os → Life sim os → Type 0
  Stays s t = (t.blocked ≡ true) × (t.node.p_tcp_listener ≡ s.node.p_tcp_listener)

  Happens-Stays :
      {s t : Life sim os}
      → IsSound sim os s
      → s.blocked ≡ true
      → in_call sim os s.node.p_tcp_listener ≡ true
      → (last : Happens sim os s t) → is_answered last ≡ false
      → Stays s t
  unfolding in_call is_answered waits_for_client
  Happens-Stays v b w (receives now p free ran) n = absurd cc
  Happens-Stays v b w (expires now free set) n = absurd cc
  Happens-Stays v b w (starts spawns buffer free ran) n = absurd cc
  Happens-Stays v b w (stops free ran) n = absurd cc
  Happens-Stays v b w (blocks free ran) n = absurd cc
  Happens-Stays v b w (joins {h} {t} busy held ran deleted) n =
      let (joinable, asked) = subst (JoinsIn sim os) held (v.joins b).0 in
      absurd (join-waits h.thread t joinable (ap (in_call sim os) (sym held) ∙ w) ran)
  Happens-Stays v b w (queues {h} size held runs ran) n =
      let waiting : waits_for_client h.thread.phase ≡ true = ap (in_call sim os) (sym held) ∙ w in
      absurd (ground arith)
  Happens-Stays v b w (moves {h} held moved) n =
      let answer = Advance-is_answer moved (ap (in_call sim os) (sym held) ∙ w) in absurd cc
  Happens-Stays v b w (orphan_queues size before h after e runs ran) n = (b, refl)
  Happens-Stays v b w (orphan_moves before h after e moved) n = (b, refl)

  path-Stays :
      {s t : Life sim os}
      → IsSound sim os s
      → s.blocked ≡ true
      → in_call sim os s.node.p_tcp_listener ≡ true
      → (path : Happened sim os s t) → some_answered path ≡ false
      → Stays s t
  unfolding some_answered
  path-Stays v b w nothing n = (b, refl)
  path-Stays v b w (then_happens before last) n =
      let (n₁, n₂) : (some_answered before ≡ false) × (is_answered last ≡ false) = ground arith in
      let (blocked, same) = path-Stays v b w before n₁ in
      let (blocked', same') =
        Happens-Stays (Happened-IsSound sim os before v) blocked (ap (in_call sim os) same ∙ w) last
          n₂ in
      (blocked', same' ∙ same)

  -- Let a `stop()` of the module wait, whatever has happened before, since a moment when no `stop()`
  -- waited and a listener's thread that could be joined had been made. If the listening thread is
  -- in a call of `accept` or `read` that waits for a client, then, whatever happens, the `stop()`
  -- does not return, and nothing of the listener changes, as long as no such call of that thread
  -- returns: the request to stop has no effect.
  pub Happened-Stays :
      {r s t : Life sim os}
      → r.blocked ≡ false
      → MadeIn sim os r.node.p_tcp_listener
      → Happened sim os r s
      → s.blocked ≡ true
      → in_call sim os s.node.p_tcp_listener ≡ true
      → (path : Happened sim os s t) → some_answered path ≡ false
      → Stays s t
  Happened-Stays {r} free made before =
      path-Stays (Happened-IsSound sim os before (record { made = made; joins = λ b. absurd cc }))
