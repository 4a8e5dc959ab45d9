-- ===== src/Node/Life/Destruction/Clean.antt =====
-- What the destructor of a module leaves behind.
use desert_addon_uwapp_net.Common.{
  ◌+◌, ◌≡◌, refl, sym, ap, ◌∙◌, subst, true, false, none, List, [], ◌∷◌, ◌++◌, arith, length,
  length-append, All,
}
use desert_addon_uwapp_net.Sim.{Sim}
use desert_addon_uwapp_net.Kernel.{Kernel}
use desert_addon_uwapp_net.Node.{done, Held, Node, delete_listener, stop}
use desert_addon_uwapp_net.Node.Life.{
  Life, held_of, Happens, receives, expires, starts, stops, blocks, joins, queues, moves,
  orphan_queues, orphan_moves, Happened, nothing, then_happens,
}
use desert_addon_uwapp_net.Node.Life.Waiting.{
  MadeIn, IsSound, Happened-IsSound, stop-none, delete_listener-none,
}
use desert_addon_uwapp_net.Node.Life.Destruction.{
  Destroying, asks, goes_on, Destroys, at_once, at_last, overwritten, all_overwritten, all_released,
  waited, ended,
}
use desert_addon_uwapp_net.Node.Life.Destruction.Tidy.{
  IsOver, IsSettled, IsUnasked, IsTidy, Happened-IsTidy,
}
use desert_addon_uwapp_net.Node.Life.Destruction.Released.{Happened-released}

module _ (sim : Sim) (os : Kernel) where
  -- A module that has just been made: it has no listener.
  pub record IsNew (s : Life sim os) : Type 0 where
    pub free : s.blocked ≡ false
    pub no_listener : s.node.p_tcp_listener ≡ none
    pub no_orphans : s.orphans ≡ []

  IsNew-IsTidy : {s : Life sim os} → IsNew s → IsTidy sim os s
  IsNew-IsTidy v = record {
    settled = subst (λ o. All (λ h. IsSettled h.thread) (held_of sim os o)) (sym v.no_listener) tt;
    unasked =
        λ b. subst (λ o. All (λ h. IsUnasked h.thread) (held_of sim os o)) (sym v.no_listener) tt;
    spared = subst (All (λ h. IsUnasked h.thread)) (sym v.no_orphans) tt;
  }

  pub IsNew-IsSound : {s : Life sim os} → IsNew s → IsSound sim os s
  IsNew-IsSound v = record {
    made = subst (MadeIn sim os) (sym v.no_listener) tt;
    joins = λ b. let f = v.free in absurd cc;
  }

  length-replace :
      (h k : Held sim os) (before after : List (Held sim os))
      → length (before ++ h ∷ after) ≡ length (before ++ k ∷ after)
  length-replace h k before after =
      omega (arith, length-append before (h ∷ after), length-append before (k ∷ after))

  -- A step leaves as many listeners behind as it overwrites.
  Happens-overwritten :
      {s t : Life sim os} (last : Happens sim os s t)
      → length t.orphans ≡ length s.orphans + overwritten sim os last
  unfolding overwritten
  Happens-overwritten (receives now p free ran) = omega arith
  Happens-overwritten (expires now free set) = omega arith
  Happens-overwritten {s} (starts spawns buffer free ran) =
      length-append s.orphans (held_of sim os s.node.p_tcp_listener)
  Happens-overwritten (stops free ran) = omega arith
  Happens-overwritten (joins busy held ran deleted) = omega arith
  Happens-overwritten (blocks free ran) = omega arith
  Happens-overwritten (queues size held runs ran) = omega arith
  Happens-overwritten (moves held moved) = omega arith
  Happens-overwritten (orphan_queues {u} size before h after e runs ran) =
      omega (arith, ap length e, length-replace h (record h { tcp = u.listener }) before after)
  Happens-overwritten (orphan_moves {t} before h after e moved) =
      omega (arith, ap length e, length-replace h (record h { thread = t }) before after)

  Happened-overwritten :
      {s t : Life sim os} (path : Happened sim os s t)
      → length t.orphans ≡ length s.orphans + all_overwritten sim os path
  unfolding all_overwritten
  Happened-overwritten nothing = omega arith
  Happened-overwritten (then_happens before last) =
      omega (arith, Happened-overwritten before, Happens-overwritten last)

  stop-no_timer : (w : Node sim os) {w' : Node sim os} → stop sim os w ≡ done w' → w'.timer ≡ none
  unfolding stop delete_listener
  stop-no_timer w h = ground arith

  delete_listener-timer :
      (h : Held sim os) (w : Node sim os) {w' : Node sim os}
      → delete_listener sim os h w ≡ done w'
      → w'.timer ≡ w.timer
  unfolding delete_listener
  delete_listener-timer h w e = ground arith

  pub Destroying-blocked : {s t : Life sim os} → Destroying sim os s t → t.blocked ≡ true
  Destroying-blocked (asks free asked) = refl
  Destroying-blocked (goes_on w last busy) = busy

  abbrev IsIdle : Life sim os → Type 0
  IsIdle s = (s.node.p_tcp_listener ≡ none) × (s.node.timer ≡ none)

  -- The wait ends only with the deletion of the listener.
  freed-IsIdle :
      {s t : Life sim os}
      → Happens sim os s t
      → s.blocked ≡ true
      → t.blocked ≡ false
      → IsSound sim os s
      → IsIdle t
  freed-IsIdle (receives now p free ran) b f v = absurd cc
  freed-IsIdle (expires now free set) b f v = absurd cc
  freed-IsIdle (starts spawns buffer free ran) b f v = absurd cc
  freed-IsIdle (stops free ran) b f v = absurd cc
  freed-IsIdle {s} (joins {h} {t} busy held ran deleted) b f v = (
    delete_listener-none sim os (record h { thread = t }) s.node deleted,
    delete_listener-timer (record h { thread = t }) s.node deleted ∙ (v.joins b).1,
  )
  freed-IsIdle (blocks free ran) b f v = absurd cc
  freed-IsIdle (queues size held runs ran) b f v = absurd cc
  freed-IsIdle (moves held moved) b f v = absurd cc
  freed-IsIdle (orphan_queues size before h after e runs ran) b f v = absurd cc
  freed-IsIdle (orphan_moves before h after e moved) b f v = absurd cc

  ended-IsIdle :
      {r s t : Life sim os}
      → Happened sim os r s
      → IsSound sim os r
      → Destroys sim os s t
      → IsIdle t
  ended-IsIdle {r} {s} before v (at_once free ran) =
      (stop-none sim os s.node ran, stop-no_timer s.node ran)
  ended-IsIdle before v (at_last w last free) =
      freed-IsIdle last (Destroying-blocked w) free
        (Happened-IsSound sim os (waited sim os before w) v)

  -- what the destructor leaves, after this life of the module
  pub record IsClean {s t : Life sim os} (path : Happened sim os s t) : Type 0 where
    pub no_listener : t.node.p_tcp_listener ≡ none
    pub no_timer : t.node.timer ≡ none
    pub over : All IsOver (all_released sim os path)
    pub left : length t.orphans ≡ all_overwritten sim os path
    pub unasked : All (λ h. IsUnasked h.thread) t.orphans

  -- Let a module that has just been made live through receptions, expiries, the commands `start` and
  -- `stop` and the steps of its listening threads, in any order, and then let its destructor come to
  -- its end. Then there is no listener and no scheduled timer; each listener that was ever deleted
  -- had no thread, or its thread had come to its end before; and as many listeners are left as
  -- `start` has overwritten, and none of these was ever asked to stop.
  pub Destroys-IsClean :
      {r s t : Life sim os}
      → IsNew r
      → (before : Happened sim os r s) (ends : Destroys sim os s t)
      → IsClean (ended sim os before ends)
  Destroys-IsClean {r} fresh before ends =
      let (idle, unset) = ended-IsIdle before (IsNew-IsSound fresh) ends in
      let path = ended sim os before ends in
      record {
        no_listener = idle;
        no_timer = unset;
        over = Happened-released sim os path (IsNew-IsTidy fresh);
        left = omega (arith, Happened-overwritten path, ap length fresh.no_orphans);
        unasked = (Happened-IsTidy sim os path (IsNew-IsTidy fresh)).spared;
      }
