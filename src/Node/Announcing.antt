-- ===== src/Node/Announcing.antt =====
-- uwAppNet_module.cpp, what the Tcl command `start` writes to the console.
use desert_addon_uwapp_net.Common.{
  ℕ, zero, ◌+◌, ◌≡◌, refl, Bool, is_negative, minus_one, ◌==◌, true, false, List, [], ◌∷◌, ◌++◌,
  arith, if◌then◌else◌,
}
use desert_addon_uwapp_net.Sim.{Sim}
use desert_addon_uwapp_net.Kernel.{Kernel}
use desert_addon_uwapp_net.Logging.{error}
use desert_addon_uwapp_net.Output.{level_of}
use desert_addon_uwapp_net.Listener.{Listener, new_listener}
use desert_addon_uwapp_net.Listener.Setup.{setup, setup_reuse, setup_bind, setup_listen}
use desert_addon_uwapp_net.Listener.Log.{
  socket_created, binding_socket, binding_failed, starting_listener, socket_failed, LogLine,
  from_level, listen_lines, bind_lines, reuse_lines, setup_lines, server_not_created,
}
use desert_addon_uwapp_net.Node.{Node}

-- Is the line written by `LOG_MSG_ERROR`?
abbrev error_of : LogLine → ℕ
error_of line = elim (level_of line) [ error ↦ 1 | _ ↦ 0 ]

-- how many of the lines are
abbrev pub errors : List LogLine → ℕ
errors [] = zero
errors (line ∷ lines) = error_of line + errors lines

errors-append : (xs ys : List LogLine) → errors (xs ++ ys) ≡ errors xs + errors ys
errors-append [] ys = omega arith
errors-append (x ∷ xs) ys = omega (arith, errors-append xs ys)

errors-from_level :
    (level debug : ℕ) (line : LogLine)
    → error_of line ≡ 0
    → errors (from_level level debug line) ≡ 0
unfolding from_level
errors-from_level level debug line quiet = ground (arith, quiet)

-- one if the operation has failed
abbrev failures : Bool → ℕ
failures true = 0
failures false = 1

-- A failure writes one such line and returns; otherwise it goes on.
errors-guard :
    {L S : Type 0} (failed : Bool) (line : LogLine) (lines : List LogLine) (l : L) (s : S)
    (rest : (Bool × L) × S)
    → error_of line ≡ 1
    → errors lines ≡ failures rest.0.0
    → errors (if failed then line ∷ [] else lines)
      ≡ failures (if failed then ((false, l), s) else rest).0.0
errors-guard true line lines l s rest one same = omega (arith, one)
errors-guard false line lines l s rest one same = same

own_error :
    (ok : Bool)
    → errors (if ok then [] else server_not_created ∷ []) + failures ok ≡ (if ok then 0 else 2)
unfolding level_of
own_error true = omega arith
own_error false = omega arith

module _ (os : Kernel) {Double : Type 0} (debug : ℕ) where
  open os use {State, socket, setsockopt, bind}

  listen_lines-errors :
      (l : Listener Double) (s : State)
      → errors (listen_lines os debug l s) ≡ failures (setup_listen os l s).0.0
  unfolding listen_lines from_level setup_listen level_of
  listen_lines-errors l s = ground arith

  bind_lines-errors :
      (l : Listener Double) (s : State)
      → errors (bind_lines os debug l s) ≡ failures (setup_bind os l s).0.0
  unfolding bind_lines setup_bind level_of
  bind_lines-errors l s =
      let (r, s') = bind l.serv_sock_descr l.port s in
      let created = from_level 2 debug socket_created in
      let binding = from_level 1 debug (binding_socket l.port) in
      let rest = if is_negative r then binding_failed ∷ [] else listen_lines os debug l s' in
      let last : errors rest ≡ failures (setup_bind os l s).0.0 =
        errors-guard (is_negative r) binding_failed (listen_lines os debug l s') l s'
          (setup_listen os l s') refl (listen_lines-errors l s') in
      omega (
        arith,
        errors-append created (binding ++ rest),
        errors-append binding rest,
        errors-from_level 2 debug socket_created refl,
        errors-from_level 1 debug (binding_socket l.port) refl,
        last,
      )

  reuse_lines-errors :
      (l : Listener Double) (s : State)
      → errors (reuse_lines os debug l s) ≡ failures (setup_reuse os l s).0.0
  unfolding reuse_lines setup_reuse level_of
  reuse_lines-errors l s =
      let (r, s') = setsockopt l.serv_sock_descr s in
      errors-guard (r == minus_one) socket_failed (bind_lines os debug l s') l s'
        (setup_bind os l s') refl (bind_lines-errors l s')

  pub setup_lines-errors :
      (l : Listener Double) (s : State)
      → errors (setup_lines os debug l s) ≡ failures (setup os l s).0.0
  unfolding setup_lines setup level_of
  setup_lines-errors l s =
      let (fd, s') = socket s in
      let l' = record l { serv_sock_descr = fd } in
      let starting = from_level 1 debug (starting_listener l.port) in
      let rest = if is_negative fd then socket_failed ∷ [] else reuse_lines os debug l' s' in
      let last : errors rest ≡ failures (setup os l s).0.0 =
        errors-guard (is_negative fd) socket_failed (reuse_lines os debug l' s') l' s'
          (setup_reuse os l' s') refl (reuse_lines-errors l' s') in
      omega (
        arith,
        errors-append starting rest,
        errors-from_level 1 debug (starting_listener l.port) refl,
        last,
      )

module _ (sim : Sim) (os : Kernel) where
  open sim use {Double}

  -- Does `Setup` succeed for the listener that `start` makes?
  abbrev pub sets_up : List ℕ → Node sim os → Bool
  sets_up buffer w =
      (setup os {Double = Double}
        (new_listener {Double = Double} w.app.serv_port w.app.socket_read_timeout buffer) w.sys).0.0

  -- the lines of the command `start`
  unfoldable pub start_lines : List ℕ → Node sim os → List LogLine
  start_lines buffer w =
      let l = new_listener {Double = Double} w.app.serv_port w.app.socket_read_timeout buffer in
      setup_lines os w.app.debug l w.sys
      ++ (if sets_up buffer w then [] else server_not_created ∷ [])

  -- The lines of `start` are without an error if `Setup` succeeds; otherwise there are two.
  pub start_lines-errors :
      (buffer : List ℕ) (w : Node sim os)
      → errors (start_lines buffer w) ≡ (if sets_up buffer w then 0 else 2)
  unfolding start_lines level_of
  start_lines-errors buffer w =
      let l = new_listener {Double = Double} w.app.serv_port w.app.socket_read_timeout buffer in
      let last = if sets_up buffer w then [] else server_not_created ∷ [] in
      let own : errors last + failures (sets_up buffer w) ≡ (if sets_up buffer w then 0 else 2) =
        own_error (sets_up buffer w) in
      omega (
        arith,
        errors-append (setup_lines os w.app.debug l w.sys) last,
        setup_lines-errors os w.app.debug l w.sys,
        own,
      )
