-- ===== src/Listener/Handle/Closing.antt =====
-- The server's descriptor is closed once: by the destructor after `Setup`, or at the end of `Run`.
use desert_addon_uwapp_net.Common.{
  ℕ, ◌≡◌, true, some, List, ◌==◌, if◌then◌else◌, arith, Option-cases, inl, inr, suc,
}
use desert_addon_uwapp_net.Sim.{Sim}
use desert_addon_uwapp_net.Kernel.{Kernel}
use desert_addon_uwapp_net.Listener.{new_listener}
use desert_addon_uwapp_net.Listener.Setup.{setup, setup_reuse, setup_bind, setup_listen, destroy}
use desert_addon_uwapp_net.Listener.Handle.{Work, close_server, run_loop, run}

module _ (sim : Sim) (os : Kernel) where
  open sim use {Double}
  open os use {State, socket, close}

  -- Whatever the four calls of `Setup` return, on a new listener, the destructor closes the
  -- descriptor that `socket` returned, and makes no other call; only the descriptor 0 is left open,
  -- and the -1 of a failed `socket` is closed like a descriptor.
  pub destroy-setup :
      (port timeout : ℕ) (buffer : List ℕ) (s t : State)
      → let (fd, s') = socket s in
        destroy os (setup os {Double = Double} (new_listener port timeout buffer) s).0.1 t
        ≡ (if fd == 0 then t else close fd t)
  unfolding setup setup_reuse setup_bind setup_listen destroy new_listener
  destroy-setup port timeout buffer s t = ground arith

  -- Once `Run` has come to its end on a listener that was set up, the destructor makes no call: the
  -- descriptor is not closed a second time.
  destroy-run :
      (calls : ℕ) (w w' : Work sim os) (t : State)
      → w.listener.socket_set_up ≡ true
      → run sim os calls w ≡ some (true, w')
      → destroy os w'.listener t ≡ t
  unfolding run close_server destroy
  destroy-run calls w w' t up h = elim (Option-cases (run_loop sim os (suc calls) calls w)) [
    | inl e ↦ ground (arith, h, up, e)
    | inr ((ended, w₁), e) ↦ ground (arith, h, up, e)
  ]
