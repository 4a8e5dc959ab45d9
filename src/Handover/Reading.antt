-- ===== src/Handover/Reading.antt =====
-- tcp_listener.h: the two threads at the queue, with the connection from which the listening thread
-- reads. A message is received and the mutex taken in one step; the steps on the queue are single.
pub mod Receiving
pub mod Told
use desert_addon_uwapp_net.Common.{Bool, true, false, some, ℕ, ◌≡◌, ◌==◌}
use desert_addon_uwapp_net.Sim.{Sim}
use desert_addon_uwapp_net.Kernel.{Kernel}
use desert_addon_uwapp_net.Packet.{Packet}
use desert_addon_uwapp_net.Listener.{Listener}
use desert_addon_uwapp_net.Listener.Setup.{ready_to_read}
use desert_addon_uwapp_net.Listener.Receive.{receive_packet}
use desert_addon_uwapp_net.Listener.Handle.{make_packet}
use desert_addon_uwapp_net.Handover.{
  free, by_reader, reading, holding, Shared, Turn, reader_locks, pushes, counts, looks, timer_locks,
  fronts, pops, unlocks, sends,
}

module _ (sim : Sim) (os : Kernel) where
  open sim use {Double}

  pub record Serving : Type 0 where
    pub shared : Shared sim
    pub sys : os.State

  -- a turn other than the one that stands for the receipt of a message
  abbrev pub IsInner : {s t : Shared sim} → Turn sim s t → Type 0
  IsInner (reader_locks p r m) = ⊥
  IsInner _ = Unit

  pub data Stride (c : Serving) : Serving → Type 0 where
    -- `ReadyToRead` finds nothing.
    idles :
        {l : Listener Double} {s : os.State}
        → c.shared.reader ≡ reading
        → ready_to_read os c.shared.listener c.sys ≡ ((false, l), s)
        → Stride c (record c { shared = record c.shared { listener = l }; sys = s })
    receives :
        {l₁ l₂ : Listener Double} {s₁ s₂ : os.State} {n : ℕ} {p : Packet Double}
        → c.shared.reader ≡ reading
        → c.shared.mutex ≡ free
        → ready_to_read os c.shared.listener c.sys ≡ ((true, l₁), s₁)
        → receive_packet os l₁ s₁ ≡ ((n, l₂), s₂)
        → (n == 0) ≡ false
        → make_packet sim n l₂.buffer_msg ≡ some p
        → Stride c (record c {
          shared = record c.shared { listener = l₂; mutex = by_reader; reader = holding p };
          sys = s₂;
        })
    turns :
        {t : Shared sim} (m : Turn sim c.shared t) → IsInner m → Stride c (record c { shared = t })

  pub data Strides (c : Serving) : Serving → Type 0 where
    stands : Strides c c
    then_stride : {d e : Serving} → Strides c d → Stride d e → Strides c e
