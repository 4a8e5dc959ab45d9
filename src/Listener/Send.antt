-- ===== src/Listener/Send.antt =====
-- tcp_listener.h, `send_data`: a payload goes to the client in three writes. Nothing is sent while no
-- client is connected.
pub mod Framing
pub mod Partial
pub mod Carrier
pub mod Breaking
use desert_addon_uwapp_net.Common.{
  ℕ, Bool, true, false, not, Option, none, some, List, leb, ◌==◌, if◌then◌else◌, length, take, u32,
}
use desert_addon_uwapp_net.Kernel.{Kernel}
use desert_addon_uwapp_net.Listener.{Listener}
use desert_addon_uwapp_net.Listener.Wire.{magic_tag, bytes_of_word}

-- Did `write` report so many bytes?
abbrev pub wrote : Option ℕ → ℕ → Bool
wrote none n = false
wrote (some m) n = m == n

module _ (os : Kernel) {Double : Type 0} where
  open os use {State, write}

  -- The write of `size` bytes of an array; it faults if the array is shorter.
  unfoldable pub send_body : List ℕ → ℕ → Listener Double → State → Option (Bool × State)
  send_body msg size l s =
      if leb size (length msg)
      then (let (r, s') = write l.cln_sock_descr (take size msg) s in some (wrote r size, s'))
      else none

  unfoldable pub send_size : List ℕ → ℕ → Listener Double → State → Option (Bool × State)
  send_size msg size l s =
      let (r, s') = write l.cln_sock_descr (bytes_of_word (u32 size)) s in
      if wrote r 4 then send_body msg size l s' else some (false, s')

  unfoldable pub send_data : List ℕ → ℕ → Listener Double → State → Option (Bool × State)
  send_data msg size l s =
      if not (l.cln_sock_descr == 0)
      then (let (r, s') = write l.cln_sock_descr (bytes_of_word magic_tag) s in
          if wrote r 4 then send_size msg size l s' else some (false, s'))
      else some (false, s)
