-- ===== src/Listener/Setup.antt =====
-- tcp_listener.h, `Setup`, `ReadyToRead` and the destructor.
use desert_addon_uwapp_net.Common.{
  Bool, true, false, not, ◌==◌, if◌then◌else◌, minus_one, is_negative,
}
use desert_addon_uwapp_net.Kernel.{Kernel}
use desert_addon_uwapp_net.Listener.{Listener}

module _ (os : Kernel) {Double : Type 0} where
  open os use {State, socket, setsockopt, bind, listen, select, write, close}

  unfoldable pub setup_listen : Listener Double → State → (Bool × Listener Double) × State
  setup_listen l s =
      let (r, s') = listen l.serv_sock_descr s in
      if not (r == 0) then ((false, l), s') else ((true, record l { socket_set_up = true }), s')

  unfoldable pub setup_bind : Listener Double → State → (Bool × Listener Double) × State
  unfolding setup_listen
  setup_bind l s =
      let (r, s') = bind l.serv_sock_descr l.port s in
      if is_negative r then ((false, l), s') else setup_listen l s'

  unfoldable pub setup_reuse : Listener Double → State → (Bool × Listener Double) × State
  unfolding setup_bind
  setup_reuse l s =
      let (r, s') = setsockopt l.serv_sock_descr s in
      if r == minus_one then ((false, l), s') else setup_bind l s'

  unfoldable pub setup : Listener Double → State → (Bool × Listener Double) × State
  unfolding setup_reuse
  setup l s =
      let (fd, s') = socket s in
      let l' = record l { serv_sock_descr = fd } in
      if is_negative fd then ((false, l'), s') else setup_reuse l' s'

  -- The timeout is the member itself: what `select` leaves of it is what the next call is given.
  unfoldable pub ready_to_read : Listener Double → State → (Bool × Listener Double) × State
  ready_to_read l s =
      let ((ret, left), s') = select l.cln_sock_descr l.read_timeout s in
      ((ret == 1, record l { read_timeout = left }), s')

  -- the destructor
  unfoldable pub destroy : Listener Double → State → State
  destroy l s = if not (l.serv_sock_descr == 0) then close l.serv_sock_descr s else s
