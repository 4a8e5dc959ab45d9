-- ===== src/Gateway/Cutting.antt =====
-- The way from the client of one module to the client of another whose connection breaks.
use desert_addon_uwapp_net.Common.{
  ℕ, ◌<◌, ◌≤◌, ◌≡◌, ap, ◌∙◌, false, some, List, [], ◌++◌, length, take, All,
}
use desert_addon_uwapp_net.Sim.{Sim}
use desert_addon_uwapp_net.Kernel.{Kernel}
use desert_addon_uwapp_net.AppNet.{Bound, construct}
use desert_addon_uwapp_net.AppNet.Sequence.{arrive}
use desert_addon_uwapp_net.Console.{logs_at}
use desert_addon_uwapp_net.Listener.Receive.Framing.{Stream}
use desert_addon_uwapp_net.Listener.Send.Breaking.{Breaking, breaking_carrier}
use desert_addon_uwapp_net.Listener.Handle.{Work, handle_loop}
use desert_addon_uwapp_net.Listener.Handle.Messages.{IsMessage, IsServing, frames}
use desert_addon_uwapp_net.Listener.Handle.Parsing.{messages_of}
use desert_addon_uwapp_net.Listener.Handle.Cutting.{delivered, messages_of-delivered}
use desert_addon_uwapp_net.Listener.Transmit.{transmit_all}
use desert_addon_uwapp_net.Node.{Held, Node, recv_all}
use desert_addon_uwapp_net.Node.Forwarding.{IsConnected}
use desert_addon_uwapp_net.Gateway.{gateway-Carried}

module _ (sim : Sim) (os_a os_b : Kernel) where
  open sim use {Double}

  -- A client of module A has sent at least one and at most 65533 messages, each neither empty nor
  -- larger than the buffer; A's listener is sound, its queue is empty, its connection delivers all
  -- bytes, and A has sent nothing yet. A's listening thread queues them in as many rounds; A's timer
  -- expires as many times; what is sent down arrives, all of it and in order, at a module B just
  -- constructed with `drop_out_of_order` 1 and a debug level below 1, whose client is connected and
  -- has not been sent anything, over a connection that breaks after a number of bytes. Then nothing
  -- faults, although `send_data` fails from the break on; and what B's client has been sent, taken as
  -- framed messages the way a listener takes them, are the first messages, whole and in order, and,
  -- if the break is within a message, the beginning of it as a last one.
  pub gateway-delivered :
      {fd_a fd_b : ℕ} (st : Stream os_a fd_a) (k : Breaking os_b fd_b) (w : Work sim os_a)
      (msgs : List (List ℕ)) (rest : List ℕ) (nows arrivals : List Double) (to : Bound Double)
      (h : Held sim os_b) (b : Node sim os_b)
      → IsServing sim os_a st w
      → w.listener.queue_pck_read ≡ []
      → w.owner.txsn ≡ 1
      → All IsMessage msgs
      → 0 < length msgs
      → length msgs ≤ 65533
      → st.pending w.sys ≡ frames msgs ++ rest
      → length nows ≡ length msgs
      → length arrivals ≡ length msgs
      → to.drop_out_of_order ≡ 1
      → logs_at 1 to.debug ≡ false
      → b.app ≡ construct sim to
      → IsConnected sim os_b fd_b h b
      → k.sent b.sys ≡ []
      → (w' : Work sim os_a) × (b' : Node sim os_b) × (handle_loop sim os_a (length msgs) w
          ≡ some (0, w'))
        × (recv_all sim os_b (arrive arrivals (transmit_all sim nows w'.owner w'.listener).1) b
            ≡ some b')
        × (messages_of (k.sent b'.sys) ≡ delivered (k.room b.sys) msgs)
  gateway-delivered st k w msgs rest nows arrivals to h b v empty first good pos room e ln la drop
        quiet new c fresh =
      let (w', b', looped, ran, cut) =
        gateway-Carried sim os_a os_b st (breaking_carrier k) w msgs rest nows arrivals to h b v
          empty first good pos room e ln la drop quiet new c in
      let whole = cut.sent ∙ ap (λ t. t ++ take (k.room b.sys) (frames msgs)) fresh in
      (w', b', looped, ran, ap messages_of whole ∙ messages_of-delivered (k.room b.sys) msgs good)
