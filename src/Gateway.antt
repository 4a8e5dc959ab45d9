-- ===== src/Gateway.antt =====
-- From the TCP client of one module over the network below to the TCP client of another: listener,
-- queue, timer, `statistics` and `send_data` together.
pub mod Cutting
pub mod Interleaving
use desert_addon_uwapp_net.Common.{
  ℕ, ◌<◌, false, ◌≤◌, ◌≡◌, sym, ap, ◌∙◌, subst, some, List, [], ◌∷◌, ◌++◌, map, arith, length,
  length-map, take, take_self, All,
}
use desert_addon_uwapp_net.Sim.{Sim}
use desert_addon_uwapp_net.Kernel.{Kernel}
use desert_addon_uwapp_net.Packet.{Packet}
use desert_addon_uwapp_net.AppNet.{AppNet, Bound, construct}
use desert_addon_uwapp_net.Console.{logs_at}
use desert_addon_uwapp_net.AppNet.Receive.{count_all}
use desert_addon_uwapp_net.AppNet.Sequence.{arrive}
use desert_addon_uwapp_net.Listener.Receive.Framing.{Stream}
use desert_addon_uwapp_net.Listener.Send.Framing.{Sink}
use desert_addon_uwapp_net.Listener.Send.Carrier.{Carrier, sink_carrier}
use desert_addon_uwapp_net.Listener.Handle.{Work, handle_loop}
use desert_addon_uwapp_net.Listener.Handle.Queue.{HasPayload, content}
use desert_addon_uwapp_net.Listener.Handle.Messages.{
  IsMessage, IsServing, frames, handle_loop-frames,
}
use desert_addon_uwapp_net.Listener.Transmit.{transmit_all}
use desert_addon_uwapp_net.Listener.Transmit.Numbering.{
  payload_of, payload_of-HasPayload, transmit_all-Sent,
}
use desert_addon_uwapp_net.Exchange.{exchange_lem}
use desert_addon_uwapp_net.Node.{Held, Node, recv_all}
use desert_addon_uwapp_net.Node.Forwarding.{ArrivesSound, IsConnected, recv_all-Carried}

pub arrive_sound :
    {Double : Type 0} (ts : List Double) (ps : List (Packet Double))
    → All HasPayload ps
    → All ArrivesSound (arrive ts ps)
arrive_sound [] ps h = tt
arrive_sound (t ∷ ts) [] h = tt
arrive_sound (t ∷ ts) (p ∷ ps) h = (h.0, arrive_sound ts ps h.1)

module _ (sim : Sim) (os_a os_b : Kernel) where
  open sim use {Double}

  -- The messages of A's client are carried to the client of B, whatever its connection is.
  pub gateway-Carried :
      {fd_a fd_b : ℕ} (st : Stream os_a fd_a) (k : Carrier os_b fd_b) (w : Work sim os_a)
      (msgs : List (List ℕ)) (rest : List ℕ) (nows arrivals : List Double) (to : Bound Double)
      (h : Held sim os_b) (b : Node sim os_b)
      → IsServing sim os_a st w
      → w.listener.queue_pck_read ≡ []
      → w.owner.txsn ≡ 1
      → All IsMessage msgs
      → 0 < length msgs
      → length msgs ≤ 65533
      → st.pending w.sys ≡ frames msgs ++ rest
      → length nows ≡ length msgs
      → length arrivals ≡ length msgs
      → to.drop_out_of_order ≡ 1
      → logs_at 1 to.debug ≡ false
      → b.app ≡ construct sim to
      → IsConnected sim os_b fd_b h b
      → (w' : Work sim os_a) × (b' : Node sim os_b) × (handle_loop sim os_a (length msgs) w
          ≡ some (0, w'))
        × (recv_all sim os_b (arrive arrivals (transmit_all sim nows w'.owner w'.listener).1) b
            ≡ some b')
        × k.carried b.sys msgs b'.sys
  unfolding construct
  gateway-Carried st k w msgs rest nows arrivals to h b v empty first good pos room e ln la drop
        quiet new c =
      let (w', looped, t) = handle_loop-frames sim os_a st msgs rest w v good e in
      let queue : w'.listener.queue_pck_read ≡ t.packets =
        t.queued ∙ ap (λ q. q ++ t.packets) empty in
      let carried : map content w'.listener.queue_pck_read ≡ msgs =
        ap (map content) queue ∙ t.carried in
      let count : length w'.listener.queue_pck_read ≡ length msgs =
        sym (length-map content w'.listener.queue_pck_read) ∙ ap length carried in
      let sent = (transmit_all sim nows w'.owner w'.listener).1 in
      let s = transmit_all-Sent sim nows w'.owner w'.listener in
      let (n', counted, same, report) =
        exchange_lem sim w'.owner to w'.listener nows arrivals (t.numbers ∙ first) drop
          (ln ∙ sym count) (la ∙ sym count) (omega arith) (omega arith) in
      let whole = ap (map payload_of) (
        ap (λ c. take c w'.listener.queue_pck_read) (ln ∙ sym count)
        ∙ take_self w'.listener.queue_pck_read) in
      let sound = arrive_sound arrivals sent (
        payload_of-HasPayload sent w'.listener.queue_pck_read (s.payloads ∙ whole)
          t.serving.sound.queued) in
      let (b', ran, app, f) =
        recv_all-Carried sim os_b k h (arrive arrivals sent) b c sound
          (ap (λ (n : AppNet Double). logs_at 1 n.debug) new ∙ quiet)
          (ap (count_all sim (arrive arrivals sent)) new ∙ counted) in
      (w', b', looped, ran, subst (λ ms. k.carried b.sys ms b'.sys) (same ∙ carried) f.sent)

  -- A client of module A has sent at least one and at most 65533 messages, each neither empty nor
  -- larger than the buffer; A's listener is sound, its queue is empty, its connection delivers all
  -- bytes, and A has sent nothing yet. A's listening thread queues them in as many rounds; A's timer
  -- expires as many times; what is sent down arrives, all of it and in order, at a module B just
  -- constructed with `drop_out_of_order` 1 and a debug level below 1, whose client is connected and takes all bytes. Then
  -- nothing faults, and B's client is sent exactly the bytes that A's client sent, in order.
  pub gateway_lem :
      {fd_a fd_b : ℕ} (st : Stream os_a fd_a) (k : Sink os_b fd_b) (w : Work sim os_a)
      (msgs : List (List ℕ)) (rest : List ℕ) (nows arrivals : List Double) (to : Bound Double)
      (h : Held sim os_b) (b : Node sim os_b)
      → IsServing sim os_a st w
      → w.listener.queue_pck_read ≡ []
      → w.owner.txsn ≡ 1
      → All IsMessage msgs
      → 0 < length msgs
      → length msgs ≤ 65533
      → st.pending w.sys ≡ frames msgs ++ rest
      → length nows ≡ length msgs
      → length arrivals ≡ length msgs
      → to.drop_out_of_order ≡ 1
      → logs_at 1 to.debug ≡ false
      → b.app ≡ construct sim to
      → IsConnected sim os_b fd_b h b
      → (w' : Work sim os_a) × (b' : Node sim os_b) × (handle_loop sim os_a (length msgs) w
          ≡ some (0, w'))
        × (recv_all sim os_b (arrive arrivals (transmit_all sim nows w'.owner w'.listener).1) b
            ≡ some b')
        × (k.sent b'.sys ≡ k.sent b.sys ++ frames msgs)
  gateway_lem st k = gateway-Carried st (sink_carrier k)
