-- ===== src/Tests/Interleaving.antt =====
-- The two threads of a module alternate while a client's message is there, and another module receives
-- what has been sent.
use desert_addon_uwapp_net.Common.{
  ℕ, ◌≡◌, refl, some, List, [], ◌∷◌, ◌++◌, arith, length, take, drop, length-replicate,
}
use desert_addon_uwapp_net.Kernel.{Kernel}
use desert_addon_uwapp_net.Packet.{Packet}
use desert_addon_uwapp_net.AppNet.Sequence.{arrive}
use desert_addon_uwapp_net.Listener.Wire.{overwrite}
use desert_addon_uwapp_net.Listener.Setup.{ready_to_read}
use desert_addon_uwapp_net.Listener.Receive.{receive_packet}
use desert_addon_uwapp_net.Listener.Receive.Message.{next_message}
use desert_addon_uwapp_net.Listener.Receive.Peer.{Peer, receive_packet-some}
use desert_addon_uwapp_net.Listener.Handle.{make_packet}
use desert_addon_uwapp_net.Listener.Handle.Queue.{make_packet-Made}
use desert_addon_uwapp_net.Listener.Handle.Messages.{frames}
use desert_addon_uwapp_net.Listener.Handle.Parsing.{messages_of, next_message-frame}
use desert_addon_uwapp_net.Listener.Transmit.{fill_packet}
use desert_addon_uwapp_net.Handover.{
  pushes, counts, looks, timer_locks, fronts, pops, unlocks, sends, look, front, pop, push,
  count_pushed, take_off, send_down,
}
use desert_addon_uwapp_net.Handover.Reading.{Serving, receives, turns, Strides, stands, then_stride}
use desert_addon_uwapp_net.Handover.Reading.Told.{begun}
use desert_addon_uwapp_net.Node.{Node, recv_all}
use desert_addon_uwapp_net.Gateway.Interleaving.{gateway-Strides}
use desert_addon_uwapp_net.Tests.Fixtures.{whole, settings, serving, one_pipe, pipe_sink, Pipe}
use desert_addon_uwapp_net.Tests.Sending.{
  held, peer, peer-IsConnected, settings_quiet, two_messages,
}

-- The client has closed its end.
abbrev closed_pipe : Kernel
closed_pipe = record one_pipe { select = λ fd timeout s. ((1, timeout), s) }

abbrev closed_peer : Peer closed_pipe 4
closed_peer = record {
  pending = λ s. s.input;
  reads = λ n s. (record s { input = drop n s.input }, refl, refl);
  selects = λ timeout s. (timeout, s, refl, refl);
}

abbrev told : Pipe
told = record { input = frames two_messages; output = [] }

full : length serving.buffer_msg ≡ 4096
full = length-replicate {A = ℕ} 4096 0

abbrev hi : List ℕ
hi = b'h' ∷ b'i' ∷ []

hi_received :
    (s : Pipe) × (receive_packet closed_pipe serving told
      ≡ ((2, record serving { buffer_msg = overwrite hi serving.buffer_msg }), s))
unfolding frames next_message
hi_received =
    let (s, ran, after, pos, fits) =
      receive_packet-some closed_pipe closed_peer serving told refl full
        (next_message-frame hi (frames ((b'y' ∷ b'o' ∷ b'u' ∷ []) ∷ [])) (omega arith)) in
    (s, ran)

abbrev hi_made : (p : Packet ℕ) × (make_packet whole 2 (overwrite hi serving.buffer_msg) ≡ some p)
hi_made =
    let (p, e, made) =
      make_packet-Made whole 2 (overwrite hi serving.buffer_msg) (omega arith) full in
    (p, e)

-- The message is received and pushed, and the timer sends it.
abbrev spoken :
    (c : Serving whole closed_pipe) × Strides whole closed_pipe
      (begun whole closed_pipe closed_peer settings serving told)
      c
unfolding ready_to_read push count_pushed look front pop take_off send_down fill_packet
spoken = (
  _,
  then_stride
      (then_stride
        (then_stride
          (then_stride
            (then_stride
              (then_stride
                (then_stride
                  (then_stride
                    (then_stride stands (receives refl refl refl hi_received.1 refl hi_made.1))
                    (turns (pushes hi_made.0 refl) tt))
                  (turns (looks refl) tt))
                (turns (counts refl) tt))
              (turns (timer_locks refl refl) tt))
            (turns (fronts refl) tt))
          (turns (pops hi_made.0 refl) tt))
        (turns (unlocks hi_made.0 refl) tt))
      (turns (sends 5 hi_made.0 refl) tt),
)

gateway-Strides_example :
    (b' : Node whole one_pipe) × (recv_all whole one_pipe
        (arrive (9 ∷ []) spoken.0.shared.sent)
        peer
      ≡ some b')
    × (b'.sys.output ≡ [] ++ frames (take (length spoken.0.shared.sent) (messages_of told.input)))
unfolding spoken ready_to_read push count_pushed look front pop take_off send_down fill_packet
gateway-Strides_example =
    gateway-Strides whole closed_pipe one_pipe settings settings closed_peer (pipe_sink 4) serving
      told (9 ∷ []) held peer refl refl full spoken.1 (omega arith) refl refl settings_quiet refl
      peer-IsConnected
