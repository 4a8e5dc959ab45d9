-- ===== src/Tests/Breaking.antt =====
-- Two modules, and a client of the second whose connection breaks within the second message.
use desert_addon_uwapp_net.Common.{
  ℕ, ◌-◌, ◌≡◌, refl, some, List, [], ◌∷◌, ◌++◌, arith, length, take, leb, length-take,
  length-append,
}
use desert_addon_uwapp_net.Kernel.{Kernel}
use desert_addon_uwapp_net.AppNet.{construct}
use desert_addon_uwapp_net.AppNet.Sequence.{arrive}
use desert_addon_uwapp_net.Listener.Send.{wrote}
use desert_addon_uwapp_net.Listener.Send.Breaking.{Breaking}
use desert_addon_uwapp_net.Listener.Handle.{Work, handle_loop}
use desert_addon_uwapp_net.Listener.Handle.Parsing.{messages_of}
use desert_addon_uwapp_net.Listener.Handle.Cutting.{delivered}
use desert_addon_uwapp_net.Listener.Transmit.{transmit_all}
use desert_addon_uwapp_net.Thread.{new_thread}
use desert_addon_uwapp_net.Node.{Held, Node, recv_all}
use desert_addon_uwapp_net.Node.Forwarding.{IsConnected}
use desert_addon_uwapp_net.Gateway.Cutting.{gateway-delivered}
use desert_addon_uwapp_net.Tests.Fixtures.{whole, settings, serving, one_pipe, pipe_stream, Pipe}
use desert_addon_uwapp_net.Tests.Sending.{
  two_messages, times, contacted, contacted-IsServing, fresh-txsn, settings_quiet,
}

abbrev room_of : Pipe → ℕ
room_of s = 20 - length s.output

-- a connection that takes twenty bytes
abbrev short_pipe : Kernel
short_pipe = record one_pipe {
  write = λ fd bs s.
      (some (length (take (room_of s) bs)), record s { output = s.output ++ take (room_of s) bs });
}

room_of-write :
    (bs : List ℕ) (s : Pipe)
    → room_of (record s { output = s.output ++ take (room_of s) bs }) ≡ room_of s - length bs
room_of-write bs s =
    omega (arith, length-append s.output (take (room_of s) bs), length-take (room_of s) bs)

reports_pipe :
    (bs : List ℕ) (s : Pipe)
    → wrote (some (length (take (room_of s) bs))) (length bs) ≡ leb (length bs) (room_of s)
reports_pipe bs s = ground (arith, length-take (room_of s) bs)

abbrev breaking : Breaking short_pipe 4
breaking = record {
  sent = λ s. s.output;
  room = room_of;
  write_sent = λ bs s. refl;
  write_room = room_of-write;
  reports = reports_pipe;
}

abbrev held : Held whole short_pipe
held = record { tcp = serving; thread = new_thread }

abbrev far_peer : Node whole short_pipe
far_peer = record {
  app = construct whole settings;
  p_tcp_listener = some held;
  sys = record { input = []; output = [] };
  timer = some 1;
  sent_down = [];
  drops = [];
  freed = [];
  console = [];
}

far_peer-IsConnected : IsConnected whole short_pipe 4 held far_peer
far_peer-IsConnected = record { held = refl; client = refl; is_open = λ e. cc }

gateway-delivered_example :
    (w' : Work whole one_pipe) × (b' : Node whole short_pipe) × (handle_loop whole one_pipe 2
        contacted
      ≡ some (0, w'))
    × (recv_all whole short_pipe
          (arrive times (transmit_all whole times w'.owner w'.listener).1)
          far_peer
        ≡ some b')
    × (messages_of b'.sys.output ≡ delivered 20 two_messages)
gateway-delivered_example =
    gateway-delivered whole one_pipe short_pipe (pipe_stream 4) breaking contacted two_messages []
      times times settings held far_peer contacted-IsServing refl fresh-txsn (omega arith)
      (omega arith) (omega arith) refl refl refl refl settings_quiet refl far_peer-IsConnected refl

-- The second message arrives as `yo`.
delivered_two : delivered 20 two_messages ≡ (b'h' ∷ b'i' ∷ []) ∷ (b'y' ∷ b'o' ∷ []) ∷ []
unfolding delivered
delivered_two = refl
