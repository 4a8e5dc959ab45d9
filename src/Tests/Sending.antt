-- ===== src/Tests/Sending.antt =====
-- A module with two packets in its queue, and two modules end to end.
use Prim.Native.Nat.{ℕ}
use desert_addon_uwapp_net.Common.{
  ◌≡◌, refl, false, none, some, List, [], ◌∷◌, ◌++◌, map, arith, length-replicate, All,
}
use desert_addon_uwapp_net.Packet.{Packet}
use desert_addon_uwapp_net.AppNet.{AppNet, construct}
use desert_addon_uwapp_net.AppNet.Receive.{count_all}
use desert_addon_uwapp_net.AppNet.Sequence.{arrive}
use desert_addon_uwapp_net.AppNet.Faults.{count_all-total}
use desert_addon_uwapp_net.Console.{logs_at}
use desert_addon_uwapp_net.Listener.{Listener}
use desert_addon_uwapp_net.Listener.Handle.{Work, handle_loop}
use desert_addon_uwapp_net.Listener.Handle.Queue.{content}
use desert_addon_uwapp_net.Listener.Handle.Messages.{IsServing, frames}
use desert_addon_uwapp_net.Listener.Transmit.{transmit_all}
use desert_addon_uwapp_net.Listener.Transmit.Numbering.{Sent, transmit_all-Sent}
use desert_addon_uwapp_net.Exchange.{Report, exchange_lem}
use desert_addon_uwapp_net.Exchange.Overrun.{exchange-faults}
use desert_addon_uwapp_net.Gateway.{gateway_lem}
use desert_addon_uwapp_net.Thread.{new_thread}
use desert_addon_uwapp_net.Node.{Held, Node, recv_all}
use desert_addon_uwapp_net.Node.Forwarding.{
  IsConnected, ArrivesSound, Forwarded, recv_all-Forwarded,
}
use desert_addon_uwapp_net.Tests.Fixtures.{
  whole, settings, numbered, serving, one_pipe, pipe_stream, pipe_sink,
}

abbrev loaded : Listener ℕ
loaded = record serving { queue_pck_read = numbered 0 ∷ numbered 0 ∷ [] }

abbrev fresh : AppNet ℕ
fresh = construct whole settings

abbrev pub times : List ℕ
times = 1 ∷ 2 ∷ []

abbrev transmitted : (AppNet ℕ × Listener ℕ) × List (Packet ℕ)
transmitted = transmit_all whole times fresh loaded

transmit_all-Sent_example : Sent whole 2 fresh loaded transmitted.0.1 transmitted.1
transmit_all-Sent_example = transmit_all-Sent whole times fresh loaded

pub fresh-txsn : fresh.txsn ≡ 1
unfolding construct
fresh-txsn = refl

exchange_lem_example :
    (n' : AppNet ℕ) × (count_all whole (arrive times transmitted.1) (construct whole settings)
      ≡ some (n', transmitted.1))
    × (map content transmitted.1 ≡ map content loaded.queue_pck_read)
    × Report whole 2 n'
exchange_lem_example =
    exchange_lem whole fresh settings loaded times times fresh-txsn refl refl refl (omega arith)
      (omega arith)

-- a module that has sent 65532 packets
abbrev worn : AppNet ℕ
worn = record fresh { txsn = 65533 }

exchange-faults_example :
    count_all whole (arrive times (transmit_all whole times worn loaded).1) fresh ≡ none
exchange-faults_example =
    exchange-faults whole worn fresh loaded times times (omega arith) (omega arith) refl refl

-- a module with a connected client
abbrev pub held : Held whole one_pipe
held = record { tcp = serving; thread = new_thread }

abbrev pub peer : Node whole one_pipe
peer = record {
  app = construct whole settings;
  p_tcp_listener = some held;
  sys = record { input = []; output = [] };
  timer = some 1;
  sent_down = [];
  drops = [];
  freed = [];
  console = [];
}

pub peer-IsConnected : IsConnected whole one_pipe 4 held peer
peer-IsConnected = record { held = refl; client = refl; is_open = λ e. cc }

pub settings_quiet : logs_at 1 settings.debug ≡ false
unfolding logs_at
settings_quiet = refl

peer_quiet : logs_at 1 peer.app.debug ≡ false
unfolding construct
peer_quiet = settings_quiet

abbrev arrivals : List (ℕ × Packet ℕ)
arrivals = (10, numbered 2) ∷ (11, numbered 2) ∷ (12, numbered 3) ∷ []

abbrev ran : (r : AppNet ℕ × List (Packet ℕ)) × (count_all whole arrivals peer.app ≡ some r)
ran = count_all-total whole arrivals peer.app (omega arith)

arrivals_sound : All ArrivesSound arrivals
arrivals_sound = omega arith

recv_all-Forwarded_example :
    (w' : Node whole one_pipe) × (recv_all whole one_pipe arrivals peer ≡ some w')
    × (w'.app ≡ ran.0.0)
    × Forwarded whole one_pipe (pipe_sink 4) held peer ran.0.1 w'
recv_all-Forwarded_example =
    recv_all-Forwarded whole one_pipe (pipe_sink 4) held arrivals peer peer-IsConnected
      arrivals_sound peer_quiet ran.1

abbrev pub two_messages : List (List ℕ)
two_messages = (b'h' ∷ b'i' ∷ []) ∷ (b'y' ∷ b'o' ∷ b'u' ∷ []) ∷ []

abbrev pub contacted : Work whole one_pipe
contacted = record {
  owner = fresh;
  listener = serving;
  sys = record { input = frames two_messages ++ []; output = [] };
}

pub contacted-IsServing : IsServing whole one_pipe (pipe_stream 4) contacted
contacted-IsServing = record {
  client = refl;
  sound = record { buffer = length-replicate {A = ℕ} 4096 0; queued = tt };
}

gateway_lem_example :
    (w' : Work whole one_pipe) × (b' : Node whole one_pipe) × (handle_loop whole one_pipe 2
        contacted
      ≡ some (0, w'))
    × (recv_all whole one_pipe (arrive times (transmit_all whole times w'.owner w'.listener).1) peer
        ≡ some b')
    × (b'.sys.output ≡ [] ++ frames two_messages)
gateway_lem_example =
    gateway_lem whole one_pipe one_pipe (pipe_stream 4) (pipe_sink 4) contacted two_messages []
      times times settings held peer contacted-IsServing refl fresh-txsn (omega arith) (omega arith)
      (omega arith) refl refl refl refl settings_quiet refl peer-IsConnected
