-- ===== src/Tests/Listening.antt =====
-- A listener whose client has sent two messages.
use Prim.Native.Nat.{ℕ, ◌^◌, ◌≤◌, ◌<◌}
use desert_addon_uwapp_net.Common.{
  ◌≡◌, ◌≢◌, ◌⊎◌, refl, true, false, none, some, List, [], ◌∷◌, ◌++◌, arith, length,
  length-replicate, replicate, minus_one, ◌==◌, if◌then◌else◌,
}
use desert_addon_uwapp_net.AppNet.{construct}
use desert_addon_uwapp_net.Kernel.{Kernel}
use desert_addon_uwapp_net.Listener.{new_listener}
use desert_addon_uwapp_net.Listener.Wire.{frame, overwrite}
use desert_addon_uwapp_net.Listener.Setup.{setup, destroy}
use desert_addon_uwapp_net.Listener.Send.{send_data}
use desert_addon_uwapp_net.Listener.Send.Framing.{send_data-frame, receive_packet-send_data}
use desert_addon_uwapp_net.Listener.Receive.{receive_packet}
use desert_addon_uwapp_net.Listener.Receive.Bounds.{IsWithin, receive_packet-IsWithin}
use desert_addon_uwapp_net.Listener.Handle.{Next, Work, handle_loop, handle_round}
use desert_addon_uwapp_net.Listener.Handle.Queue.{IsSound}
use desert_addon_uwapp_net.Listener.Handle.Rounds.{is_ready, message_size, handle_round-IsSound}
use desert_addon_uwapp_net.Listener.Handle.Messages.{IsServing, Took, frames, handle_loop-frames}
use desert_addon_uwapp_net.Listener.Handle.Closing.{destroy-setup}
use desert_addon_uwapp_net.Tests.Fixtures.{
  whole, settings, serving, Pipe, one_pipe, pipe_stream, pipe_sink,
}

abbrev two_messages : List (List ℕ)
two_messages = (b'h' ∷ b'i' ∷ []) ∷ (b'y' ∷ b'o' ∷ b'u' ∷ []) ∷ []

abbrev contacted : Work whole one_pipe
contacted = record {
  owner = construct whole settings;
  listener = serving;
  sys = record { input = frames two_messages ++ []; output = [] };
}

serving-IsSound : IsSound whole one_pipe serving
serving-IsSound = record { buffer = length-replicate {A = ℕ} 4096 0; queued = tt }

contacted-IsServing : IsServing whole one_pipe (pipe_stream 4) contacted
contacted-IsServing = record { client = refl; sound = serving-IsSound }

handle_loop-frames_example :
    (w' : Work whole one_pipe) × (handle_loop whole one_pipe 2 contacted ≡ some (0, w'))
    × Took whole one_pipe (pipe_stream 4) contacted two_messages [] w'
handle_loop-frames_example =
    handle_loop-frames whole one_pipe (pipe_stream 4) two_messages [] contacted contacted-IsServing
      (omega arith) refl

handle_round-IsSound_example :
    ((next : Next) × (w' : Work whole one_pipe) × (handle_round whole one_pipe contacted
        ≡ some (next, w'))
      × IsSound whole one_pipe w'.listener
      × ((is_ready whole one_pipe contacted ≡ false)
          ⊎ (message_size whole one_pipe contacted ≢ minus_one)))
    ⊎ ((handle_round whole one_pipe contacted ≡ none)
        × (is_ready whole one_pipe contacted ≡ true)
        × (message_size whole one_pipe contacted ≡ minus_one))
handle_round-IsSound_example = handle_round-IsSound whole one_pipe contacted serving-IsSound

receive_packet-IsWithin_example :
    IsWithin one_pipe serving (receive_packet one_pipe serving contacted.sys)
receive_packet-IsWithin_example = receive_packet-IsWithin one_pipe serving contacted.sys

abbrev idle : Pipe
idle = record { input = []; output = [] }

abbrev greeting : List ℕ
greeting = b'h' ∷ b'i' ∷ []

open_descriptor : ◌≢◌ {A = ℕ} 4 0
open_descriptor = omega arith

greeting_fits : 2 ≤ length greeting
greeting_fits = omega arith

greeting_small : 2 < 2 ^ 32
greeting_small = omega arith

abbrev sending :
    (s' : Pipe) × (send_data one_pipe greeting 2 serving idle ≡ some (true, s'))
    × (s'.output ≡ [] ++ frame greeting)
sending =
    send_data-frame one_pipe serving (pipe_sink 4) greeting 2 idle refl open_descriptor
      greeting_fits greeting_small

receive_packet-send_data_example :
    (r' : Pipe) × (receive_packet one_pipe serving
        (record { input = sending.0.output ++ []; output = [] })
      ≡ ((2, record serving { buffer_msg = overwrite greeting serving.buffer_msg }), r'))
    × (r'.input ≡ [])
receive_packet-send_data_example =
    receive_packet-send_data one_pipe serving serving (pipe_sink 4) (pipe_stream 4) greeting [] idle
      sending.0 (record { input = sending.0.output ++ []; output = [] }) refl (omega arith) refl
      (omega arith) (omega arith) (omega arith) refl sending.1 refl

-- a system where the port is taken
abbrev port_taken : Kernel
port_taken = record one_pipe { bind = λ fd port s. (minus_one, s) }

abbrev stillborn : Work whole port_taken
stillborn = record {
  owner = construct whole settings;
  listener = (setup port_taken {Double = ℕ} (new_listener 4002 50000 (replicate 4096 0)) idle).0.1;
  sys = idle;
}

destroy-setup_example :
    destroy port_taken
      (setup port_taken {Double = ℕ} (new_listener 4002 50000 (replicate 4096 0)) idle).0.1
      idle
    ≡ (if (port_taken.socket idle).0 == 0
        then idle
        else port_taken.close (port_taken.socket idle).0 idle)
destroy-setup_example = destroy-setup whole port_taken 4002 50000 (replicate 4096 0) idle idle
