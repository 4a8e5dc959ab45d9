-- ===== src/Tests/Printing.antt =====
-- What is written to the console at concrete inputs.
use desert_addon_uwapp_net.Common.{
  ℕ, ◌≡◌, refl, true, false, some, List, [], ◌∷◌, ◌++◌, arith, length-replicate, codes,
}
use desert_addon_uwapp_net.AppNet.{construct}
use desert_addon_uwapp_net.Console.{sn_received, logs_at}
use desert_addon_uwapp_net.Logging.{dec, hex, Stream, printed}
use desert_addon_uwapp_net.Logging.Sticky.{all_printed}
use desert_addon_uwapp_net.Listener.Log.{wrong_magic, loop_lines}
use desert_addon_uwapp_net.Listener.Log.Audit.{Dumped, loop_lines-Dumped}
use desert_addon_uwapp_net.Listener.Handle.{Work, handle_loop}
use desert_addon_uwapp_net.Listener.Handle.Messages.{frames, handle_loop-frames}
use desert_addon_uwapp_net.Output.{Stamp, Output, module_line, listener_line, line_operands}
use desert_addon_uwapp_net.Output.Numbers.{all_operands}
use desert_addon_uwapp_net.Output.Mixing.{mix, Switches, mix-Switches}
use desert_addon_uwapp_net.Tests.Fixtures.{whole, settings, serving, one_pipe, pipe_stream}

abbrev moment : Stamp
moment = record { epoch = 1000; now = codes "2.5"; detail = [] }

abbrev at_start : Stream
at_start = record { base = dec; written = [] }

abbrev one_line : List (Stamp × Output)
one_line = (moment, module_line (sn_received 26)) ∷ []

mix-Switches_example :
    Switches 9 one_line one_line moment 255 one_line
      (mix
        (false ∷ true ∷ true ∷ [])
        (all_operands 9 one_line)
        (all_operands 9 (one_line ++ (moment, listener_line (wrong_magic 255)) ∷ one_line)))
      at_start
mix-Switches_example =
    mix-Switches 9 (false ∷ true ∷ true ∷ []) one_line one_line moment 255 one_line at_start refl
      (refl, tt) (refl, tt)

-- The same line, before and after: `SN_RECEIVED_26` and `SN_RECEIVED_1a`.
decimal_line :
    all_printed dec (all_operands 9 one_line) ≡ codes "[1000]::2.5::9::UWAPPNET::SN_RECEIVED_26\n"
unfolding line_operands printed
decimal_line = refl

hexadecimal_line :
    all_printed hex (all_operands 9 one_line) ≡ codes "[3e8]::2.5::9::UWAPPNET::SN_RECEIVED_1a\n"
unfolding line_operands printed
hexadecimal_line = refl

abbrev told_messages : List (List ℕ)
told_messages = (b'h' ∷ b'i' ∷ []) ∷ (b'y' ∷ b'o' ∷ b'u' ∷ []) ∷ []

abbrev noisy : Work whole one_pipe
noisy = record {
  owner = construct whole (record settings { debug = 1 });
  listener = serving;
  sys = record { input = frames told_messages ++ []; output = [] };
}

noisy_end : (w' : Work whole one_pipe) × (handle_loop whole one_pipe 2 noisy ≡ some (0, w'))
noisy_end =
    let (w', ran, t) =
      handle_loop-frames whole one_pipe (pipe_stream 4) told_messages [] noisy
        (record {
          client = refl;
          sound = record { buffer = length-replicate {A = ℕ} 4096 0; queued = tt };
        })
        (omega arith) refl in
    (w', ran)

loop_lines-Dumped_example :
    Dumped whole one_pipe noisy (loop_lines whole one_pipe 2 noisy) noisy_end.0
unfolding logs_at construct
loop_lines-Dumped_example =
    loop_lines-Dumped whole one_pipe 2 noisy
      (record { buffer = length-replicate {A = ℕ} 4096 0; queued = tt }) refl noisy_end.1
