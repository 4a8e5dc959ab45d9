-- ===== src/Tests/Lifecycles.antt =====
-- The listening thread's life, Tcl words, hexadecimal texts and `stop()`.
use Prim.Native.Nat.{ℕ}
use desert_addon_uwapp_net.Common.{
  codes, ◌≡◌, ◌↔◌, refl, true, false, some, none, List, [], ◌∷◌, map, arith, take,
}
use desert_addon_uwapp_net.Thread.{Thread, new_thread, spawned, finished, started, start}
use desert_addon_uwapp_net.Thread.Lifecycle.{Owner, Reach, begin, next, starts, Inv, Reach-Inv}
use desert_addon_uwapp_net.AppNet.{construct}
use desert_addon_uwapp_net.Packet.{Packet}
use desert_addon_uwapp_net.AppNet.Receive.{count}
use desert_addon_uwapp_net.Console.{verdict_lines}
use desert_addon_uwapp_net.Listener.Wire.{bytes_of_word}
use desert_addon_uwapp_net.Listener.Send.{send_data, send_size, send_body}
use desert_addon_uwapp_net.Hex.{buffer_to_hexstring, string_to_hexstring}
use desert_addon_uwapp_net.Hex.Digits.{read_hex, read_hex-buffer_to_hexstring}
use desert_addon_uwapp_net.Node.{Held, Node, recv, recv_all, forward}
use desert_addon_uwapp_net.Node.Command.{lostpkts, command_of, command_of_iff, to_lower}
use desert_addon_uwapp_net.Tests.Fixtures.{whole, settings, serving, numbered, one_pipe}

-- the thread object just after `Start`
abbrev launched : Thread
launched = record new_thread { joinable = true; phase = spawned }

launched-start : start true new_thread ≡ started true launched
unfolding start
launched-start = refl

launched-Reach : Reach (record { thread = launched; owner = Owner.running })
launched-Reach = next begin (starts launched-start)

Reach-Inv_example : Inv (record { thread = launched; owner = Owner.running })
Reach-Inv_example = Reach-Inv launched-Reach

command_of_iff_example :
    (command_of (codes "LostPkts") ≡ some lostpkts)
    ↔ (map to_lower (codes "LostPkts") ≡ codes "lostpkts")
command_of_iff_example = command_of_iff (codes "LostPkts") lostpkts

abbrev greeting : List ℕ
greeting = b'h' ∷ b'i' ∷ b'!' ∷ []

read_hex-buffer_to_hexstring_example :
    read_hex (buffer_to_hexstring greeting 2 false false) ≡ take 2 greeting
read_hex-buffer_to_hexstring_example =
    read_hex-buffer_to_hexstring greeting 2 (omega arith) (omega arith) (omega arith)

hex_of_umlaut : string_to_hexstring (0xfc ∷ []) false false ≡ codes "FFFFFFFC"
unfolding string_to_hexstring
hex_of_umlaut = refl

-- a module whose listening thread has come to its end by itself
abbrev ended : Held whole one_pipe
ended = record { tcp = serving; thread = record new_thread { joinable = true; phase = finished } }

abbrev bereft : Node whole one_pipe
bereft = record {
  app = construct whole settings;
  p_tcp_listener = some ended;
  sys = record { input = []; output = [] };
  timer = some 1;
  sent_down = [];
  drops = [];
  freed = [];
  console = [];
}

-- a module that was stopped before
abbrev silent : Node whole one_pipe
silent = record bereft { p_tcp_listener = none }

abbrev served : Node whole one_pipe
served = record bereft { p_tcp_listener = some (record { tcp = serving; thread = new_thread }) }

-- two packets arrive, the second of them twice
abbrev repeated : List (ℕ × Packet ℕ)
repeated = (10, numbered 2) ∷ (11, numbered 3) ∷ (12, numbered 3) ∷ []

abbrev after_repeated :
    (w' : Node whole one_pipe) × (recv_all whole one_pipe repeated served ≡ some w')
unfolding recv_all recv count construct forward send_data bytes_of_word send_size send_body
    verdict_lines
after_repeated = (_, refl)
