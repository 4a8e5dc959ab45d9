-- ===== src/Tests/Commands.antt =====
-- A module on which `start` is called.
use desert_addon_uwapp_net.Common.{◌≡◌, ◌⊎◌, if◌then◌else◌, true, false, none, some, []}
use desert_addon_uwapp_net.AppNet.{construct}
use desert_addon_uwapp_net.Node.{done, aborts, Node, start_command, stop}
use desert_addon_uwapp_net.Node.Announcing.{sets_up, errors, start_lines}
use desert_addon_uwapp_net.Node.Starting.{Stops, start_command-stop}
use desert_addon_uwapp_net.Tests.Fixtures.{whole, settings, one_pipe}

abbrev pub idle_node : Node whole one_pipe
idle_node = record {
  app = construct whole settings;
  p_tcp_listener = none;
  sys = record { input = []; output = [] };
  timer = none;
  sent_down = [];
  drops = [];
  freed = [];
  console = [];
}

start_command-stop_example :
    (w' : Node whole one_pipe) × (start_command whole one_pipe true [] idle_node
      ≡ done (sets_up whole one_pipe [] idle_node, w'))
    × (w'.app ≡ idle_node.app)
    × (errors (start_lines whole one_pipe [] idle_node)
        ≡ (if sets_up whole one_pipe [] idle_node then 0 else 2))
    × (((sets_up whole one_pipe [] idle_node ≡ true)
          × (true ≡ true)
          × (w'.timer ≡ some idle_node.app.period)
          × (stop whole one_pipe w' ≡ aborts))
        ⊎ ((sets_up whole one_pipe [] idle_node ≡ true)
            × (true ≡ false)
            × (w'.timer ≡ some idle_node.app.period)
            × Stops whole one_pipe idle_node w')
        ⊎ ((sets_up whole one_pipe [] idle_node ≡ false)
            × (w'.timer ≡ none)
            × Stops whole one_pipe idle_node w'))
start_command-stop_example = start_command-stop whole one_pipe true [] idle_node
