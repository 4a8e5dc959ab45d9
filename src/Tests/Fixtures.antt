-- ===== src/Tests/Fixtures.antt =====
-- A simulator whose times are whole numbers, and an operating system with one connection: a list of
-- bytes to read and a list of bytes written.
use Prim.Native.Nat.{ℕ, ◌+◌, ◌-◌, ◌*◌, ◌/◌, ◌≤◌}
use desert_addon_uwapp_net.Common.{
  Option, some, List, [], ◌∷◌, ◌++◌, ◌≡◌, ◌≢◌, true, ltb, ◌==◌, arith, length, take, drop,
  replicate, length-take, length-replicate, take-append_self, drop-append_self, false, refl, ap,
  ◌∙◌,
}
use mathlib.Core.Path.{ap₂}
use desert_addon_uwapp_net.Packet.{Packet, DataApplication}
use desert_addon_uwapp_net.Sim.{Sim}
use desert_addon_uwapp_net.Kernel.{Kernel}
use desert_addon_uwapp_net.AppNet.{Bound}
use desert_addon_uwapp_net.Listener.{Listener}
use desert_addon_uwapp_net.Listener.Receive.Framing.{Stream}
use desert_addon_uwapp_net.Listener.Send.Framing.{Sink}

abbrev pub no_payload : DataApplication
no_payload = record {
  sn = 0;
  app_rftt = 0;
  rftt_valid = false;
  priority = 0;
  payload_size = 0;
  payload_msg = replicate 4096 0;
}

abbrev pub blank : Packet ℕ
blank = record {
  app = no_payload;
  uid = 0;
  ptype = 0;
  direction = 0;
  timestamp = 0;
  size = 0;
  dport = 0;
  daddr = 0;
}

pub blank_room : length blank.payload_msg ≡ 4096
blank_room = length-replicate {A = ℕ} 4096 0

abbrev pub whole : Sim
whole = record {
  Double = ℕ;
  zero_double = 0;
  one_double = 1;
  add = ◌+◌;
  sub = ◌-◌;
  mul = ◌*◌;
  div = ◌/◌;
  sqrt = λ x. x;
  is_positive = λ x. ltb 0 x;
  is_zero = λ x. x == 0;
  of_int = λ x. x;
  to_int = λ x. x;
  of_uint32 = λ x. x;
  alloc = blank;
  alloc_room = blank_room;
  pt_data_application = 7;
  down = 1;
}

pub record Pipe : Type 0 where
  pub input : List ℕ
  pub output : List ℕ

abbrev pub read_pipe : ℕ → ℕ → Pipe → Option (List ℕ) × Pipe
read_pipe fd n s = (some (take n s.input), record s { input = drop n s.input })

pub read_pipe-count :
    (fd n : ℕ) (s : Pipe) (bs : List ℕ) (s' : Pipe)
    → read_pipe fd n s ≡ (some bs, s')
    → length bs ≤ n
read_pipe-count fd n s bs s' e = ground (arith, length-take n s.input)

abbrev pub has_input : List ℕ → ℕ
has_input [] = 0
has_input (x ∷ xs) = 1

abbrev pub four_zeros : List ℕ
four_zeros = 0 ∷ 0 ∷ 0 ∷ 0 ∷ []

-- All calls succeed; `socket` and `accept` give the descriptors 3 and 4.
abbrev pub one_pipe : Kernel
one_pipe = record {
  State = Pipe;
  socket = λ s. (3, s);
  setsockopt = λ fd s. (0, s);
  bind = λ fd port s. (0, s);
  listen = λ fd s. (0, s);
  accept = λ fd s. (4, s);
  select = λ fd timeout s. ((has_input s.input, timeout), s);
  read = read_pipe;
  read_count = read_pipe-count;
  write = λ fd bs s. (some (length bs), record s { output = s.output ++ bs });
  shutdown = λ fd s. s;
  close = λ fd s. s;
  stack_word = λ s. four_zeros;
  stack_word_length = λ s. refl;
}

pub full_reads_pipe :
    (fd : ℕ) (xs rest : List ℕ) (s : Pipe)
    → s.input ≡ xs ++ rest
    → (s' : Pipe) × (read_pipe fd (length xs) s ≡ (some xs, s')) × (s'.input ≡ rest)
full_reads_pipe fd xs rest s e = (
  record s { input = rest },
  ap (λ inp. (some (take (length xs) inp), record s { input = drop (length xs) inp })) e
      ∙ ap₂ (λ a b. (some a, record s { input = b })) (take-append_self xs rest)
          (drop-append_self xs rest),
  refl,
)

pub selects_pipe :
    (fd timeout : ℕ) (s : Pipe)
    → s.input ≢ []
    → (left : ℕ) × (s' : Pipe) × (one_pipe.select fd timeout s ≡ ((1, left), s'))
      × (s'.input ≡ s.input)
selects_pipe fd timeout s h = (timeout, s, ground arith, refl)

abbrev pub pipe_stream : (fd : ℕ) → Stream one_pipe fd
pipe_stream fd = record {
  pending = λ s. s.input;
  full_reads = full_reads_pipe fd;
  selects = selects_pipe fd;
}

abbrev pub pipe_sink : (fd : ℕ) → Sink one_pipe fd
pipe_sink fd = record {
  sent = λ s. s.output;
  full_writes = λ bs s. (record s { output = s.output ++ bs }, refl, refl);
}

-- the Tcl settings of a module that drops packets out of order
abbrev pub settings : Bound ℕ
settings = record {
  debug = 0;
  period = 1;
  node_id = 1;
  exp_id = 1;
  dest_addr = 2;
  dest_port = 4002;
  socket_port = 4000;
  drop_out_of_order = 1;
  socket_read_timeout = 50000;
}

-- a listener whose client is connected
abbrev pub serving : Listener ℕ
serving = record {
  port = 4002;
  read_timeout = 50000;
  socket_set_up = true;
  serv_sock_descr = 3;
  cln_sock_descr = 4;
  buffer_msg = replicate 4096 0;
  queue_pck_read = [];
}

-- an application packet with a number and two bytes of payload
abbrev pub numbered : ℕ → Packet ℕ
numbered n = record blank {
  app = record no_payload {
    sn = n;
    payload_size = 2;
    payload_msg = b'h' ∷ b'i' ∷ replicate 4094 0;
  };
  ptype = 7;
  size = 2;
}
