-- ===== src/Tests/Serving.antt =====
-- A server with four clients in its backlog.
use desert_addon_uwapp_net.Common.{
  ℕ, ◌≤◌, ◌≡◌, refl, ap, true, some, Option, List, [], ◌∷◌, arith, length, take, drop, length-take,
  length-replicate,
}
use mathlib.Core.List.{flatten}
use desert_addon_uwapp_net.Kernel.{Kernel}
use desert_addon_uwapp_net.AppNet.{construct}
use desert_addon_uwapp_net.Listener.Handle.{Work, close_server, run}
use desert_addon_uwapp_net.Listener.Handle.Messages.{frames}
use desert_addon_uwapp_net.Listener.Handle.Backlog.{Backlog}
use desert_addon_uwapp_net.Listener.Handle.Clients.{calls_for, sessions, Collected, run-sessions}
use desert_addon_uwapp_net.Listener.Handle.Parsing.{messages_of, messages_in}
use desert_addon_uwapp_net.Listener.Receive.Message.{next_message}
use desert_addon_uwapp_net.Listener.Wire.{frame, bytes_of_word, word_of_bytes}
use desert_addon_uwapp_net.Tests.Fixtures.{whole, settings, serving, four_zeros}

record Shop : Type 0 where
  clients : List (List ℕ)
  input : List ℕ

abbrev read_shop : ℕ → ℕ → Shop → Option (List ℕ) × Shop
read_shop fd n s = (some (take n s.input), record s { input = drop n s.input })

read_shop-count :
    (fd n : ℕ) (s : Shop) (bs : List ℕ) (s' : Shop)
    → read_shop fd n s ≡ (some bs, s')
    → length bs ≤ n
read_shop-count fd n s bs s' e = ground (arith, length-take n s.input)

abbrev next_client : List (List ℕ) → Shop → Shop
next_client [] s = s
next_client (c ∷ cs) s = record { clients = cs; input = c }

abbrev shop : Kernel
shop = record {
  State = Shop;
  socket = λ s. (3, s);
  setsockopt = λ fd s. (0, s);
  bind = λ fd port s. (0, s);
  listen = λ fd s. (0, s);
  accept = λ fd s. (4, next_client s.clients s);
  select = λ fd timeout s. ((1, timeout), s);
  read = read_shop;
  read_count = read_shop-count;
  write = λ fd bs s. (some (length bs), s);
  shutdown = λ fd s. s;
  close = λ fd s. s;
  stack_word = λ s. four_zeros;
  stack_word_length = λ s. refl;
}

accepts_shop :
    (c : List ℕ) (cs : List (List ℕ)) (s : Shop)
    → s.clients ≡ c ∷ cs
    → (s' : Shop) × (shop.accept 3 s ≡ (4, s')) × (s'.input ≡ c) × (s'.clients ≡ cs)
accepts_shop c cs s e = (next_client (c ∷ cs) s, ap (λ q. (4, next_client q s)) e, refl, refl)

abbrev shop_backlog : Backlog shop 3 4
shop_backlog = record {
  peer = record {
    pending = λ s. s.input;
    reads = λ n s. (record s { input = drop n s.input }, refl, refl);
    selects = λ timeout s. (timeout, s, refl, refl);
  };
  waiting = λ s. s.clients;
  accepts = accepts_shop;
  read_waiting = λ n s. refl;
  select_waiting = λ timeout s. refl;
  shutdown_waiting = λ s. refl;
  close_waiting = λ s. refl;
}

-- two framed messages; another protocol; nothing; a frame that is cut
abbrev four_clients : List (List ℕ)
four_clients =
    frames ((b'h' ∷ b'i' ∷ []) ∷ (b'y' ∷ b'o' ∷ []) ∷ [])
    ∷ (b'G' ∷ b'E' ∷ b'T' ∷ b' ' ∷ b'/' ∷ b' ' ∷ b'H' ∷ b'T' ∷ b'T' ∷ b'P' ∷ [])
    ∷ []
    ∷ take 10 (frames ((b'b' ∷ b'y' ∷ b'e' ∷ []) ∷ []))
    ∷ []

abbrev opened : Work whole shop
opened = record {
  owner = construct whole settings;
  listener = record serving { cln_sock_descr = 0 };
  sys = record { clients = four_clients; input = [] };
}

run-sessions_example :
    (w' : Work whole shop) × (run whole shop (calls_for (sessions four_clients)) opened
      ≡ some (true, close_server whole shop w'))
    × Collected whole shop shop_backlog opened (flatten (sessions four_clients)) w'
run-sessions_example =
    run-sessions whole shop shop_backlog four_clients opened refl refl
      (record { buffer = length-replicate {A = ℕ} 4096 0; queued = tt }) refl refl

-- the message that is cut is queued as a whole one
cut-messages_of :
    messages_of (take 10 (frames ((b'b' ∷ b'y' ∷ b'e' ∷ []) ∷ []))) ≡ (b'b' ∷ b'y' ∷ []) ∷ []
unfolding messages_of messages_in next_message frames frame bytes_of_word word_of_bytes
cut-messages_of = refl
