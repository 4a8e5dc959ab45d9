-- ===== src/Sharing.antt =====
-- tcp_listener.h: `clnSockDescr` is shared without a lock. The simulator's thread writes a frame with
-- three calls in `send_data`, each on the descriptor of that moment, while the listening thread
-- closes the client (`HandleTCPclient`), clears the descriptor, and accepts the next client (`Run`).
pub mod Attempts
pub mod Framing
use desert_addon_uwapp_net.Common.{ℕ, suc, ◌<◌, ◌≡◌, ◌≢◌, List, [], ◌∷◌, ◌++◌, length, take, u32}
use desert_addon_uwapp_net.Listener.Wire.{magic_tag, bytes_of_word}

-- Where `send_data` stands in the frame of a message: not called, the descriptor found nonzero, the
-- begin tag written, the size written.
pub data Sender : Type 0 where
  idle : Sender
  checked : List ℕ → Sender
  tagged : List ℕ → Sender
  sized : List ℕ → Sender

-- What the descriptor denotes: a connected client, a client whose connection has been shut down or
-- closed, 0, or -1 after an `accept` that failed.
pub data Place : Type 0 where
  serving : Place
  shut : Place
  cleared : Place
  refused : Place

-- what a call of `write` is given
unfoldable pub chunk_of : Sender → List ℕ
chunk_of idle = []
chunk_of (checked msg) = bytes_of_word magic_tag
chunk_of (tagged msg) = bytes_of_word (u32 (length msg))
chunk_of (sized msg) = msg

-- where `send_data` stands after a `write` that succeeds
unfoldable pub advance : Sender → Sender
advance idle = idle
advance (checked msg) = tagged msg
advance (tagged msg) = sized msg
advance (sized msg) = idle

-- a client: where `send_data` stood when it was accepted, the bytes that were written to it, and how
-- many calls of `send_data` have returned false at a `write` to it while it was connected
pub record Client : Type 0 where
  pub entry : Sender
  pub output : List ℕ
  pub failures : ℕ

pub record Link : Type 0 where
  pub place : Place
  pub sender : Sender
  -- the last client that was accepted, and those before it
  pub client : Client
  pub past : List Client
  -- the bytes written to descriptor 0
  pub stray : List ℕ

abbrev pub unconnected : Link
unconnected = record {
  place = cleared;
  sender = idle;
  client = record { entry = idle; output = []; failures = 0 };
  past = [];
  stray = [];
}

unfoldable pub accept_client : Link → Link
accept_client s = record s {
  place = serving;
  client = record { entry = s.sender; output = []; failures = 0 };
  past = s.client ∷ s.past;
}

unfoldable pub write_client : Link → Link
unfolding chunk_of advance
write_client s = record s {
  client = record s.client { output = s.client.output ++ chunk_of s.sender };
  sender = advance s.sender;
}

-- A `write` takes only the first `n` bytes, or none, and `send_data` returns false.
unfoldable pub abandon_client : ℕ → Link → Link
unfolding chunk_of
abandon_client n s = record s {
  client = record s.client {
    output = s.client.output ++ take n (chunk_of s.sender);
    failures = suc s.client.failures;
  };
  sender = idle;
}

unfoldable pub write_stray : Link → Link
unfolding chunk_of advance
write_stray s = record s { stray = s.stray ++ chunk_of s.sender; sender = advance s.sender }

-- A `write` on a connected client takes all bytes, or some of them, or fails; one on a connection that
-- is shut down or closed fails; one on descriptor 0 may succeed or fail. Each `write` reads the descriptor in the same step.
pub data Move (s : Link) : Link → Type 0 where
  accepts : s.place ≡ cleared → Move s (accept_client s)
  refuses : s.place ≡ cleared → Move s (record s { place = refused })
  closes : s.place ≡ serving → Move s (record s { place = shut })
  clears : s.place ≡ shut → Move s (record s { place = cleared })
  begins :
      (msg : List ℕ)
      → s.sender ≡ idle
      → s.place ≢ cleared
      → Move s (record s { sender = checked msg })
  writes : s.sender ≢ idle → s.place ≡ serving → Move s (write_client s)
  cuts :
      (n : ℕ)
      → s.sender ≢ idle
      → s.place ≡ serving
      → n < length (chunk_of s.sender)
      → Move s (abandon_client n s)
  refuses_write : s.sender ≢ idle → s.place ≡ serving → Move s (abandon_client 0 s)
  strays : s.sender ≢ idle → s.place ≡ cleared → Move s (write_stray s)
  fails : s.sender ≢ idle → s.place ≢ serving → Move s (record s { sender = idle })

pub data Moves (s : Link) : Link → Type 0 where
  unmoved : Moves s s
  then_move : {t u : Link} → Moves s t → Move t u → Moves s u
