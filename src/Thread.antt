-- ===== src/Thread.antt =====
-- stoppable_thread.h: `StoppableThread`, with the states of the thread that it starts.
pub mod Lifecycle
use desert_addon_uwapp_net.Common.{◌≡◌, Bool, true, false, not, Option, none, some, if◌then◌else◌}

-- Where the started thread stands in `RunInternal` and, for the thread of `TcpListener`, in `Run`.
pub data Phase : Type 0 where
  unborn : Phase  -- no thread has been started
  spawned : Phase  -- before `m_running = true`
  in_run : Phase  -- at the test of the loop of `Run`
  accepting : Phase  -- in `accept`, which returns when a client connects or when it fails
  serving : Phase  -- in the loop of `HandleTCPclient`
  receiving : Phase  -- in `ReceivePacket`, whose calls of `read` wait for the client's bytes
  returned : Phase  -- before `m_running = false`
  finished : Phase

pub record Thread : Type 0 where
  pub running : Bool  -- m_running
  pub stop : Bool  -- m_stop
  pub joinable : Bool  -- m_thread.joinable()
  pub phase : Phase

abbrev pub new_thread : Thread
new_thread = record { running = false; stop = false; joinable = false; phase = unborn }

-- The result of `Start`, and that of an operation that ends the program (`std::terminate`).
pub data Started : Type 0 where
  started : Bool → Thread → Started
  aborted : Started

-- `Start`; `spawns` says whether `std::thread` can be constructed. The assignment of a thread to
-- `m_thread` ends the program if that is still joinable.
unfoldable pub start : Bool → Thread → Started
start spawns t =
    if t.running
    then started false t
    else if not spawns
    then started false t
    else if t.joinable
    then aborted
    else started true (record t { joinable = true; phase = spawned })

-- `Stop(true)`: the flag is set, and then the caller waits in `join` if there is a thread.
unfoldable pub request_stop : Thread → Thread
request_stop t = record t { stop = true }

-- `join` returns when the thread has finished; `none` means that it still waits.
unfoldable pub join : Thread → Option Thread
join t =
    if t.joinable
    then elim t.phase [ finished ↦ some (record t { joinable = false }) | _ ↦ none ]
    else some t

-- `RunInternal`, from one write of `m_running` to the next.
unfoldable pub enter_run : Thread → Thread
enter_run t = record t { running = true; phase = in_run }

unfoldable pub leave_run : Thread → Thread
leave_run t = record t { phase = returned }

unfoldable pub finish : Thread → Thread
finish t = record t { running = false; phase = finished }

-- A step of the thread of `TcpListener`. It finds out about a request to stop only at the tests of the
-- two loops. (`Run` returns at once without a `Setup`; `start` starts no such thread.)
pub data Advance (t : Thread) : Thread → Type 0 where
  enters : t.phase ≡ spawned → Advance t (enter_run t)
  awaits : t.phase ≡ in_run → t.stop ≡ false → Advance t (record t { phase = accepting })
  connects : t.phase ≡ accepting → Advance t (record t { phase = serving })
  refuses : t.phase ≡ accepting → Advance t (leave_run t)
  selects : t.phase ≡ serving → Advance t (record t { phase = receiving })
  reads : t.phase ≡ receiving → Advance t (record t { phase = serving })
  client_leaves : t.phase ≡ serving → Advance t (record t { phase = in_run })
  heeds : t.phase ≡ serving → t.stop ≡ true → Advance t (record t { phase = in_run })
  leaves : t.phase ≡ in_run → t.stop ≡ true → Advance t (leave_run t)
  finishes : t.phase ≡ returned → Advance t (finish t)

-- Is the thread in a call that returns only when a client does something, or fails?
unfoldable pub waits_for_client : Phase → Bool
waits_for_client accepting = true
waits_for_client receiving = true
waits_for_client _ = false

-- the return of such a call
unfoldable pub is_answer : {t u : Thread} → Advance t u → Bool
is_answer (connects _) = true
is_answer (refuses _) = true
is_answer (reads _) = true
is_answer _ = false

-- a step for which no client does anything
unfoldable pub is_own : {t u : Thread} → Advance t u → Bool
is_own (enters _) = true
is_own (awaits _ _) = true
is_own (heeds _ _) = true
is_own (leaves _ _) = true
is_own (finishes _) = true
is_own _ = false

-- The destructor of `m_thread` ends the program if the thread is joinable.
unfoldable pub destroy_aborts : Thread → Bool
destroy_aborts t = t.joinable
