-- ===== src/Thread/Lifecycle.antt =====
-- The listening thread and the owner's `stop()` as two interleaved actors.
use desert_addon_uwapp_net.Common.{◌≡◌, ◌≢◌, Bool, true, false, some, arith, if◌then◌else◌}
use desert_addon_uwapp_net.Thread.{
  Phase, unborn, spawned, finished, Thread, new_thread, started, start, request_stop, join,
  enter_run, leave_run, finish, destroy_aborts, Advance, enters, awaits, connects, refuses, selects,
  reads, client_leaves, heeds, leaves, finishes,
}

-- Where the owner stands: before `Start`, running, in `join` within `stop()`, after the deletion of
-- the listener, or ended by `std::terminate`.
pub data Owner : Type 0 where
  before : Owner
  running : Owner
  joining : Owner
  deleted : Owner
  terminated : Owner

pub record System : Type 0 where
  pub thread : Thread
  pub owner : Owner

-- `delete p_tcp_listener`
unfoldable pub delete : Thread → System
delete t = record { thread = t; owner = if destroy_aborts t then terminated else deleted }

pub data Step : System → System → Type 0 where
  starts :
      {t t' : Thread}
      → start true t ≡ started true t'
      → Step (record { thread = t; owner = before }) (record { thread = t'; owner = running })
  moves :
      {t t' : Thread} {o : Owner}
      → Advance t t'
      → Step (record { thread = t; owner = o }) (record { thread = t'; owner = o })
  -- `stop()` finds `Running()` true: `Stop(true)` sets the flag and waits.
  stops :
      {t : Thread}
      → t.running ≡ true
      → Step
          (record { thread = t; owner = running })
          (record { thread = request_stop t; owner = joining })
  joins :
      {t t' : Thread} → join t ≡ some t' → Step (record { thread = t; owner = joining }) (delete t')
  -- `stop()` finds `Running()` false, and deletes the listener at once.
  skips :
      {t : Thread} → t.running ≡ false → Step (record { thread = t; owner = running }) (delete t)

pub data Reach : System → Type 0 where
  begin : Reach (record { thread = new_thread; owner = before })
  next : {s t : System} → Reach s → Step s t → Reach t

-- when the flag `m_running` is set
abbrev pub is_running : Phase → Bool
is_running unborn = false
is_running spawned = false
is_running finished = false
is_running _ = true

abbrev pub OwnerKnows : Owner → Thread → Type 0
OwnerKnows before t = t ≡ new_thread
OwnerKnows running t = (t.joinable ≡ true) × (t.phase ≢ unborn)
OwnerKnows joining t = (t.joinable ≡ true) × (t.phase ≢ unborn) × (t.stop ≡ true)
OwnerKnows deleted t = (t.joinable ≡ false) × (t.phase ≡ finished) × (t.stop ≡ true)
OwnerKnows terminated t = t.joinable ≡ true

pub record Inv (s : System) : Type 0 where
  pub flag : s.thread.running ≡ is_running s.thread.phase
  pub known : OwnerKnows s.owner s.thread

Advance-Inv :
    {t u : Thread}
    → Advance t u
    → (o : Owner) → Inv (record { thread = t; owner = o })
    → Inv (record { thread = u; owner = o })
unfolding enter_run leave_run finish
Advance-Inv (enters e) o v = ground arith
Advance-Inv (awaits e n) o v = ground arith
Advance-Inv (connects e) o v = ground arith
Advance-Inv (refuses e) o v = ground arith
Advance-Inv (selects e) o v = ground arith
Advance-Inv (reads e) o v = ground arith
Advance-Inv (client_leaves e) o v = ground arith
Advance-Inv (heeds e y) o v = ground arith
Advance-Inv (leaves e y) o v = ground arith
Advance-Inv (finishes e) o v = ground arith

Step-Inv : {s t : System} → Step s t → Inv s → Inv t
unfolding start request_stop join enter_run leave_run finish delete destroy_aborts
Step-Inv (starts e) v = ground arith
Step-Inv (moves {o = o} m) v = Advance-Inv m o v
Step-Inv (stops e) v = ground arith
Step-Inv (joins e) v = ground arith
Step-Inv (skips e) v = ground arith

-- In every reachable state `m_running` tells that the thread is between its two writes; and the
-- listener has been deleted without ending the program only after the stop flag was set, the
-- thread had finished and was joined.
pub Reach-Inv : {s : System} → Reach s → Inv s
Reach-Inv begin = ground arith
Reach-Inv (next r st) = Step-Inv st (Reach-Inv r)

-- If `stop()` is called when `Running()` is false, because the thread has not yet set the flag or
-- because `Run` has returned by itself, the deletion of the listener ends the program.
skips-terminated :
    {t : Thread}
    → Reach (record { thread = t; owner = running })
    → t.running ≡ false
    → (delete t).owner ≡ terminated
unfolding delete destroy_aborts
skips-terminated r e = ground (arith, Reach-Inv r)
