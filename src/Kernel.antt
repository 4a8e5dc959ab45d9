-- ===== src/Kernel.antt =====
-- The socket calls that tcp_listener.h makes, as an interface: the operating system is not part of
-- the repository. Every call may change the system's state, and may fail.
use desert_addon_uwapp_net.Common.{ℕ, ◌≤◌, ◌≡◌, Option, some, List, length}

pub record Kernel : Type 1 where
  pub State : Type 0
  -- These return the `int` of the call; -1 is a failure.
  pub socket : State → ℕ × State
  pub setsockopt : ℕ → State → ℕ × State
  pub bind : ℕ → ℕ → State → ℕ × State
  pub listen : ℕ → State → ℕ × State
  pub accept : ℕ → State → ℕ × State
  -- `select` for reading on one descriptor: its result, and what it leaves of the timeout
  pub select : ℕ → ℕ → State → (ℕ × ℕ) × State
  -- `read` of at most so many bytes: the bytes, or a failure
  pub read : ℕ → ℕ → State → Option (List ℕ) × State
  pub read_count :
      (fd n : ℕ) (s : State) (bs : List ℕ) (s' : State)
      → read fd n s ≡ (some bs, s')
      → length bs ≤ n
  -- `write`: the number of bytes written, or a failure
  pub write : ℕ → List ℕ → State → Option ℕ × State
  pub shutdown : ℕ → State → State
  pub close : ℕ → State → State
  -- the bytes that an uninitialised `uint32_t` on the stack holds
  pub stack_word : State → List ℕ
  pub stack_word_length : (s : State) → length (stack_word s) ≡ 4
