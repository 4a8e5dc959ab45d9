-- ===== src/Lib.antt =====
-- UWAPPNET, a simulator module that carries the messages of TCP clients over an underwater network
-- model. A client connects to the module over TCP and sends framed messages (a magic number and a
-- size of four bytes each, and the payload). The module's listening thread makes each message a
-- packet and puts it into a queue. The simulator's timer takes the packets out of the queue, numbers
-- them and sends them down. A module that receives packets from below filters and counts them and
-- sends the payloads, framed again, to its own client.
--
-- The parts and their files:
--   Common.antt, Common/ - Boolean tests and lists over the native numbers; 32-bit words
--   Packet.antt - uwAppNet_cmn_header.h, `hdr_DATA_APPLICATION`, with the other header fields in use
--   Sim.antt, Kernel.antt - what is not part of the repository: the simulator (the arithmetic of
--     `double`, `Packet::alloc`, `PT_DATA_APPLICATION`) and the operating system (the socket calls)
--   AppNet.antt - uwAppNet_module.h/.cpp, the state of `uwAppNetModule`, its constructor and counters
--   AppNet/Averages.antt - `updateRTT`, `updateFTT`, `updateThroughput` and the reported averages
--   AppNet/Receive.antt - `statistics` as far as the update of `lrtime`: `count`
--   AppNet/Accounting, Order, Faults, Sequence, Trips, Unordered, Totals, Reports - proofs on `count`
--     and `count_all`
--   Console.antt - the lines that `recv` and `statistics` write, with proofs in Console/
--   Logging.antt, Logging/ - logging.h, and the stream that its macros write to
--   Output.antt, Output/ - the text of every line on the console
--   Listener.antt - tcp_listener.h, the state of `TcpListener`
--   Listener/Wire.antt - the bytes of a frame, `memcpy`
--   Listener/Setup.antt - `Setup`, `ReadyToRead`, the destructor
--   Listener/Receive.antt - `ReceivePacket`, with proofs in Receive/
--   Listener/Send.antt - `send_data`, with proofs in Send/
--   Listener/Handle.antt - `HandleTCPclient` and `Run`, with proofs in Handle/
--   Listener/Transmit.antt - `init_Packet_TCP`, with proofs in Transmit/
--   Listener/Log.antt - the lines that the listener writes, with proofs in Log/
--   Listener/Polling.antt - its calls of `select`, with proofs in Polling/
--   Handover.antt, Handover/ - the queue between the two threads, step by step, with its mutex
--   Sharing.antt, Sharing/ - the client's descriptor between the two threads, step by step
--   Thread.antt - stoppable_thread.h; Thread/Lifecycle.antt - its thread interleaved with `stop()`
--   Node.antt - uwAppNet_module.cpp on a module with its listener: `recv`, `statistics`, `expire`,
--     `stop` and the command `start`; Node/Command.antt and Node/Dispatch.antt - `command`;
--     Node/Events.antt - receptions, expiries and queued messages in any order; Node/Life.antt - these
--     with `start`, `stop` and the listening threads, proofs in Node/Life/; Node/Life/Destruction.antt -
--     the module's destructor, proofs in Node/Life/Destruction/; Node/Announcing.antt - what `start`
--     writes; Node/Forwarding.antt, Node/Stopping.antt, Node/Starting.antt, Node/Audit.antt and
--     Node/Events/Ledger.antt - proofs
--   Exchange.antt, Exchange/ - a sender's queue and a receiver's `statistics` together
--   Gateway.antt, Gateway/ - the whole way from one client to the other
--   Hex.antt - string_utils.h, with proofs in Hex/Digits.antt
--   Tests.antt, Tests/ - concrete inputs, and the theorems applied to them
--
-- How the code corresponds to the definitions:
-- - An `int` is its bit pattern, a number below 2 ^ 32, and -1 is 2 ^ 32 - 1; `uint32_t` likewise.
--   Counters wrap around. Reading a pattern as a `size_t` extends the sign (`size_of_int`).
-- - `double` is an abstract type of the simulator: equations say which operations are applied.
-- - An access outside an array (`sn_check`, `payload_msg`, the source of `write`, `memcpy`) is a fault:
--   the operation returns `none`. `sn_check` is a function on indices, with USHRT_MAX entries.
-- - A socket call takes the operating system's state and returns any result and a new state; `read`
--   returns at most as many bytes as were asked for. A `Stream` or a `Sink` says of one descriptor that
--   it delivers, or takes, all bytes that are asked for; an `Outlet`, that it takes as many as it
--   reports; a `Breaking`, that it takes a number of bytes and then breaks. A `Peer` is a connection
--   whose other end has sent all that it sends; a `Backlog` is a server's descriptor with such clients
--   waiting. A `Countdown` says that `select` writes back what is left of the timeout, as documented for
--   Linux.
-- - A `read` of a header that returns fewer than four bytes leaves the rest of the variable as it was:
--   unspecified bytes, which `Kernel` supplies.
-- - `StopRequested` is a number `calls`: how often it answers no before it answers yes. With `calls`
--   given, `handle_loop` recurs on it; `run_loop` has fuel `calls + 1`, which is enough, since every
--   round asks at least once. These functions are what the loops do if each call of the operating
--   system returns. That `accept` and `read` may wait for a client is in `Advance` of Thread.antt,
--   where the thread sees a request to stop only at the tests of its loops (`select` has a timeout).
-- - `ready_to_read` keeps the timeout that `select` writes back.
-- - In `Handover.antt` the two threads take steps in any order; a call on the queue is one step, and the
--   test for an empty queue does not ask for the mutex; in `Handover/Reading.antt` the receipt of a
--   message and the lock behind it are one step (the timer uses nothing that the receipt changes). The
--   other files take a round of a thread as a whole.
-- - In `Sharing.antt` a `write`, a `close`, the reset of the descriptor and an `accept` are single steps
--   in any order; a `write` reads the descriptor in the same step, and takes all bytes, or fewer, or
--   fails, and then `send_data` returns. A closed descriptor is not given to another file before it is
--   reset.
-- - In `Node/Life.antt` a call of `recv`, `expire`, `start` or `stop` is one step, and so is the
--   queueing of a message; a `stop()` that waits in `join` lets only the listening threads go on. An
--   overwritten listener stays, with its thread and its queue.
-- - `print_all` writes each line as a whole; in `Output/Mixing.antt` the operands of the two threads are
--   mixed. A text that the code writes character by character is one operand.
-- - The module's destructor is a call of `stop()`; what the listening threads do while it waits are the
--   steps of `Node/Life.antt`.
-- - The thread and the owner of `Thread/Lifecycle.antt` take single steps in any order; one step of the
--   owner is a call of `Stop` or of `delete`.
--
-- Not modelled: the registration with the simulator (initlib.cpp and the Tcl classes); the code under
-- `#if 0`; the sample scripts and the build files.
pub mod AppNet
pub mod Common
pub mod Console
pub mod Exchange
pub mod Gateway
pub mod Handover
pub mod Hex
pub mod Kernel
pub mod Listener
pub mod Logging
pub mod Node
pub mod Output
pub mod Packet
pub mod Sharing
pub mod Sim
pub mod Tests
pub mod Thread
