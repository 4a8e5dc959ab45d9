-- ===== src/Tests.antt =====
-- Runs of the program's parts at concrete inputs, and the theorems at inputs that meet their
-- hypotheses.
pub mod Fixtures
mod Receiving
mod Listening
pub mod Sending
mod Lifecycles
mod Handing
mod Serving
pub mod Commands
mod Moving
mod Living
mod Destroying
mod Cutting
mod Printing
mod Polling
mod Interleaving
mod Breaking
