-- ===== src/Suite/Concurrent/Liveness.antt =====
-- The test run with its goroutines can go on to its end.
pub mod Solo
pub mod Round
pub mod Turn
pub mod Invariants
pub mod Later
pub mod Sweep
pub mod Sweeps
pub mod Finish
pub mod Ending
