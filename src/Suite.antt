-- ===== src/Suite.antt =====
-- go/src/test-suite: the client side, which builds packages from text, sends them to a server and
-- reads its answers.
pub mod Client
pub mod Segments
pub mod Packages
pub mod WireFormat
pub mod Run
pub mod Served
pub mod Phases
pub mod Concurrent
pub mod Main
