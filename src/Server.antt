-- ===== src/Server.antt =====
-- go/src/package-index/server: the wire format, the message reader and the connection loops.
pub mod WireFormat
pub mod Bufio
pub mod Pool
pub mod ReadMessage
pub mod Serve
pub mod Accept
pub mod Main
