-- ===== src/Server/WireFormat/Grammar.antt =====
-- The grammar of messages, and the lines that the parser accepts.
mod Pieces
mod Accepts
mod Sound
mod Keys
pub use Pieces.{InCommand, InName, IsName, add_all, deps_of, IsMessage}
pub use Accepts.{parse_message-line}
pub use Sound.{parse_message-IsMessage}
pub use Keys.{deps_of-Distinct, parse_message-Distinct}
