-- ===== src/Server/ReadMessage/Framing.antt =====
-- One line from the client is one message, however the network cuts it into pieces.
mod Line
mod Whole
mod Large
mod OneLine
pub use Line.{NotNewline, Delivers, last, more, look_short}
pub use OneLine.*
