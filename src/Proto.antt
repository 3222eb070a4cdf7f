-- ===== src/Proto.antt =====
-- internal/proto/proto.go: the framed wire protocol. A stream is the list of the bytes that are
-- still to be read before its end.
pub mod Frame
pub mod Write
pub mod RoundTrip
pub mod Stream
pub mod Ends
mod Tests
pub use Frame.*
