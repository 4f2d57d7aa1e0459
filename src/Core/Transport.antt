-- ===== src/Core/Transport.antt =====
-- stunny-core/src/transport.rs and transport/: how messages go over sockets.
pub mod Udp
pub mod ConnectionPool
pub mod Connection
pub mod Testutils
pub mod Pool
pub mod Tcp
pub mod Tls
use mstun.Core.Message.{ParseError, WriteError}

-- The `io::Error`s of the transports: `BrokenPipe` with "Channel closed", what a socket reports,
-- the conversions of the codec's errors, `TimedOut`, and the end of a stream inside a message.
pub data IoError : Type 0 where
  channel_closed socket_failed inactivity_timeout timed_out unexpected_eof : IoError
  parse_failed : ParseError → IoError
  write_failed : WriteError → IoError
