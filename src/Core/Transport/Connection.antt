-- ===== src/Core/Transport/Connection.antt =====
-- stunny-core/src/transport/connection_pool.rs: `run_connection`, poll by poll: where its two loops
-- wait, and what a connection has between two polls.
pub mod ReadLoop
pub mod WriteLoop
pub mod Join
pub mod Chunks
pub mod Resume
pub mod Polls
pub mod Wire
pub mod Deadlines
pub mod Sound
pub mod Activity
pub mod Lifetime
pub mod Idle
pub mod ReadPolls
pub mod Reads
pub mod Writes
pub mod Pipe
use mstun.Base.{
  ℕ, zero, suc, ◌+◌, ◌-◌, ◌*◌, Bool, true, false, ltb, leb, if◌then◌else◌, List, [], ◌∷◌, ◌++◌,
  Option, none, some, Outcome, ok, err, panic, stuck, ◌>>=◌, map_err, length, take, drop,
}
use mstun.Extern.Buf.{SliceBuf}
use mstun.Extern.BufMut.{SliceMut}
use mstun.Extern.Bitvec.{Bitvec}
use mstun.Extern.Channel.{Sender, TrySend, sent, full, closed}
use mstun.Core.Message.{Header, Message, header_size}
use mstun.Core.Message.HeaderCodec.{decode_header}
use mstun.Core.Message.TlvCodec.{decode_tlvs}
use mstun.Core.Attributes.SocketAddr.{SocketAddr}
use mstun.Core.Transport.{
  IoError, channel_closed, socket_failed, timed_out, unexpected_eof, parse_failed,
  inactivity_timeout,
}
use mstun.Core.Transport.ConnectionPool.{buffer_len, read_exact, encode_message}

-- 39 seconds
abbrev pub io_timeout : ℕ
io_timeout = 39000000000

-- Whether more bytes can come in, or the stream is at its end, or broken.
pub data StreamEnd : Type 0 where
  flowing at_eof broken : StreamEnd

-- Where `process_ingress` waits: at `fill_buf`, or at one of the two `read_exact`s with its deadline.
pub data Reading : Type 0 where
  filling : Reading
  in_header : ℕ → Reading
  in_tlvs : Header → ℕ → Reading

-- `unread` are the bytes that have come in and were not taken by a whole `read_exact`.
pub record Ingress (S : Type 0) : Type 0 where
  pub reading : Reading
  pub unread : List ℕ
  pub stream_end : StreamEnd
  pub sink : S

-- Where `process_egress` waits: at `recv`, or at `write_all` with the bytes left and its deadline.
pub data Writing : Type 0 where
  idle : Writing
  writing : List ℕ → ℕ → Writing

-- `queue` are the messages in the channel, `dropped` whether its sender is gone, `room` how many
-- bytes the socket can take, and `wire` those that it took.
pub record Egress : Type 0 where
  pub state : Writing
  pub queue : List Message
  pub dropped : Bool
  pub room : ℕ
  pub socket_broken : Bool
  pub wire : List ℕ

-- `wake` is when the sleep of `detect_inactivity` ends.
pub record Connection (S : Type 0) : Type 0 where
  pub ingress : Ingress S
  pub egress : Egress
  pub last_active : ℕ
  pub wake : ℕ

-- Which future `try_join!` polls first; the others follow in turn.
pub data First : Type 0 where
  ingress_first egress_first inactivity_first : First
