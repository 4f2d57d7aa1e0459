-- ===== src/Core/Transport/ConnectionPool.antt =====
-- stunny-core/src/transport/connection_pool.rs: the two loops that serve a connected stream,
-- over a whole stream. `last_active` and the time limits of reads are left out here, as is
-- logging; Connection.antt has the limits.
pub mod Streams
use mstun.Base.{
  ℕ, zero, suc, ◌-◌, Bool, List, [], ◌∷◌, ◌++◌, Option, none, some, Outcome, ok, err, panic, stuck,
  ◌>>=◌, map_err, ltb, if◌then◌else◌, length, take, drop,
}
use mstun.Extern.Buf.{SliceBuf}
use mstun.Extern.BufMut.{SliceMut}
use mstun.Extern.Bitvec.{Bitvec}
use mstun.Extern.Channel.{Sender, TrySend, sent, full, closed}
use mstun.Core.Message.{Message, header_size}
use mstun.Core.Message.HeaderCodec.{decode_header, encode_header}
use mstun.Core.Message.TlvCodec.{decode_tlvs, encode_tlvs}
use mstun.Core.Attributes.SocketAddr.{SocketAddr}
use mstun.Core.Transport.{
  IoError, channel_closed, socket_failed, timed_out, unexpected_eof, parse_failed, write_failed,
}

abbrev pub buffer_len : ℕ
buffer_len = 1500

-- What `time::timeout(IO_TIMEOUT, socket.write_all(..))` came to.
pub data Written : Type 0 where
  all_written write_late write_broken : Written

-- `read_exact`, from the bytes that have come in; without enough of them it waits.
abbrev pub read_exact : ℕ → List ℕ → Option (List ℕ × List ℕ)
read_exact n stream = if ltb (length stream) n then none else some (take n stream, drop n stream)

module _ {A : Type 0} (bits : Bitvec A) where
  module _ {B S : Type 0} (slice : SliceBuf B) (channel : Sender S (Message × SocketAddr)) where
    open slice use {buf, as_slice}
    open channel use {try_send}

    -- `if let Err(e) = ingress_sink.try_send(..)`; `rest` is the loop from its top.
    abbrev pub after_send :
        (S → Outcome IoError (List ℕ × S)) → TrySend × S → Outcome IoError (List ℕ × S)
    after_send rest (closed, sink) = err channel_closed
    after_send rest (full, sink) = rest sink
    after_send rest (sent, sink) = rest sink

    -- Where a read finds too few bytes: it waits, or fails at the end of the stream.
    abbrev pub too_few : Bool → List ℕ → S → Outcome IoError (List ℕ × S)
    too_few eof stream sink = if eof then err unexpected_eof else ok (stream, sink)

    -- `process_ingress` over the bytes that come in. It waits where they end, unless the stream is
    -- at its end: then they are returned, from the part that is waited for, beside the channel.
    -- Taking the first `tlvs_len` bytes of the buffer panics if it is shorter.
    unfoldable pub process_ingress :
        ℕ → SocketAddr → Bool → List ℕ → S → Outcome IoError (List ℕ × S)
    process_ingress zero remote_addr eof stream sink = stuck
    process_ingress (suc fuel) remote_addr eof stream sink =
        let rest = process_ingress fuel remote_addr eof in
        elim (read_exact header_size stream) [
          | none ↦ too_few eof stream sink
          | some (header_buffer, stream) ↦ do
            (header, left) ← map_err parse_failed (decode_header bits buf (as_slice header_buffer))
            if ltb buffer_len header.length then panic else elim (read_exact header.length stream) [
              | none ↦ too_few eof stream sink
              | some (tlvs_buffer, stream) ↦ do
                (attributes, left) ← map_err parse_failed (decode_tlvs buf (as_slice tlvs_buffer))
                after_send (rest stream) (
                    try_send (record { header = header; attributes = attributes }, remote_addr)
                      sink)
            ]
        ]

  module _ {W : Type 0} (slice : SliceMut W) where
    open slice use {buf_mut, as_mut_slice}
    open buf_mut use {written, remaining_mut}

    -- The bytes that a message is encoded to: the front of the buffer.
    unfoldable pub encode_message : Message → Outcome IoError (List ℕ)
    encode_message message = do
      remaining_buffer ←
          map_err write_failed (encode_header bits buf_mut message.header (as_mut_slice buffer_len))
      remaining_buffer ←
          map_err write_failed (encode_tlvs buf_mut message.attributes remaining_buffer)
      ok (take (buffer_len - remaining_mut remaining_buffer) (written remaining_buffer))

    -- `process_egress` over the messages that wait, each with what writing it would come to: none
    -- where it waits for the next message or the error that ends it, and the bytes that were written.
    unfoldable pub process_egress :
        Bool → List (Message × Written) → List ℕ → Outcome IoError (Option IoError × List ℕ)
    process_egress is_closed [] wire = ok ((if is_closed then some channel_closed else none), wire)
    process_egress is_closed ((message, write) ∷ messages) wire = elim (encode_message message) [
      | ok bytes ↦ elim write [
        | all_written ↦ process_egress is_closed messages (wire ++ bytes)
        | write_late ↦ ok (some timed_out, wire)
        | write_broken ↦ ok (some socket_failed, wire)
      ]
      | err e ↦ ok (some e, wire)
      | panic ↦ panic
      | stuck ↦ stuck
    ]
