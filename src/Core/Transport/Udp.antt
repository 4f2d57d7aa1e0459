-- ===== src/Core/Transport/Udp.antt =====
-- stunny-core/src/transport/udp.rs: one poll of the two futures that the driver joins. What the
-- socket and the channels answer is given as lists of events; where a list ends, the next poll of
-- that source is pending. Logging is left out.
pub mod Codec
pub mod Constructed
pub mod Driver
pub mod Receiving
pub mod Sending
use mstun.Base.{
  ℕ, zero, suc, ◌+◌, ◌-◌, length, Bool, true, false, if◌then◌else◌, List, [], ◌∷◌, ◌++◌, Option,
  none, some, Outcome, ok, err, panic, stuck, ◌>>=◌, take,
}
use mstun.Extern.Buf.{Buf, SliceBuf}
use mstun.Extern.BufMut.{BufMut, SliceMut}
use mstun.Extern.Bitvec.{Bitvec}
use mstun.Extern.Channel.{Sender, TrySend, sent, full, closed}
use mstun.Core.Message.{ParseError, WriteError, Message}
use mstun.Core.Message.HeaderCodec.{decode_header, encode_header}
use mstun.Core.Message.TlvCodec.{decode_tlvs, encode_tlvs}
use mstun.Core.Attributes.SocketAddr.{SocketAddr}
use mstun.Core.Transport.{IoError, channel_closed, socket_failed}

abbrev pub buffer_len : ℕ
buffer_len = 1500

pub data Poll : Type 0 where
  pending : Poll
  failed : IoError → Poll

-- What `poll_recv_from` answers: an error, or the bytes that were filled in and their sender.
pub data Received : Type 0 where
  receive_error : Received
  datagram : List ℕ → SocketAddr → Received

-- What `poll_send_to` answers: an error, or the number of bytes sent.
pub data SendResult : Type 0 where
  send_error : SendResult
  bytes_sent : ℕ → SendResult

-- `Egress`: the bytes at the front of the buffer, `pos`, and the recipient.
pub record Egress : Type 0 where
  pub buffer : List ℕ
  pub pos : ℕ
  pub pending_recipient : Option SocketAddr

-- The future and what its polls will be answered: the channel's messages, whether it is
-- closed behind them, and the socket's results. `wire` holds what was handed to the socket.
pub record World : Type 0 where
  pub egress : Egress
  pub source : List (Message × SocketAddr)
  pub source_closed : Bool
  pub sends : List SendResult
  pub wire : List (List ℕ × SocketAddr)

pub data Round : Type 0 where
  again : World → Round
  return : Poll → World → Round

module _ {A : Type 0} (bits : Bitvec A) where
  module _ {B : Type 0} (slice : SliceBuf B) where
    open slice use {buf, as_slice}

    -- `decode_msg`
    unfoldable pub decode_msg : B → Outcome ParseError Message
    decode_msg buffer = do
      (header, buffer) ← decode_header bits buf buffer
      (attributes, buffer) ← decode_tlvs buf (buf.take_first header.length buffer)
      ok (record { header = header; attributes = attributes })

    module _ {S : Type 0} (channel : Sender S (Message × SocketAddr)) where
      open channel use {try_send}

      -- `match sink.try_send(..)`; `rest` is the loop from its top.
      abbrev pub after_send :
          (S → Outcome IoError (Poll × S)) → TrySend × S → Outcome IoError (Poll × S)
      after_send rest (closed, sink) = ok (failed channel_closed, sink)
      after_send rest (full, sink) = rest sink
      after_send rest (sent, sink) = rest sink

      -- `match decode_msg(..)`
      abbrev pub after_decode :
          (S → Outcome IoError (Poll × S))
          → SocketAddr
          → S
          → Outcome ParseError Message
          → Outcome IoError (Poll × S)
      after_decode rest src_addr sink (err e) = rest sink
      after_decode rest src_addr sink (ok message) =
          after_send rest (try_send (message, src_addr) sink)
      after_decode rest src_addr sink panic = panic
      after_decode rest src_addr sink stuck = stuck

      -- `Ingress::poll`, from the top of its loop: the result and the channel.
      unfoldable pub ingress_poll : List Received → S → Outcome IoError (Poll × S)
      ingress_poll [] sink = ok (pending, sink)
      ingress_poll (receive_error ∷ events) sink = ok (failed socket_failed, sink)
      ingress_poll (datagram filled src_addr ∷ events) sink =
          after_decode (ingress_poll events) src_addr sink (decode_msg (as_slice filled))

  module _ {W : Type 0} (slice : SliceMut W) where
    open slice use {buf_mut, as_mut_slice}
    open buf_mut use {written, remaining_mut}

    -- `encode_msg`
    unfoldable pub encode_msg : Message → W → Outcome WriteError W
    encode_msg msg buffer = do
      buffer ← encode_header bits buf_mut msg.header buffer
      encode_tlvs buf_mut msg.attributes buffer

    -- The arms of `match encode_msg(..)`.
    abbrev pub after_encode : Egress → SocketAddr → Outcome WriteError W → Outcome IoError Egress
    after_encode egress dest_addr (ok remaining_buffer) = ok (record {
      buffer = written remaining_buffer;
      pos = buffer_len - remaining_mut remaining_buffer;
      pending_recipient = some dest_addr;
    })
    after_encode egress dest_addr (err e) = ok (record egress { pos = 0 })
    after_encode egress dest_addr panic = panic
    after_encode egress dest_addr stuck = stuck

    -- The arm `None => match source.poll_recv(cx)` with a message.
    unfoldable pub accept : Message × SocketAddr → Egress → Outcome IoError Egress
    unfolding encode_msg
    accept (message, dest_addr) egress =
        after_encode egress dest_addr (encode_msg message (as_mut_slice buffer_len))

    unfoldable pub receive_arm : List (Message × SocketAddr) → World → Outcome IoError Round
    unfolding accept
    receive_arm [] world =
        ok (return (if world.source_closed then failed channel_closed else pending) world)
    receive_arm (message ∷ source) world = do
      egress ← accept message world.egress
      ok (again (record world { egress = egress; source = source }))

    -- The results of `poll_send_to` are only logged.
    unfoldable pub send_arm : SocketAddr → List SendResult → World → Outcome IoError Round
    send_arm dest_addr [] world = ok (return pending world)
    send_arm dest_addr (result ∷ sends) world = ok (
        again (record world {
          egress = record { buffer = world.egress.buffer; pos = 0; pending_recipient = none };
          sends = sends;
          wire = world.wire ++ (take world.egress.pos world.egress.buffer, dest_addr) ∷ [];
        }))

    -- The body of the loop of `Egress::poll`.
    unfoldable pub egress_round : World → Outcome IoError Round
    unfolding receive_arm send_arm
    egress_round world = elim world.egress.pending_recipient [
      | none ↦ receive_arm world.source world
      | some dest_addr ↦ send_arm dest_addr world.sends world
    ]

    unfoldable pub egress_loop : ℕ → World → Outcome IoError (Poll × World)
    egress_loop zero world = stuck
    egress_loop (suc fuel) world = elim (egress_round world) [
      | ok (again world') ↦ egress_loop fuel world'
      | ok (return poll world') ↦ ok (poll, world')
      | err e ↦ err e
      | panic ↦ panic
      | stuck ↦ stuck
    ]

    -- `Egress::poll`. Each round takes a message or a result of the socket.
    unfoldable pub egress_poll : World → Outcome IoError (Poll × World)
    unfolding egress_loop egress_round
    egress_poll world = egress_loop (length world.source + length world.sends + 1) world
