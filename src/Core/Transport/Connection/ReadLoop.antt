-- ===== src/Core/Transport/Connection/ReadLoop.antt =====
-- stunny-core/src/transport/connection_pool.rs: a poll of `process_ingress`, during which the clock
-- stands still.
use mstun.Base.{
  ℕ, zero, suc, ◌+◌, ltb, leb, if◌then◌else◌, List, [], ◌∷◌, none, some, Outcome, ok, err, panic,
  stuck, ◌>>=◌, map_err,
}
use mstun.Extern.Buf.{SliceBuf}
use mstun.Extern.Bitvec.{Bitvec}
use mstun.Extern.Channel.{Sender, TrySend, sent, full, closed}
use mstun.Core.Message.{Header, Message, header_size}
use mstun.Core.Message.HeaderCodec.{decode_header}
use mstun.Core.Message.TlvCodec.{decode_tlvs}
use mstun.Core.Attributes.SocketAddr.{SocketAddr}
use mstun.Core.Transport.{
  IoError, channel_closed, socket_failed, timed_out, unexpected_eof, parse_failed,
}
use mstun.Core.Transport.ConnectionPool.{buffer_len, read_exact}
use mstun.Core.Transport.Connection.{
  io_timeout, StreamEnd, flowing, at_eof, broken, Reading, filling, in_header, in_tlvs, Ingress,
}

-- `read_exact` in `time::timeout` with too few bytes.
abbrev pub too_few : {X : Type 0} → StreamEnd → ℕ → ℕ → X → Outcome IoError X
too_few at_eof deadline now x = err unexpected_eof
too_few broken deadline now x = err socket_failed
too_few flowing deadline now x = if leb deadline now then err timed_out else ok x

module _ {A B S : Type 0} (bits : Bitvec A) (slice : SliceBuf B)
    (channel : Sender S (Message × SocketAddr)) (remote_addr : SocketAddr) (now : ℕ) where
  open slice use {buf, as_slice}
  open channel use {try_send}

  -- What a poll leaves: the future, and `last_active`.
  abbrev pub Left : Type 0
  Left = Outcome IoError (Ingress S × ℕ)

  -- `reader.fill_buf().await?`
  abbrev pub fill_buf : (Ingress S → Left) → List ℕ → StreamEnd → Ingress S → ℕ → Left
  fill_buf rest (x ∷ xs) end ingress last_active =
      rest (record ingress { reading = in_header (now + io_timeout) })
  fill_buf rest [] at_eof ingress last_active =
      rest (record ingress { reading = in_header (now + io_timeout) })
  fill_buf rest [] broken ingress last_active = err socket_failed
  fill_buf rest [] flowing ingress last_active = ok (ingress, last_active)

  -- Behind the first `read_exact`.
  abbrev pub header_read : (Ingress S → Left) → List ℕ → List ℕ → Ingress S → Left
  header_read rest header_buffer left ingress = do
    (header, end) ← map_err parse_failed (decode_header bits buf (as_slice header_buffer))
    if ltb buffer_len header.length
        then panic
        else rest (record ingress { reading = in_tlvs header (now + io_timeout); unread = left })

  -- `ingress_sink.try_send(..)`, and the loop from its top.
  abbrev pub after_send : (S → Left) → TrySend × S → Left
  after_send rest (closed, sink) = err channel_closed
  after_send rest (full, sink) = rest sink
  after_send rest (sent, sink) = rest sink

  -- Behind the second `read_exact`.
  abbrev pub tlvs_read : (Ingress S → Left) → Header → List ℕ → List ℕ → Ingress S → Left
  tlvs_read rest header tlvs_buffer left ingress = do
    (attributes, end) ← map_err parse_failed (decode_tlvs buf (as_slice tlvs_buffer))
    after_send (λ sink. rest (record ingress { reading = filling; unread = left; sink = sink }))
        (try_send (record { header = header; attributes = attributes }, remote_addr) ingress.sink)

  -- From where it waits to the next `await`; `rest` takes `last_active` and the future.
  abbrev pub read_on : (ℕ → Ingress S → Left) → Reading → Ingress S → ℕ → Left
  read_on rest filling ingress last_active =
      fill_buf (rest last_active) ingress.unread ingress.stream_end ingress last_active
  read_on rest (in_header deadline) ingress last_active =
      elim (read_exact header_size ingress.unread) [
        | none ↦ too_few ingress.stream_end deadline now (ingress, last_active)
        | some (header_buffer, left) ↦ header_read (rest last_active) header_buffer left ingress
      ]
  read_on rest (in_tlvs header deadline) ingress last_active =
      elim (read_exact header.length ingress.unread) [
        | none ↦ too_few ingress.stream_end deadline now (ingress, last_active)
        | some (tlvs_buffer, left) ↦ tlvs_read (rest now) header tlvs_buffer left ingress
      ]

  unfoldable pub poll_process_ingress : ℕ → ℕ → Ingress S → Left
  poll_process_ingress zero last_active ingress = stuck
  poll_process_ingress (suc fuel) last_active ingress =
      let rest = poll_process_ingress fuel in read_on rest ingress.reading ingress last_active
