-- ===== src/Core/Transport/Connection/Pipe.antt =====
-- stunny-core/src/transport/connection_pool.rs: two connections, of which one reads what the other
-- has written.
use mstun.Base.{
  ℕ, suc, ◌<◌, ◌≤◌, ◌≡◌, refl, sym, ap, ◌∙◌, subst, arith, false, List, [], ◌∷◌, ◌++◌, append-nil,
  append_assoc, length, length-append, ok, All, All-append,
}
use mstun.Extern.Buf.{SliceBuf}
use mstun.Extern.BufMut.{SliceMut}
use mstun.Extern.Bitvec.{Bitvec}
use mstun.Extern.Channel.{Sender, TrySend, sent, full, closed}
use mstun.Core.Message.{Message}
use mstun.Core.Message.HeaderCodec.Encode.{header_bytes}
use mstun.Core.Message.TlvCodec.Spelling.{all_bytes, length-Spells}
use mstun.Core.Message.TlvCodec.DecodeList.{all_bytes-Spells}
use mstun.Core.Message.Length.{calculate_len-total_size}
use mstun.Core.Attributes.SocketAddr.{SocketAddr}
use mstun.Core.Transport.ConnectionPool
use mstun.Core.Transport.ConnectionPool.{buffer_len, process_ingress}
use mstun.Core.Transport.ConnectionPool.Streams.{process_ingress-message}
use mstun.Core.Transport.Udp.Codec.{IsWellFormed, message_size}
use mstun.Core.Transport.Connection.{Writing, idle, writing, Connection, Egress}
use mstun.Core.Transport.Connection.Join.{
  Happening, bytes_in, read_ended, message_out, sender_dropped, room_made, write_broken, woken,
  Event, run,
}
use mstun.Core.Transport.Connection.Chunks.{Result, process_all, process_ingress-process_all}
use mstun.Core.Transport.Connection.Wire.{IsSpent, queue_bytes, left_bytes}
use mstun.Core.Transport.Connection.Reads.{Flows, stream_in, run-process_ingress}
use mstun.Core.Transport.Connection.ReadPolls.{ReadsAs}
use mstun.Core.Transport.Connection.Writes.{
  SendsFit, sent_messages, stream_out, WritesAs, queue_bytes-append, run-stream_out,
}

-- A message as its constructors make it, which fits the buffer.
abbrev pub IsFine : Message → Type 0
IsFine m = IsWellFormed m × (message_size m ≤ buffer_len)

-- The messages that are sent over a run.
abbrev pub sent_over : List Event → List Message
sent_over [] = []
sent_over (event ∷ events) = sent_messages event.happening ++ sent_over events

stream_out-queue_bytes : (events : List Event) → stream_out events ≡ queue_bytes (sent_over events)
stream_out-queue_bytes [] = refl
stream_out-queue_bytes (event ∷ events) =
    ap (λ b. queue_bytes (sent_messages event.happening) ++ b) (stream_out-queue_bytes events)
    ∙ sym (queue_bytes-append (sent_messages event.happening) (sent_over events))

module _ {S : Type 0} (channel : Sender S (Message × SocketAddr)) (remote_addr : SocketAddr) where
  open channel use {try_send}

  -- The channel behind sending each message to it; a full channel drops the message.
  abbrev pub deliver : List Message → S → S
  deliver [] sink = sink
  deliver (m ∷ messages) sink = deliver messages (try_send (m, remote_addr) sink).1

  -- It is not closed as the messages come.
  abbrev pub StaysOpen : List Message → S → Type 0
  StaysOpen [] sink = Unit
  StaysOpen (m ∷ messages) sink =
      ¬ ((try_send (m, remote_addr) sink).0 ≡ closed)
      × StaysOpen messages (try_send (m, remote_addr) sink).1

module _ {A B S : Type 0} (bits : Bitvec A) (slice : SliceBuf B)
    (channel : Sender S (Message × SocketAddr)) (remote_addr : SocketAddr) where
  open channel use {try_send}

  after_send-open :
      (k k' : S → Result bits slice channel remote_addr) (result : TrySend × S)
      → ¬ (result.0 ≡ closed)
      → k result.1 ≡ k' result.1
      → ConnectionPool.after_send bits slice channel k result ≡ k' result.1
  after_send-open k k' (closed, s) is_open e = absurd (is_open refl)
  after_send-open k k' (full, s) is_open e = e
  after_send-open k k' (sent, s) is_open e = e

  process_all-queue_bytes :
      (messages : List Message) (sink : S)
      → All IsFine messages
      → StaysOpen channel remote_addr messages sink
      → process_all bits slice channel remote_addr (queue_bytes messages) sink
        ≡ ok ([], deliver channel remote_addr messages sink)
  unfolding process_all process_ingress
  process_all-queue_bytes [] sink fine stays = refl
  process_all-queue_bytes (m ∷ messages) sink ((wf, fits), fine) (is_open, stays) =
      let more = queue_bytes messages in
      let body = all_bytes m.attributes in
      let fuel = length ((header_bytes m.header ++ body) ++ more) in
      let spelled = all_bytes-Spells m.attributes wf.encodable.attributes_valid in
      let right : length body ≡ m.header.length = omega (
        arith,
        fits,
        wf.length_right,
        calculate_len-total_size m.attributes wf.encodable.attributes_valid,
        length-Spells spelled,
      ) in
      let small : m.header.length ≤ buffer_len =
        omega (arith, fits, right, length-Spells spelled) in
      let shorter : length more < fuel = omega (
        arith,
        length-append (header_bytes m.header ++ body) more,
        length-append (header_bytes m.header) body,
      ) in
      ap (λ b. process_ingress bits slice channel (suc fuel) remote_addr false b sink)
        (append_assoc (header_bytes m.header) body more)
      ∙ process_ingress-message bits slice channel m body more fuel remote_addr false sink
          (record { typed = wf.encodable.header_typed; small = wf.method_small }) small right
          spelled
      ∙ after_send-open (process_ingress bits slice channel fuel remote_addr false more)
          (process_all bits slice channel remote_addr more) (try_send (m, remote_addr) sink) is_open
          (process_ingress-process_all bits slice channel remote_addr fuel more _ shorter)
      ∙ process_all-queue_bytes messages _ fine stays

-- A message that is sent is fine.
abbrev pub SendsFine : Happening → Type 0
SendsFine (message_out message) = IsFine message
SendsFine _ = Unit

SendsFine-SendsFit : (happening : Happening) → SendsFine happening → SendsFit happening
SendsFine-SendsFit (message_out message) (wf, fits) = (wf.encodable, fits)
SendsFine-SendsFit (bytes_in bytes) h = tt
SendsFine-SendsFit (read_ended stream_end) h = tt
SendsFine-SendsFit sender_dropped h = tt
SendsFine-SendsFit (room_made n) h = tt
SendsFine-SendsFit write_broken h = tt
SendsFine-SendsFit woken h = tt

events-SendsFit :
    (events : List Event)
    → All (λ e. SendsFine e.happening) events
    → All (λ e. SendsFit e.happening) events
events-SendsFit [] h = tt
events-SendsFit (event ∷ events) (h, hs) =
    (SendsFine-SendsFit event.happening h, events-SendsFit events hs)

sent_messages-IsFine :
    (happening : Happening) → SendsFine happening → All IsFine (sent_messages happening)
sent_messages-IsFine (message_out message) h = (h, tt)
sent_messages-IsFine (bytes_in bytes) h = tt
sent_messages-IsFine (read_ended stream_end) h = tt
sent_messages-IsFine sender_dropped h = tt
sent_messages-IsFine (room_made n) h = tt
sent_messages-IsFine write_broken h = tt
sent_messages-IsFine woken h = tt

sent_over-IsFine :
    (events : List Event) → All (λ e. SendsFine e.happening) events → All IsFine (sent_over events)
sent_over-IsFine [] h = tt
sent_over-IsFine (event ∷ events) (h, hs) =
    All-append IsFine (sent_messages event.happening) (sent_over events)
      (sent_messages-IsFine event.happening h) (sent_over-IsFine events hs)

-- What is on the wire when nothing is left to write.
wire_complete :
    (state : Writing) (egress : Egress) (total : List ℕ)
    → state ≡ idle
    → egress.wire ++ (left_bytes state ++ queue_bytes egress.queue) ≡ total
    → IsSpent state egress
    → egress.wire ≡ total
wire_complete idle egress total e same (empty, open_) =
    sym (append-nil egress.wire) ∙ ap (λ q. egress.wire ++ queue_bytes q) (sym empty) ∙ same
wire_complete (writing bytes deadline) egress total e same spent = cc

module _ {A B W R S : Type 0} (bits : Bitvec A) (slice : SliceBuf B) (slice_mut : SliceMut W)
    (far_channel : Sender R (Message × SocketAddr)) (channel : Sender S (Message × SocketAddr))
    (local_addr remote_addr : SocketAddr) (timeout : ℕ) where
  -- The far connection has run, sending messages as their constructors make them, each of 1500
  -- bytes at most, and has nothing left to write. A connection reads what it wrote, in whatever
  -- chunks that comes in; its stream neither ends nor breaks, and its own messages fit the buffer
  -- of 1500 bytes. If it still runs when all of it has come in, and its channel was not closed as
  -- the messages came, then it has tried to send those messages to its channel and no others, in
  -- order, where a full channel drops a message; it has no byte left. However it ends, no byte has
  -- made it panic or end with a parse error.
  pub run-deliver :
      (sending receiving : List Event) (far_sink : R) (sink : S) (start now : ℕ)
      (far : Connection R)
      → All (λ e. SendsFine e.happening) sending
      → run bits slice slice_mut far_channel local_addr timeout sending far_sink start ≡ ok far
      → far.egress.state ≡ idle
      → All (λ e. Flows e.happening) receiving
      → stream_in receiving ≡ far.egress.wire
      → StaysOpen channel remote_addr (sent_over sending) sink
      → ReadsAs bits slice slice_mut channel remote_addr timeout
          (ok ([], deliver channel remote_addr (sent_over sending) sink))
          (run bits slice slice_mut channel remote_addr timeout receiving sink now)
  unfolding process_all
  run-deliver sending receiving far_sink sink start now far fine ran done flows same stays =
      let (total, spent) =
        subst (WritesAs bits slice slice_mut far_channel local_addr timeout (stream_out sending))
          ran
          (run-stream_out bits slice slice_mut far_channel local_addr timeout sending far_sink start
            (events-SendsFit sending fine)) in
      let stream : stream_in receiving ≡ queue_bytes (sent_over sending) =
        same
        ∙ wire_complete far.egress.state far.egress (stream_out sending) done total spent
        ∙ stream_out-queue_bytes sending in
      subst
        (λ w.
          ReadsAs bits slice slice_mut channel remote_addr timeout w
            (run bits slice slice_mut channel remote_addr timeout receiving sink now))
        (ap (λ b. process_all bits slice channel remote_addr b sink) stream
          ∙ process_all-queue_bytes bits slice channel remote_addr (sent_over sending) sink
              (sent_over-IsFine sending fine) stays)
        (run-process_ingress bits slice slice_mut channel remote_addr timeout receiving sink now
          flows)
