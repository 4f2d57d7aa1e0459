-- ===== src/Core/Transport/ConnectionPool/Streams.antt =====
-- Messages on a byte stream, one behind the other.
use mstun.Base.{
  ℕ, suc, ◌-◌, ◌≤◌, ◌<◌, ◌≡◌, refl, sym, ap, ◌∙◌, subst, arith, Bool, false, List, [], ◌∷◌, ◌++◌,
  none, some, ok, panic, ltb, lt→ltb, le→ltb, if◌then◌else◌, length, length-append, take,
  take_exactly, drop_exactly, append_assoc, append-nil, All,
}
use mstun.Extern.Buf.{SliceBuf}
use mstun.Extern.BufMut.{SliceMut}
use mstun.Extern.Bitvec.{Bitvec}
use mstun.Extern.Channel.{Sender}
use mstun.Core.Message.{Header, Message, header_size}
use mstun.Core.Message.HeaderCodec.Encode.{header_bytes, encode_header-header_bytes}
use mstun.Core.Message.HeaderCodec.RoundTrip.{IsValid, decode_header-header_bytes}
use mstun.Core.Message.TlvCodec.Spelling.{Spells, all_bytes}
use mstun.Core.Message.TlvCodec.DecodeList.{decode_tlvs-Spells}
use mstun.Core.Attributes.SocketAddr.{SocketAddr}
use mstun.Core.Transport.ConnectionPool.{
  read_exact, buffer_len, after_send, process_ingress, Written, all_written, encode_message,
  process_egress,
}
use mstun.Core.Transport.{channel_closed}
use mstun.Core.Transport.Udp.Codec.{IsEncodable, message_bytes, message_size}
use mstun.Core.Transport.Udp.Sending.{length-message_bytes}
use mstun.Core.Message.TlvCodec.Encode.{encode_tlvs-all_bytes}

pub read_exact-append :
    (n : ℕ) (front more : List ℕ)
    → length front ≡ n
    → read_exact n (front ++ more) ≡ some (front, more)
read_exact-append n front more e =
    let long : ltb (length (front ++ more)) n ≡ false =
      le→ltb _ n (omega (arith, length-append front more)) in
    rw (long, take_exactly n front more e, drop_exactly n front more e) refl

module _ {A B S : Type 0} (bits : Bitvec A) (slice : SliceBuf B)
    (channel : Sender S (Message × SocketAddr)) where
  open slice use {buf, as_slice, bytes-as_slice}
  open channel use {try_send}

  length-header_bytes : (h : Header) → IsValid h → length (header_bytes h) ≡ header_size
  length-header_bytes h v = omega (arith, v.typed.id_length)

  -- A header whose length is more than the buffer of 1500 bytes panics the task of the connection,
  -- whatever else the stream holds.
  pub process_ingress_panics :
      (h : Header) (more : List ℕ) (fuel : ℕ) (addr : SocketAddr) (eof : Bool) (sink : S)
      → IsValid h
      → buffer_len < h.length
      → process_ingress bits slice channel (suc fuel) addr eof (header_bytes h ++ more) sink ≡ panic
  unfolding process_ingress
  process_ingress_panics h more fuel addr eof sink v over =
      let (c, p, _) =
        decode_header-header_bytes bits buf (as_slice (header_bytes h)) h [] v
          (bytes-as_slice (header_bytes h) ∙ sym (append-nil (header_bytes h))) in
      rw
        (
          process_ingress,
          read_exact-append header_size (header_bytes h) more (length-header_bytes h v),
          p,
          lt→ltb buffer_len h.length over,
        )
        refl

  -- A message whose header is valid, with as many bytes of attributes as it says and at most 1500,
  -- is sent to the channel, and the loop goes on behind it.
  pub process_ingress-message :
      (m : Message) (body more : List ℕ) (fuel : ℕ) (addr : SocketAddr) (eof : Bool) (sink : S)
      → IsValid m.header
      → m.header.length ≤ buffer_len
      → length body ≡ m.header.length
      → Spells m.attributes body
      → process_ingress bits slice channel
          (suc fuel)
          addr
          eof
          (header_bytes m.header ++ (body ++ more))
          sink
        ≡ after_send bits slice channel
            (process_ingress bits slice channel fuel addr eof more)
            (try_send (m, addr) sink)
  unfolding process_ingress
  process_ingress-message m body more fuel addr eof sink v fits e spelled =
      let h = m.header in
      let (c, p, _) =
        decode_header-header_bytes bits buf (as_slice (header_bytes h)) h [] v
          (bytes-as_slice (header_bytes h) ∙ sym (append-nil (header_bytes h))) in
      let (d, q, _) =
        decode_tlvs-Spells buf (as_slice body)
          (subst (Spells m.attributes) (sym (bytes-as_slice body)) spelled) in
      rw
        (
          process_ingress,
          read_exact-append header_size (header_bytes h) (body ++ more) (length-header_bytes h v),
          p,
          le→ltb buffer_len h.length fits,
          read_exact-append h.length body more e,
          q,
        )
        refl

-- The messages' bytes, one behind the other.
abbrev pub stream_bytes : List (Message × Written) → List ℕ
stream_bytes [] = []
stream_bytes ((m, w) ∷ messages) = message_bytes m ++ stream_bytes messages

-- A message that can be encoded into 1500 bytes, and whose bytes are written.
abbrev pub Sendable : Message × Written → Type 0
Sendable (m, w) = IsEncodable m × (message_size m ≤ buffer_len) × (w ≡ all_written)

module _ {A W : Type 0} (bits : Bitvec A) (slice : SliceMut W) where
  open slice use {buf_mut, as_mut_slice, written-as_mut_slice, remaining_mut-as_mut_slice}
  open buf_mut use {written, remaining_mut}

  pub encode_message-message_bytes :
      (m : Message)
      → IsEncodable m
      → message_size m ≤ buffer_len
      → encode_message bits slice m ≡ ok (message_bytes m)
  unfolding encode_message
  encode_message-message_bytes m enc fits =
      let start = as_mut_slice buffer_len in
      let room = remaining_mut-as_mut_slice buffer_len in
      let (w1, p1, q1, r1) =
        encode_header-header_bytes bits buf_mut m.header start enc.header_typed
          (omega (arith, room)) in
      let (w2, p2, q2, r2) =
        encode_tlvs-all_bytes buf_mut m.attributes w1 enc.attributes_valid (omega (arith, room)) in
      let out : written w2 ≡ message_bytes m =
        q2
        ∙ ap (λ s. s ++ all_bytes m.attributes)
            (q1 ∙ ap (λ s. s ++ header_bytes m.header) (written-as_mut_slice buffer_len)) in
      let used : buffer_len - remaining_mut w2 ≡ message_size m = omega (arith, room) in
      let whole : take (message_size m) (message_bytes m) ≡ message_bytes m =
        ap (take (message_size m)) (sym (append-nil (message_bytes m)))
        ∙ take_exactly (message_size m) (message_bytes m) [] (length-message_bytes m enc) in
      rw (p1, p2, used, out, whole) refl

  -- Messages that fit 1500 bytes are written to the stream whole, one behind the other, as long as
  -- writing succeeds; then the loop waits for more, or ends if the channel is closed.
  process_egress-stream_bytes :
      (c : Bool) (messages : List (Message × Written)) (wire : List ℕ)
      → All Sendable messages
      → process_egress bits slice c messages wire
        ≡ ok ((if c then some channel_closed else none), wire ++ stream_bytes messages)
  unfolding process_egress
  process_egress-stream_bytes c [] wire h = rw (append-nil wire) refl
  process_egress-stream_bytes c ((m, w) ∷ messages) wire ((enc, fits, success), hs) =
      rw (process_egress, encode_message-message_bytes m enc fits, success)
        (process_egress-stream_bytes c messages (wire ++ message_bytes m) hs
          ∙ rw (append_assoc wire (message_bytes m) (stream_bytes messages)) refl)
