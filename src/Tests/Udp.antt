-- ===== src/Tests/Udp.antt =====
-- The UDP transport.
use mstun.Base.{
  ℕ, ◌≡◌, refl, arith, List, [], ◌∷◌, ◌++◌, ok, Returns, none, true, false, take, if◌then◌else◌,
}
use mstun.Extern.Concrete.{Slice, list_slice, Room, room_slice, bits_bitvec, Queue, queue_sender}
use mstun.Core.Message.{Message, calculate_len, ceil_mul_4}
use mstun.Core.Message.HeaderCodec.{decode_header, decode_rest}
use mstun.Core.Message.HeaderCodec.Encode.{header_bytes}
use mstun.Core.Message.HeaderCodec.RoundTrip
use mstun.Core.Message.TlvCodec.{decode_tlvs, decode_loop, decode_tlv}
use mstun.Core.Message.TlvCodec.Spelling.{Spells}
use mstun.Core.Attributes.SocketAddr.{SocketAddr}
use mstun.Core.Transport.{channel_closed}
use mstun.Core.Transport.Udp.{
  pending, failed, Received, datagram, receive_error, bytes_sent, send_error, World, decode_msg,
  encode_msg, ingress_poll, egress_poll,
}
use mstun.Core.Transport.Udp.Codec.{
  IsEncodable, IsWellFormed, message_bytes, decode-encode_msg, decode_msg_sound, decode_msg-Returns,
}
use mstun.Core.Transport.Udp.Receiving.{ending, decoded, ingress_poll-decoded}
use mstun.Core.Transport.Udp.Driver.{IoDriver, start, driver_poll, driver_poll-serves}
use mstun.Core.Transport.Udp.Sending.{datagrams, egress_poll-datagrams}
use mstun.Tests.Core.{response_header-IsValid, software_tlv-IsValid}
use mstun.Tests.{are_bytes-All, software_tlv, response_header, response_message, address}

pub response_message-IsEncodable : IsEncodable response_message
response_message-IsEncodable = record {
  header_typed = response_header-IsValid.typed;
  attributes_valid = (software_tlv-IsValid, tt);
}

response_message_length : 8 ≡ calculate_len (software_tlv ∷ [])
unfolding calculate_len ceil_mul_4
response_message_length = refl

pub response_message-IsWellFormed : IsWellFormed response_message
response_message-IsWellFormed = record {
  encodable = response_message-IsEncodable;
  method_small = omega arith;
  length_right = response_message_length;
}

decode-encode_msg_example :
    (v : Room) × (encode_msg bits_bitvec room_slice response_message ([], 1500) ≡ ok v)
    × (decode_msg bits_bitvec list_slice (v.0, []) ≡ ok response_message)
decode-encode_msg_example =
    decode-encode_msg bits_bitvec list_slice room_slice response_message 1500
      response_message-IsWellFormed (omega arith) (omega arith)

abbrev message_slice : Slice
message_slice = (message_bytes response_message, [])

decode_msg_run : decode_msg bits_bitvec list_slice message_slice ≡ ok response_message
unfolding decode_msg decode_header decode_rest decode_tlvs decode_loop decode_tlv ceil_mul_4
decode_msg_run = refl

decode_msg_sound_example :
    RoundTrip.IsValid response_header
    × ((rest : List ℕ) × (message_bytes response_message ≡ header_bytes response_header ++ rest)
        × Spells (software_tlv ∷ []) (take 8 rest))
decode_msg_sound_example =
    decode_msg_sound bits_bitvec list_slice message_slice response_message
      (are_bytes-All (message_bytes response_message) refl) decode_msg_run

decode_msg-Returns_example : Returns (decode_msg bits_bitvec list_slice (1 ∷ 2 ∷ [], []))
decode_msg-Returns_example =
    decode_msg-Returns bits_bitvec list_slice (1 ∷ 2 ∷ [], []) (are_bytes-All (1 ∷ 2 ∷ []) refl)

-- A malformed datagram, a message and an error of the socket.
abbrev events : List Received
events =
    datagram (1 ∷ 2 ∷ []) address
    ∷ datagram (message_bytes response_message) address
    ∷ receive_error
    ∷ []

abbrev empty : Queue (Message × SocketAddr)
empty = ([], 3, false)

ingress_poll-decoded_example :
    (t : Queue (Message × SocketAddr)) × (ingress_poll bits_bitvec list_slice queue_sender events
        empty
      ≡ ok (ending events, t))
    × (t.0 ≡ [] ++ take 3 (decoded bits_bitvec list_slice queue_sender events))
ingress_poll-decoded_example =
    ingress_poll-decoded bits_bitvec list_slice queue_sender events empty 3
      (
        are_bytes-All (1 ∷ 2 ∷ []) refl,
        (are_bytes-All (message_bytes response_message) refl, (tt, tt)),
      )
      refl refl

abbrev received : List Received
received = datagram (message_bytes response_message) address ∷ []

-- Two messages, whose sending fails and succeeds.
abbrev world : World
world = record {
  egress = record { buffer = []; pos = 0; pending_recipient = none };
  source = (response_message, address) ∷ (response_message, address) ∷ [];
  source_closed = true;
  sends = send_error ∷ bytes_sent 28 ∷ [];
  wire = [];
}

egress_poll-datagrams_example :
    (w : World) × (egress_poll bits_bitvec room_slice world
      ≡ ok ((if true then failed channel_closed else pending), w))
    × (w.wire ≡ [] ++ datagrams world.source)
egress_poll-datagrams_example =
    egress_poll-datagrams bits_bitvec room_slice world refl
      (response_message-IsEncodable, (response_message-IsEncodable, tt)) (omega arith)

-- The egress half is polled first.
driver_poll-serves_example :
    (driver : IoDriver (Queue (Message × SocketAddr))) × (driver_poll bits_bitvec list_slice
        room_slice queue_sender false
        (start empty received ((response_message, address) ∷ []) false (send_error ∷ []))
      ≡ ok (pending, driver))
    × (driver.ingress_sender.0
        ≡ [] ++ take 3 (decoded bits_bitvec list_slice queue_sender received))
    × (driver.world.wire ≡ datagrams ((response_message, address) ∷ []))
driver_poll-serves_example =
    driver_poll-serves bits_bitvec list_slice room_slice queue_sender false empty received
      ((response_message, address) ∷ []) (send_error ∷ []) 3
      (are_bytes-All (message_bytes response_message) refl, tt) refl refl refl
      (response_message-IsEncodable, tt) (omega arith)
