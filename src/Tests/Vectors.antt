-- ===== src/Tests/Vectors.antt =====
-- What the repository's own tests of the transports check, in stunny-core/src/transport/udp.rs and
-- tcp.rs: the codec on their messages, and a connection in each of their situations.
use mstun.Base.{
  ℕ, ◌≡◌, ◌+◌, ◌*◌, refl, List, [], ◌∷◌, ◌++◌, replicate, Outcome, ok, err, ◌>>=◌, false,
}
use mstun.Extern.Concrete.{bits_bitvec, list_slice, room_slice, Queue, queue_sender}
use mstun.Core.Message.{Message, ceil_mul_4, incorrect_magic_cookie}
use mstun.Core.Message.HeaderCodec.{encode_header, decode_header, decode_rest}
use mstun.Core.Message.TlvCodec.{encode_tlvs, encode_tlv, decode_tlvs, decode_loop, decode_tlv}
use mstun.Core.Attributes.SocketAddr.{SocketAddr}
use mstun.Core.Transport.{IoError, parse_failed, inactivity_timeout}
use mstun.Core.Transport.ConnectionPool.{encode_message}
use mstun.Core.Transport.Udp.{decode_msg}
use mstun.Core.Transport.Connection.{ingress_first, Connection}
use mstun.Core.Transport.Connection.Join.{
  Happening, bytes_in, message_out, room_made, woken, Event, start_connection, run_connection, run,
}
use mstun.Core.Transport.Testutils.{
  bind_request_bytes, bind_response_bytes, bind_indication_bytes, bind_request_msg,
  bind_response_msg, bind_indication_msg,
}
use mstun.Tests.{address}

encode_request : encode_message bits_bitvec room_slice bind_request_msg ≡ ok bind_request_bytes
unfolding encode_message encode_header encode_tlvs encode_tlv ceil_mul_4
encode_request = refl

encode_response : encode_message bits_bitvec room_slice bind_response_msg ≡ ok bind_response_bytes
unfolding encode_message encode_header encode_tlvs encode_tlv ceil_mul_4
encode_response = refl

encode_indication :
    encode_message bits_bitvec room_slice bind_indication_msg ≡ ok bind_indication_bytes
unfolding encode_message encode_header encode_tlvs encode_tlv ceil_mul_4
encode_indication = refl

decode_response : decode_msg bits_bitvec list_slice (bind_response_bytes, []) ≡ ok bind_response_msg
unfolding decode_msg decode_header decode_rest decode_tlvs decode_loop decode_tlv ceil_mul_4
decode_response = refl

abbrev second : ℕ
second = 1000000000

-- A connection whose channel has room for `n` messages, over happenings with the time of each.
abbrev events_of : List (ℕ × Happening) → List Event
events_of [] = []
events_of ((now, happening) ∷ rest) =
    record { happening = happening; now = now; first = ingress_first } ∷ events_of rest

abbrev Sink : Type 0
Sink = Queue (Message × SocketAddr)

abbrev run_tcp : ℕ → ℕ → List (ℕ × Happening) → Outcome IoError (Connection Sink)
run_tcp n timeout happenings =
    run bits_bitvec list_slice room_slice queue_sender address timeout (events_of happenings)
      ([], n, false) 0

-- What was passed on, and what was written.
abbrev passed : Connection Sink → List (Message × SocketAddr) × List ℕ
passed c = (c.ingress.sink.0, c.egress.wire)

-- As `send_and_receive_with_single_connection`
abbrev single_connection : List (ℕ × Happening)
single_connection =
    (1, room_made 1000)
    ∷ (2, message_out bind_request_msg)
    ∷ (3, bytes_in bind_response_bytes)
    ∷ (4, bytes_in bind_indication_bytes)
    ∷ (5, message_out bind_indication_msg)
    ∷ []

passed-single_connection :
    (run_tcp 10 (5 * second) single_connection >>= λ c. ok (passed c))
    ≡ ok (
      (bind_response_msg, address) ∷ (bind_indication_msg, address) ∷ [],
      bind_request_bytes ++ bind_indication_bytes,
    )
unfolding run run_connection start_connection encode_message encode_header encode_tlvs encode_tlv
    ceil_mul_4 decode_header decode_rest decode_tlvs decode_loop decode_tlv
passed-single_connection = refl

-- As `reconnect_after_malformed_response`, for the connection that ends
malformed_response_ends :
    (run_tcp 10 (5 * second) ((1, bytes_in (replicate 20 0xff)) ∷ []) >>= λ c. ok (passed c))
    ≡ err (parse_failed incorrect_magic_cookie)
unfolding run run_connection start_connection decode_header decode_rest
malformed_response_ends = refl

-- As `drop_incoming_message_when_channel_is_full`
full_channel_drops :
    (run_tcp 1 second ((1, bytes_in bind_response_bytes) ∷ (2, bytes_in bind_indication_bytes) ∷ [])
      >>= λ c. ok (passed c))
    ≡ ok ((bind_response_msg, address) ∷ [], [])
unfolding run run_connection start_connection decode_header decode_rest decode_tlvs decode_loop
    decode_tlv ceil_mul_4
full_channel_drops = refl

-- As `close_idle_connection`
idle_connection_ends :
    (run_tcp 1
        (2 * second)
        ((1, room_made 1000) ∷ (2, message_out bind_request_msg) ∷ (2 + 2 * second, woken) ∷ [])
      >>= λ c. ok (passed c))
    ≡ err inactivity_timeout
unfolding run run_connection start_connection encode_message encode_header encode_tlvs encode_tlv
    ceil_mul_4
idle_connection_ends = refl
