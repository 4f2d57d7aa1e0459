-- ===== src/Tests/Connection.antt =====
-- A connection of the pool, poll by poll.
use mstun.Base.{
  ℕ, ◌≡◌, refl, arith, List, [], ◌∷◌, ◌++◌, suc, length, take, drop, Outcome, ok, ◌>>=◌, false,
}
use mstun.Extern.Concrete.{bits_bitvec, list_slice, room_slice, Queue, queue_sender}
use mstun.Extern.Channel.{sent, closed}
use mstun.Core.Message.HeaderCodec.Encode.{header_bytes}
use mstun.Core.Attributes.SocketAddr.{SocketAddr}
use mstun.Core.Transport.{IoError}
use mstun.Core.Transport.ConnectionPool.{process_ingress, encode_message}
use mstun.Core.Message.{Message, ceil_mul_4}
use mstun.Core.Message.HeaderCodec.{encode_header, decode_header, decode_rest}
use mstun.Core.Message.TlvCodec.{encode_tlvs, encode_tlv, decode_tlvs, decode_loop, decode_tlv}
use mstun.Core.Transport.Udp.Codec.{message_bytes}
use mstun.Core.Transport.Connection.{
  filling, flowing, idle, ingress_first, egress_first, inactivity_first, Connection,
}
use mstun.Core.Transport.Connection.Join.{
  bytes_in, message_out, room_made, woken, Event, happens, start_connection, poll_connection,
  run_connection, run,
}
use mstun.Core.Transport.Connection.Reads.{stream_in, run-process_ingress}
use mstun.Core.Transport.Connection.ReadPolls.{ReadsAs}
use mstun.Core.Transport.Connection.Writes.{WritesAs, stream_out, run-stream_out}
use mstun.Core.Transport.Connection.Sound.{IsSound, happens-IsSound}
use mstun.Core.Transport.Connection.Lifetime.{IsAlive, Ends, poll_connection-IsAlive}
use mstun.Core.Transport.Connection.Pipe.{deliver, run-deliver}
use mstun.Core.Transport.Connection.Polls.{Upholds}
use mstun.Tests.Udp.{response_message-IsEncodable, response_message-IsWellFormed}
use mstun.Tests.{are_bytes-All, response_header, response_message, address}

abbrev empty : Queue (Message × SocketAddr)
empty = ([], 3, false)

-- A message with "abc" and a byte of padding, and the first byte of the next one.
abbrev stream : List ℕ
stream = header_bytes response_header ++ (0x80 ∷ 0x22 ∷ 0 ∷ 3 ∷ 97 ∷ 98 ∷ 99 ∷ 5 ∷ 1 ∷ [])

abbrev first_chunk : List ℕ
first_chunk = take 13 stream

abbrev second_chunk : List ℕ
second_chunk = drop 13 stream

abbrev events : List Event
events =
    record { happening = bytes_in first_chunk; now = 5; first = ingress_first }
    ∷ record { happening = message_out response_message; now = 6; first = egress_first }
    ∷ record { happening = room_made 9; now = 7; first = inactivity_first }
    ∷ record { happening = bytes_in second_chunk; now = 8; first = ingress_first }
    ∷ record { happening = woken; now = 9; first = egress_first }
    ∷ []

abbrev outcome : Outcome IoError (Connection (Queue (Message × SocketAddr)))
outcome = run bits_bitvec list_slice room_slice queue_sender address 1000 events empty 0

abbrev unread_and_sink :
    Connection (Queue (Message × SocketAddr)) → List ℕ × Queue (Message × SocketAddr)
unread_and_sink c = (c.ingress.unread, c.ingress.sink)

run_reads :
    (outcome >>= λ c. ok (unread_and_sink c))
    ≡ ok (1 ∷ [], ((response_message, address) ∷ [], 2, false))
unfolding run run_connection start_connection encode_message encode_header encode_tlvs encode_tlv
    ceil_mul_4 decode_header decode_rest decode_tlvs decode_loop decode_tlv
run_reads = refl

run_writes : (outcome >>= λ c. ok c.egress.wire) ≡ ok (take 9 (message_bytes response_message))
unfolding run run_connection start_connection encode_message encode_header encode_tlvs encode_tlv
    ceil_mul_4 decode_header decode_rest decode_tlvs decode_loop decode_tlv
run_writes = refl

run-process_ingress_example :
    ReadsAs bits_bitvec list_slice room_slice queue_sender address 1000
      (process_ingress bits_bitvec list_slice queue_sender
        (suc (length (stream_in events)))
        address
        false
        (stream_in events)
        empty)
      outcome
run-process_ingress_example =
    run-process_ingress bits_bitvec list_slice room_slice queue_sender address 1000 events empty 0 (
      are_bytes-All first_chunk refl,
      (
        (response_message-IsEncodable, omega arith),
        (tt, (are_bytes-All second_chunk refl, (tt, tt))),
      ),
    )

run-stream_out_example :
    WritesAs bits_bitvec list_slice room_slice queue_sender address 1000 (stream_out events) outcome
run-stream_out_example =
    run-stream_out bits_bitvec list_slice room_slice queue_sender address 1000 events empty 0
      (tt, ((response_message-IsEncodable, omega arith), (tt, (tt, (tt, tt)))))

-- Before the first poll
abbrev begun : Connection (Queue (Message × SocketAddr))
begun = happens (bytes_in first_chunk) (start_connection empty 0)

start-IsSound : IsSound 1000 0 (start_connection empty 0)
unfolding start_connection
start-IsSound = record {
  active = omega arith;
  wakes = omega arith;
  reads = tt;
  writes = tt;
  fits = tt;
}

begun-IsSound : IsSound 1000 5 begun
begun-IsSound =
    happens-IsSound 1000 0 5 (start_connection empty 0) (omega arith) start-IsSound
      (bytes_in first_chunk) tt

poll_connection-IsAlive_example : Upholds (IsAlive 1000 5 begun) (Ends 1000 5 begun) (
    poll_connection bits_bitvec list_slice room_slice queue_sender address 1000 ingress_first 5
      begun)
poll_connection-IsAlive_example =
    poll_connection-IsAlive bits_bitvec list_slice room_slice queue_sender address 1000
      ingress_first 5 begun begun-IsSound

-- The far connection writes a message as soon as its socket has room.
abbrev sending : List Event
sending =
    record { happening = message_out response_message; now = 1; first = ingress_first }
    ∷ record { happening = room_made 100; now = 2; first = ingress_first }
    ∷ []

abbrev far : Connection (Queue (Message × SocketAddr))
far = record {
  ingress = record { reading = filling; unread = []; stream_end = flowing; sink = empty };
  egress = record {
    state = idle;
    queue = [];
    dropped = false;
    room = 72;
    socket_broken = false;
    wire = message_bytes response_message;
  };
  last_active = 2;
  wake = 1000;
}

far_ran : run bits_bitvec list_slice room_slice queue_sender address 1000 sending empty 0 ≡ ok far
unfolding run run_connection start_connection encode_message encode_header encode_tlvs encode_tlv
    ceil_mul_4
far_ran = refl

abbrev receiving : List Event
receiving =
    record {
      happening = bytes_in (take 13 (message_bytes response_message));
      now = 5;
      first = ingress_first;
    }
    ∷ record {
      happening = bytes_in (drop 13 (message_bytes response_message));
      now = 6;
      first = egress_first;
    }
    ∷ []

sent-open : ¬ (sent ≡ closed)
sent-open e = cc

run-deliver_example :
    ReadsAs bits_bitvec list_slice room_slice queue_sender address 1000
      (ok ([], deliver queue_sender address (response_message ∷ []) empty))
      (run bits_bitvec list_slice room_slice queue_sender address 1000 receiving empty 4)
run-deliver_example =
    run-deliver bits_bitvec list_slice room_slice queue_sender queue_sender address address 1000
      sending receiving empty empty 0 4 far ((response_message-IsWellFormed, omega arith), (tt, tt))
      far_ran refl
      (
        are_bytes-All (take 13 (message_bytes response_message)) refl,
        (are_bytes-All (drop 13 (message_bytes response_message)) refl, tt),
      )
      refl ((λ e. absurd (sent-open e)), tt)

-- A message is sent and written at 3, and nothing happens until 1003.
abbrev idle_events : List Event
idle_events =
    record { happening = room_made 100; now = 2; first = ingress_first }
    ∷ record { happening = message_out response_message; now = 3; first = ingress_first }
    ∷ record { happening = woken; now = 1003; first = egress_first }
    ∷ []
