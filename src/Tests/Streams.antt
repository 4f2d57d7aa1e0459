-- ===== src/Tests/Streams.antt =====
-- The streams of the connection pool.
use mstun.Base.{◌≡◌, refl, arith, [], ◌++◌, panic, false}
use mstun.Extern.Concrete.{bits_bitvec, list_slice, Queue, queue_sender}
use mstun.Core.Message.{Header, Message}
use mstun.Core.Message.HeaderCodec.Encode.{header_bytes}
use mstun.Core.Message.HeaderCodec.RoundTrip.{IsValid}
use mstun.Core.Attributes.SocketAddr.{SocketAddr}
use mstun.Core.Transport.ConnectionPool.{process_ingress}
use mstun.Core.Transport.ConnectionPool.Streams.{process_ingress_panics}
use mstun.Tests.{are_bytes-All, id, response_header, address}

-- Longer than the buffer.
abbrev long_header : Header
long_header = record response_header { length = 2000 }

long_header-IsValid : IsValid long_header
long_header-IsValid = record {
  typed = record {
    is_method = omega arith;
    is_length = omega arith;
    id_length = refl;
    id_bytes = are_bytes-All id refl;
  };
  small = omega arith;
}

abbrev empty : Queue (Message × SocketAddr)
empty = ([], 3, false)

process_ingress_panics_example :
    process_ingress bits_bitvec list_slice queue_sender 9 address false
      (header_bytes long_header ++ [])
      empty
    ≡ panic
process_ingress_panics_example =
    process_ingress_panics bits_bitvec list_slice queue_sender long_header [] 8 address false empty
      long_header-IsValid (omega arith)
