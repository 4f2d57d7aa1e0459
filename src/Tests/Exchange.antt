-- ===== src/Tests/Exchange.antt =====
-- A binding request and its answer.
use mstun.Base.{◌≤◌, ◌≡◌, refl, arith, [], ◌∷◌, ok, some, false}
use mstun.Extern.Concrete.{
  Queue, queue_async, queue_send, bits_bitvec, list_slice, list_vec, room_slice,
}
use mstun.Core.Message.{Message}
use mstun.Core.Message.Xor.{xor_socket_addr, xor_tlv}
use mstun.Core.Message.{new_request}
use mstun.Core.Attributes.SocketAddr.{SocketAddr, v4}
use mstun.Core.Transport.Udp.Codec.{message_size}
use mstun.Core.Transport.Udp.Constructed.{IsId}
use mstun.Client.Rto
use mstun.Client.Rto.{exponential_backoff}
use mstun.Client.Manager.{handle_outgoing_request, handle_incoming_message}
use mstun.Client.Manager.Policies.{default_backoff-GivesUp}
use mstun.Client.Manager.Outgoing.{request_message}
use mstun.Server.Processor
use mstun.Exchange.{Carried, ToldAddress, exchange-ToldAddress}
use mstun.Tests.{id, address, are_bytes-All}
use mstun.Tests.Client.{State, a_request, empty_manager, empty_manager-WellFormed}
use mstun.Tests.Core.{software_tlv-IsValid}

abbrev Channel : Type 0
Channel = Queue (Message × SocketAddr)

-- The client, as the server sees it.
abbrev client : SocketAddr
client = v4 (10 ∷ 0 ∷ 0 ∷ 7 ∷ []) 40000

id-IsId : IsId id
id-IsId = record { id_length = refl; id_bytes = are_bytes-All id refl }

request_fits : message_size (request_message id a_request) ≤ 1500
unfolding xor_socket_addr new_request xor_tlv
request_fits = omega arith

exchange-ToldAddress_example :
    (m1 : State) × (handle_outgoing_request
        (exponential_backoff 7 16)
        queue_async
        queue_async
        id
        100
        a_request
        empty_manager
      ≡ ok m1)
    × Carried bits_bitvec list_slice list_vec room_slice (request_message id a_request)
    × (answer : Message) × ((sink sink' : Channel)
        → queue_send (answer, client) sink ≡ some sink'
        → Processor.run
            (Processor.new list_slice list_vec queue_async)
            false
            ((request_message id a_request, client) ∷ [])
            sink
          ≡ ok sink')
    × Carried bits_bitvec list_slice list_vec room_slice answer
    × (m2 : State) × (handle_incoming_message
          (exponential_backoff 7 16)
          queue_async
          queue_async
          150
          151
          (answer, address)
          m1
        ≡ ok m2)
    × ToldAddress bits_bitvec list_slice list_vec room_slice queue_async
        (exponential_backoff 7 16)
        queue_async
        queue_async
        (λ rto. rto ≡ Rto.default_rto)
        7
        default_backoff-GivesUp
        a_request
        client
        empty_manager
        m2
exchange-ToldAddress_example =
    exchange-ToldAddress bits_bitvec list_slice list_vec room_slice queue_async
      (exponential_backoff 7 16) queue_async queue_async (λ rto. rto ≡ Rto.default_rto) 7
      default_backoff-GivesUp id 100 150 151 a_request client address empty_manager
      ((request_message id a_request, address) ∷ [], 4, false) empty_manager-WellFormed refl refl
      id-IsId (software_tlv-IsValid, tt) request_fits (omega arith, refl)
