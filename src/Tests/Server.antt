-- ===== src/Tests/Server.antt =====
-- The server.
use mstun.Base.Tally.{total}
use mstun.Base.{◌≢◌, map, ◌++◌, ℕ, ◌+◌, ◌≡◌, refl, arith, List, [], ◌∷◌, ok, some, true, false}
use mstun.Extern.Concrete.Counters.{open_async}
use mstun.Extern.Concrete.{list_slice, list_vec, Queue, queue_send, queue_async}
use mstun.Core.Message.Xor.{xor_socket_addr}
use mstun.Core.Message.{Message, Class, response, error}
use mstun.Core.Attributes.SocketAddr.{SocketAddr, v4, xor_mapped_address}
use mstun.Core.Attributes.ErrorCode.{error_code}
use mstun.Core.Attributes.Collection.{extract_attribute}
use mstun.Server.Transactions
use mstun.Server.Processor.Responses.{defaults, answer_of, answers-Reach}
use mstun.Server.Processor.Tasks.{
  requests_of, handle, Serving, Reach, here, next, arrived, spawned, finishes, idle, served-Reach,
}
use mstun.Server.Transactions.{
  Request, ready, poll_next, build_response, with_attribute, send_error, xor_mapped_address_id,
}
use mstun.Server.Transactions.Errors.{send_error-misread}
use mstun.Server.Processor.{
  new, run, Processor, unsupported, default_bind_handler, unrecognized_method_handler,
}
use mstun.Server.Processor.Answers.{
  Binds, request_of, default_bind_handler-Binds, unrecognized_method_handler-refuses,
}
use mstun.Server.Processor.Lookup.{AreRequests, ServedBy, run-ServedBy}
use mstun.Tests.{id, address, response_message}

abbrev Channel : Type 0
Channel = Queue (Message × SocketAddr)

abbrev empty : Channel
empty = ([], 4, false)

abbrev bind_request : Request
bind_request = record { source_addr = address; transaction_id = id; method = 1; attributes = [] }

default_bind_handler-Binds_example :
    (message : Message) × ((s : Channel)
      → queue_send (message, address) empty ≡ some s
      → default_bind_handler list_slice list_vec queue_async bind_request empty ≡ s)
    × (message.header.class ≡ response)
    × (message.header.transaction_id ≡ id)
    × (message.header.method ≡ 1)
    × Binds list_slice list_vec queue_async address message
default_bind_handler-Binds_example =
    default_bind_handler-Binds list_slice list_vec queue_async bind_request empty
      (omega arith, refl)

unrecognized_method_handler-refuses_example :
    (message : Message) × ((s : Channel)
      → queue_send (message, address) empty ≡ some s
      → unrecognized_method_handler list_slice list_vec queue_async bind_request empty ≡ s)
    × (message.header.class ≡ error)
    × (message.header.transaction_id ≡ id)
    × (message.header.method ≡ 1)
    × (extract_attribute (error_code list_slice list_vec) message.attributes
        ≡ (ok (record { code = 400; reason = unsupported }), []))
unrecognized_method_handler-refuses_example =
    unrecognized_method_handler-refuses list_slice list_vec queue_async bind_request empty

-- A response, which is passed over, and a binding request.
abbrev messages : List (Message × SocketAddr)
messages =
    (response_message, address)
    ∷ (
      record response_message { header = record response_message.header { class = Class.request } },
      address,
    )
    ∷ []

run-ServedBy_example :
    (requests : List Request) × (t : Channel) × (run
        (new list_slice list_vec queue_async)
        true
        messages
        empty
      ≡ ok t)
    × AreRequests messages requests
    × ServedBy (new list_slice list_vec queue_async) requests empty t
run-ServedBy_example = run-ServedBy (new list_slice list_vec queue_async) true messages empty

-- Two requests come in; the task of the second finishes first.
abbrev request_from : SocketAddr → Message × SocketAddr
request_from addr = (
  record response_message { header = record response_message.header { class = Class.request } },
  addr,
)

abbrev other : SocketAddr
other = v4 (9 ∷ 9 ∷ 9 ∷ 9 ∷ []) 3478

abbrev default_processor : Processor Channel
default_processor = new list_slice list_vec queue_async

abbrev first_served : Serving default_processor
first_served = record {
  waiting = request_from other ∷ [];
  tasks = [];
  sink = handle default_processor (request_of (request_from address)) empty;
  received = request_from address ∷ request_from other ∷ [];
  served = request_of (request_from address) ∷ [];
}

taken :
    poll_next false (request_from address ∷ request_from other ∷ [])
    ≡ ready (ok (request_of (request_from address))) (request_from other ∷ [])
unfolding poll_next Transactions.new xor_socket_addr
taken = refl

first_served-Reach : Reach default_processor (idle default_processor empty) first_served
first_served-Reach =
    next
      (next
        (next (next here (arrived (request_from address) refl)) (arrived (request_from other) refl))
        (spawned (request_of (request_from address)) (request_from other ∷ []) taken refl))
      (finishes [] (request_of (request_from address)) [] refl refl)

served-Reach_example :
    (served : List Request) × ServedBy default_processor served empty first_served.sink
    × ((w : Request → ℕ)
        → total w served + (total w [] + total w (requests_of (request_from other ∷ [])))
          ≡ total w (requests_of (request_from address ∷ request_from other ∷ [])))
served-Reach_example = served-Reach default_processor empty first_served first_served-Reach

abbrev open_processor : Processor (List (Message × SocketAddr))
open_processor = defaults list_slice list_vec open_async

abbrev one_served : Serving open_processor
one_served = record {
  waiting = [];
  tasks = [];
  sink = handle open_processor (request_of (request_from address)) [];
  received = request_from address ∷ [];
  served = request_of (request_from address) ∷ [];
}

taken_alone :
    poll_next false (request_from address ∷ []) ≡ ready (ok (request_of (request_from address))) []
unfolding poll_next Transactions.new xor_socket_addr
taken_alone = refl

one_served-Reach : Reach open_processor (idle open_processor []) one_served
one_served-Reach =
    next
      (next (next here (arrived (request_from address) refl))
        (spawned (request_of (request_from address)) [] taken_alone refl))
      (finishes [] (request_of (request_from address)) [] refl refl)

answers-Reach_example :
    (handle open_processor (request_of (request_from address)) []
      ≡ []
        ++ map (answer_of list_slice list_vec open_async) (request_of (request_from address) ∷ []))
    × ((w : Request → ℕ)
        → total w (request_of (request_from address) ∷ [])
          ≡ total w (requests_of (request_from address ∷ [])))
answers-Reach_example =
    answers-Reach list_slice list_vec open_async [] one_served (λ m s. (s ++ m ∷ [], refl))
      one_served-Reach refl refl

send_error-misread_example :
    (message : Message) × (read : SocketAddr) × ((s : Channel)
      → queue_send (message, address) empty ≡ some s
      → send_error queue_async
          (with_attribute
            (xor_mapped_address list_slice list_vec)
            other
            (build_response bind_request))
          empty
        ≡ ok s)
    × (extract_attribute (xor_mapped_address list_slice list_vec) message.attributes
        ≡ (ok other, []))
    × ((extract_attribute
          (xor_mapped_address list_slice list_vec)
          (xor_socket_addr xor_mapped_address_id message).attributes).0
        ≡ ok read)
    × (read ≢ other)
send_error-misread_example =
    send_error-misread list_slice list_vec queue_async bind_request other empty (omega arith, refl)
