-- ===== src/Server/Processor/Answers.antt =====
-- What the default handlers answer, and the order in which `run` serves requests.
use mstun.Base.{
  ℕ, zero, suc, ◌<◌, ◌≡◌, refl, ap, ◌∙◌, arith, Bool, true, false, List, [], ◌∷◌, some, ok,
  if◌then◌else◌, length, Bool-cases, inl, inr,
}
use mstun.Extern.Buf.{SliceBuf}
use mstun.Extern.BufMut.{VecMut}
use mstun.Extern.Channel.{AsyncSender}
use mstun.Core.Message.{Tlv, Message, response, error, new_response, new_error}
use mstun.Core.Message.Xor.{xor_socket_addr}
use mstun.Core.Message.Xor.Laws.{xor_socket_addr_twice}
use mstun.Core.Attributes.SocketAddr.{
  SocketAddr, encode_socket_addr, decode_socket_addr, mapped_address, xor_mapped_address,
}
use mstun.Core.Attributes.SocketAddr.RoundTrip.{IsAddr, without_scope, decode-encode_socket_addr}
use mstun.Core.Attributes.ErrorCode.{ErrorCode, error_code}
use mstun.Core.Attributes.ErrorCode.Utf8.{is_utf8}
use mstun.Core.Attributes.ErrorCode.Laws.{decode-encode_error_code}
use mstun.Core.Attributes.Collection.{
  append_attribute, extract_attribute, extract_attribute-found, extract-append_attribute,
}
use mstun.Server.Transactions.{
  Request, Response, build_response, with_attribute, send, send_error, Polled, pending, finished,
  ready, poll_next, is_request, xor_mapped_address_id,
}
use mstun.Server.Transactions
use mstun.Server.Processor.{
  Processor, handler_for, run_loop, run, unsupported, unrecognized_method_handler,
  default_bind_handler,
}

-- The request that `Request::new` makes of a message.
abbrev pub request_of : Message × SocketAddr → Request
request_of (message, source_addr) = record {
  source_addr = source_addr;
  transaction_id = message.header.transaction_id;
  method = message.header.method;
  attributes = (xor_socket_addr xor_mapped_address_id message).attributes;
}

unsupported_utf8 : is_utf8 unsupported ≡ true
unfolding is_utf8
unsupported_utf8 = refl

module _ {S : Type 0} (processor : Processor S) where
  -- The requests served one after the other, each by its method's handler.
  abbrev pub serve_all : List (Message × SocketAddr) → S → S
  serve_all [] sink = sink
  serve_all (m ∷ messages) sink =
      if is_request m.0.header.class
      then serve_all messages (
          handler_for processor.handlers processor.default_handler m.0.header.method (request_of m)
            sink)
      else serve_all messages sink

  -- The answers to what waits: `poll_next` passes over the rest.
  skip :
      (c : Bool) (m : Message × SocketAddr) (messages : List (Message × SocketAddr)) (fuel : ℕ)
      (sink : S)
      → is_request m.0.header.class ≡ false
      → run_loop (suc fuel) processor c (m ∷ messages) sink
        ≡ run_loop (suc fuel) processor c messages sink
  unfolding run_loop poll_next
  skip c m messages fuel sink other = rw (run_loop, poll_next, other) refl

  serve :
      (c : Bool) (m : Message × SocketAddr) (messages : List (Message × SocketAddr)) (fuel : ℕ)
      (sink : S)
      → is_request m.0.header.class ≡ true
      → run_loop (suc fuel) processor c (m ∷ messages) sink
        ≡ run_loop fuel processor c messages (
            handler_for processor.handlers processor.default_handler m.0.header.method
              (request_of m)
              sink)
  unfolding run_loop poll_next Transactions.new xor_socket_addr
  serve c m messages fuel sink request = rw (run_loop, poll_next, Transactions.new, request) refl

  run_loop-serve_all :
      (c : Bool) (messages : List (Message × SocketAddr)) (fuel : ℕ) (sink : S)
      → length messages < fuel
      → run_loop fuel processor c messages sink ≡ ok (serve_all messages sink)
  unfolding run_loop poll_next
  run_loop-serve_all c messages zero sink h = absurd (omega arith)
  run_loop-serve_all true [] (suc fuel) sink h = refl
  run_loop-serve_all false [] (suc fuel) sink h = refl
  run_loop-serve_all c (m ∷ messages) (suc fuel) sink h =
      elim (Bool-cases (is_request m.0.header.class)) [
        | inl request ↦
            serve c m messages fuel sink request
            ∙ run_loop-serve_all c messages fuel _ (omega arith)
            ∙ rw request refl
        | inr other ↦
            skip c m messages fuel sink other
            ∙ run_loop-serve_all c messages (suc fuel) sink (omega arith)
            ∙ rw other refl
      ]

  -- `run` serves each request that waits, in order, by the handler of its method, and passes over all
  -- other messages; it neither panics nor runs out of rounds.
  pub run-serve_all :
      (c : Bool) (messages : List (Message × SocketAddr)) (sink : S)
      → run processor c messages sink ≡ ok (serve_all messages sink)
  unfolding run
  run-serve_all c messages sink = run_loop-serve_all c messages _ sink (omega arith)

module _ {V : Type 0} (vec : VecMut V) where
  -- The attributes of the answer to a binding request from this address, and the answer.
  abbrev pub bind_attributes : SocketAddr → List Tlv
  bind_attributes addr =
      record { attribute_type = 0x0020; value = encode_socket_addr vec addr }
      ∷ record { attribute_type = 0x0001; value = encode_socket_addr vec addr }
      ∷ []

  abbrev pub bind_answer : Request → Message
  bind_answer r =
      xor_socket_addr xor_mapped_address_id
        (new_response r.method r.transaction_id (bind_attributes r.source_addr))

module _ {B V S : Type 0} (slice : SliceBuf B) (vec : VecMut V)
    (egress : AsyncSender S (Message × SocketAddr)) where
  open egress use {send}

  -- What a client reads from an answer to a binding request: both address attributes hold `addr`.
  abbrev pub Binds : SocketAddr → Message → Type 0
  Binds addr message =
      (xored : List Tlv) × (extract_attribute (xor_mapped_address slice vec)
          (xor_socket_addr xor_mapped_address_id message).attributes
        ≡ (ok (without_scope addr), xored))
      × (extract_attribute (mapped_address slice vec) xored ≡ (ok (without_scope addr), []))

  pub default_bind_handler-bind_answer :
      (r : Request) (sink s : S)
      → send (bind_answer vec r, r.source_addr) sink ≡ some s
      → default_bind_handler slice vec egress r sink ≡ s
  unfolding default_bind_handler Transactions.send append_attribute with_attribute build_response
  default_bind_handler-bind_answer r sink s sent =
      rw (default_bind_handler, Transactions.send, sent) refl

  pub bind_answer-Binds :
      (r : Request) → IsAddr r.source_addr → Binds r.source_addr (bind_answer vec r)
  unfolding new_response
  bind_answer-Binds r h =
      let addr = r.source_addr in
      let value = encode_socket_addr vec addr in
      let xored : Tlv = record { attribute_type = 0x0020; value = value } in
      let mapped : Tlv = record { attribute_type = 0x0001; value = value } in
      let plain : Message = new_response r.method r.transaction_id (bind_attributes vec addr) in
      let decoded : decode_socket_addr slice value ≡ ok (without_scope addr) =
        decode-encode_socket_addr vec slice addr h in
      (
        mapped ∷ [],
        ap (λ m. extract_attribute (xor_mapped_address slice vec) m.attributes)
              (xor_socket_addr_twice xor_mapped_address_id plain)
            ∙ extract_attribute-found (xor_mapped_address slice vec) [] xored (mapped ∷ []) tt refl
            ∙ rw decoded refl,
        extract_attribute-found (mapped_address slice vec) [] mapped [] tt refl ∙ rw decoded refl,
      )

  -- A binding request is answered by one success response with its id and method, sent to where it
  -- came from. A client that unmasks it finds that address twice, without V6 flow and scope.
  pub default_bind_handler-Binds :
      (r : Request) (sink : S)
      → IsAddr r.source_addr
      → (message : Message) × ((s : S)
          → send (message, r.source_addr) sink ≡ some s
          → default_bind_handler slice vec egress r sink ≡ s)
        × (message.header.class ≡ response)
        × (message.header.transaction_id ≡ r.transaction_id)
        × (message.header.method ≡ r.method)
        × Binds r.source_addr message
  unfolding xor_socket_addr new_response
  default_bind_handler-Binds r sink h = (
    bind_answer vec r,
    default_bind_handler-bind_answer r sink,
    refl,
    refl,
    refl,
    bind_answer-Binds r h,
  )

  -- A request of a method without a handler is answered by one error response with its id and method,
  -- sent to where it came from, whose only attribute is error code 400, "unsupported".
  pub unrecognized_method_handler-refuses :
      (r : Request) (sink : S)
      → (message : Message) × ((s : S)
          → send (message, r.source_addr) sink ≡ some s
          → unrecognized_method_handler slice vec egress r sink ≡ s)
        × (message.header.class ≡ error)
        × (message.header.transaction_id ≡ r.transaction_id)
        × (message.header.method ≡ r.method)
        × (extract_attribute (error_code slice vec) message.attributes
            ≡ (ok (record { code = 400; reason = unsupported }), []))
  unfolding unrecognized_method_handler Transactions.send_error new_error append_attribute
      with_attribute build_response
  unrecognized_method_handler-refuses r sink =
      let e : ErrorCode = record { code = 400; reason = unsupported } in
      let message : Message =
        new_error r.method r.transaction_id (append_attribute (error_code slice vec) [] e) in
      (
        message,
        (λ s sent. rw (unrecognized_method_handler, Transactions.send_error, sent) refl),
        refl,
        refl,
        refl,
        extract-append_attribute (error_code slice vec) [] e e tt
            (decode-encode_error_code slice vec e unsupported_utf8 (omega arith)),
      )
