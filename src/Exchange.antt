-- ===== src/Exchange.antt =====
-- A binding request and its answer, through stunny-client/src/manager.rs, the codec of
-- stunny-core/src/transport/udp.rs and stunny-server/src/processor.rs.
use mstun.Base.{
  ℕ, ◌-◌, ◌≤◌, ◌<◌, ◌≡◌, refl, ap, ◌∙◌, arith, List, [], ◌∷◌, ◌++◌, length, All, true, false, ok,
  some, inl,
}
use mstun.Extern.Buf.{SliceBuf}
use mstun.Extern.BufMut.{VecMut, SliceMut}
use mstun.Extern.Bitvec.{Bitvec}
use mstun.Extern.Channel.{AsyncSender}
use mstun.Core.Message.{Message, new_request, new_response}
use mstun.Core.Message.TlvCodec.Spelling
use mstun.Core.Message.Xor.{xor_socket_addr}
use mstun.Core.Attributes.SocketAddr.{SocketAddr, v4, v6, encode_socket_addr, xor_mapped_address}
use mstun.Core.Attributes.SocketAddr.RoundTrip.{
  IsAddr, without_scope, encode_socket_addr-addr_bytes,
}
use mstun.Core.Attributes.Collection.{extract_attribute}
use mstun.Core.Transport.Udp.{encode_msg, decode_msg, buffer_len}
use mstun.Core.Transport.Udp.Codec.{IsWellFormed, message_size, decode-encode_msg}
use mstun.Core.Transport.Udp.Constructed.{
  IsId, new_request-IsWellFormed, new_response-IsWellFormed, xor_socket_addr-IsWellFormed,
  message_size-xor_socket_addr,
}
use mstun.Client.Rto.{RtoPolicy}
use mstun.Client.Manager.{
  Request, Response, Indication, Manager, handle_outgoing_request, handle_incoming_message,
  result_of, lookup, xor_mapped_address_id,
}
use mstun.Client.Manager.Invariant.{GivesUp, WellFormed}
use mstun.Client.Manager.Outgoing.{request_message, handle_outgoing_request-registered}
use mstun.Client.Manager.Incoming.{handle_incoming_message-answers}
use mstun.Server.Processor
use mstun.Server.Processor.{handler_for, default_bind_handler}
use mstun.Server.Processor.Answers.{
  bind_attributes, bind_answer-Binds, default_bind_handler-bind_answer, request_of, run-serve_all,
}

module _ {A B V W : Type 0} (bits : Bitvec A) (slice : SliceBuf B) (vec : VecMut V)
    (slice_mut : SliceMut W) where
  open slice use {as_slice}
  open slice_mut use {buf_mut, as_mut_slice}
  open buf_mut use {written}

  -- The message fits a datagram, which decodes to it.
  abbrev pub Carried : Message → Type 0
  Carried message =
      (v : W) × (encode_msg bits slice_mut message (as_mut_slice buffer_len) ≡ ok v)
      × (decode_msg bits slice (as_slice (written v)) ≡ ok message)

  length-encode_socket_addr :
      (addr : SocketAddr) → IsAddr addr → length (encode_socket_addr vec addr) ≤ 20
  length-encode_socket_addr (v4 octets port) h =
      omega (arith, ap length (encode_socket_addr-addr_bytes vec (v4 octets port)))
  length-encode_socket_addr (v6 octets port flowinfo scope_id) h =
      omega
        (arith, ap length (encode_socket_addr-addr_bytes vec (v6 octets port flowinfo scope_id)))

  bind_attributes-IsValid :
      (addr : SocketAddr) → IsAddr addr → All Spelling.IsValid (bind_attributes vec addr)
  bind_attributes-IsValid addr h =
      let small = length-encode_socket_addr addr h in
      (
        record { type_fits = omega arith; length_fits = omega (arith, small) },
        (record { type_fits = omega arith; length_fits = omega (arith, small) }, tt),
      )

  carried : (m : Message) → IsWellFormed m → message_size m ≤ 1500 → Carried m
  carried m h fits = decode-encode_msg bits slice slice_mut m 1500 h fits (omega arith)

  request_message-Carried :
      (tid : List ℕ) (r : Request)
      → IsId tid
      → r.method < 4096
      → All Spelling.IsValid r.attributes
      → message_size (request_message tid r) ≤ 1500
      → Carried (request_message tid r)
  request_message-Carried tid r is_id small valid fits =
      carried (request_message tid r)
        (xor_socket_addr-IsWellFormed xor_mapped_address_id (new_request r.method tid r.attributes)
          (new_request-IsWellFormed r.method tid r.attributes small is_id valid))
        fits

  -- The answer to a binding request of this id from this address.
  abbrev answer_to : List ℕ → SocketAddr → Message
  answer_to tid addr =
      xor_socket_addr xor_mapped_address_id (new_response 1 tid (bind_attributes vec addr))

  message_size-answer_to :
      (tid : List ℕ) (addr : SocketAddr) → IsAddr addr → message_size (answer_to tid addr) ≤ 1500
  unfolding new_response
  message_size-answer_to tid addr h = omega (
    arith,
    message_size-xor_socket_addr xor_mapped_address_id
        (new_response 1 tid (bind_attributes vec addr)),
    length-encode_socket_addr addr h,
  )

  answer_to-Carried :
      (tid : List ℕ) (addr : SocketAddr) → IsId tid → IsAddr addr → Carried (answer_to tid addr)
  answer_to-Carried tid addr is_id h =
      carried (answer_to tid addr)
        (xor_socket_addr-IsWellFormed xor_mapped_address_id
          (new_response 1 tid (bind_attributes vec addr))
          (new_response-IsWellFormed 1 tid (bind_attributes vec addr) (omega arith) is_id
            (bind_attributes-IsValid addr h)))
        (message_size-answer_to tid addr h)

  module _ {E : Type 0} (answers : AsyncSender E (Message × SocketAddr)) where
    -- What the server makes of the request.
    run-answer_to :
        (tid : List ℕ) (r : Request) (addr : SocketAddr) (sink sink' : E)
        → r.method ≡ 1
        → answers.send (answer_to tid addr, addr) sink ≡ some sink'
        → Processor.run
            (Processor.new slice vec answers)
            false
            ((request_message tid r, addr) ∷ [])
            sink
          ≡ ok sink'
    unfolding Processor.new handler_for xor_socket_addr new_request
    run-answer_to tid r addr sink sink' bind sent =
        run-serve_all (Processor.new slice vec answers) false ((request_message tid r, addr) ∷ [])
          sink
        ∙ rw (handler_for, bind)
            (ap ok (
              default_bind_handler-bind_answer slice vec answers
                (record (request_of (request_message tid r, addr)) { method = 1 }) sink sink' sent))

    module _ {P S I : Type 0} (policy : RtoPolicy P) (egress : AsyncSender S (Message × SocketAddr))
        (indications : AsyncSender I Indication) (Fine : P → Type 0) (limit : ℕ)
        (gives_up : GivesUp policy Fine limit) where
      abbrev State : Type 0
      State = Manager P S I

      -- The request's sender is told of success, with attributes that hold this address.
      abbrev pub ToldAddress : Request → SocketAddr → State → State → Type 0
      ToldAddress r addr m m' =
          (response : Response) × (m'.answers ≡ m.answers ++ (r.response_sink, ok response) ∷ [])
          × (response.success ≡ true)
          × ((extract_attribute (xor_mapped_address slice vec) response.attributes).0
              ≡ ok (without_scope addr))

      answered :
          (tid : List ℕ) (measured later : ℕ) (r r' : Request) (addr server_addr : SocketAddr)
          (m m1 : State)
          → r.method ≡ 1
          → IsAddr addr
          → lookup tid m1.outstanding_requests ≡ some r'
          → r'.method ≡ r.method
          → r'.response_sink ≡ r.response_sink
          → m1.answers ≡ m.answers
          → (m2 : State) × (handle_incoming_message policy egress indications measured later
                (answer_to tid addr, server_addr)
                m1
              ≡ ok m2)
            × ToldAddress r addr m m2
      unfolding xor_socket_addr new_response result_of
      answered tid measured later r r' addr server_addr m m1 bind h found same_method same_sink
            kept =
          let (m2, e, told, _, _) =
            handle_incoming_message-answers policy egress indications Fine limit gives_up measured
              later (answer_to tid addr) server_addr m1 r' (inl refl) found in
          let message : Message = xor_socket_addr xor_mapped_address_id (answer_to tid addr) in
          let response : Response = record {
            success = true;
            attributes = message.attributes;
            time_elapsed = later - r'.start_time;
          } in
          let result : result_of policy egress indications later r' message ≡ ok response =
            rw (result_of, same_method ∙ bind) refl in
          let (xored, extracted, _) =
            bind_answer-Binds slice vec answers
              (record { source_addr = addr; transaction_id = tid; method = 1; attributes = [] })
              h in
          (
            m2,
            e,
            (response, told ∙ rw (kept, same_sink, result) refl, refl, ap (λ x. x.0) extracted),
          )

      -- A binding request with valid attributes, whose message fits a datagram, is sent under an id
      -- of 12 bytes by a well-formed manager whose channel takes it. It decodes as it was sent, and
      -- the server's processor answers it; if the server's channel takes the answer, this is what
      -- is sent. The answer decodes as it was sent, the manager takes it for the request's, and the
      -- request's sender reads in it the address that the server saw, without V6 flow and scope.
      pub exchange-ToldAddress :
          (tid : List ℕ) (now measured later : ℕ) (r : Request) (addr server_addr : SocketAddr)
          (m : State) (s : S)
          → WellFormed Fine limit m
          → egress.send (request_message tid r, r.destination_addr) m.egress_sink ≡ some s
          → r.method ≡ 1
          → IsId tid
          → All Spelling.IsValid r.attributes
          → message_size (request_message tid r) ≤ 1500
          → IsAddr addr
          → (m1 : State) × (handle_outgoing_request policy egress indications tid now r m ≡ ok m1)
            × Carried (request_message tid r)
            × (answer : Message) × ((sink sink' : E)
                → answers.send (answer, addr) sink ≡ some sink'
                → Processor.run
                    (Processor.new slice vec answers)
                    false
                    ((request_message tid r, addr) ∷ [])
                    sink
                  ≡ ok sink')
            × Carried answer
            × (m2 : State) × (handle_incoming_message policy egress indications measured later
                  (answer, server_addr)
                  m1
                ≡ ok m2)
            × ToldAddress r addr m m2
      exchange-ToldAddress tid now measured later r addr server_addr m s h sent bind is_id valid
            fits is_addr =
          let (m1, r', e, found, same_method, same_sink, kept) =
            handle_outgoing_request-registered policy egress indications Fine limit gives_up tid now
              r m s h sent in
          let (m2, f, told) =
            answered tid measured later r r' addr server_addr m m1 bind is_addr found same_method
              same_sink kept in
          (
            m1,
            e,
            request_message-Carried tid r is_id (omega arith) valid fits,
            answer_to tid addr,
            (λ sink sink'. run-answer_to tid r addr sink sink' bind),
            answer_to-Carried tid addr is_id is_addr,
            m2,
            f,
            told,
          )
