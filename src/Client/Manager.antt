-- ===== src/Client/Manager.antt =====
-- stunny-client/src/manager.rs, and the data of interface.rs that it passes on. An `Instant` is a
-- number of nanoseconds; what `Instant::now()` and the random generator return are arguments.
-- A oneshot sender is known by a number, and `answers` lists what each one was used to send.
-- Logging is left out.
pub mod Tables
pub mod Invariant
pub mod Rounds
pub mod Timeouts
pub mod Policies
pub mod Expiry
pub mod Incoming
pub mod Outgoing
use mstun.Base.{
  ℕ, zero, suc, ◌+◌, ◌-◌, ◌≡◌, Bool, true, false, not, Option, none, some, List, [], ◌∷◌, ◌++◌, ltb,
  leb, ◌==◌, if◌then◌else◌, Outcome, ok, err, panic, stuck, ◌>>=◌, expect,
}
use mstun.Base.Tally.{filter}
use mstun.Base.Bytes.{bytes_eq}
use mstun.Extern.Channel.{AsyncSender}
use mstun.Core.Message.{Tlv, Header, Message, Class, new_request, new_indication}
use mstun.Core.Message.Xor.{xor_socket_addr}
use mstun.Core.Attributes.SocketAddr.{SocketAddr}
use mstun.Client.{TransactionError, timeout, channel_closed, method_mismatch}
use mstun.Client.Rto.{RtoPolicy, from_millis}

pub record Response : Type 0 where
  pub success : Bool
  pub attributes : List Tlv
  pub time_elapsed : ℕ

pub record Indication : Type 0 where
  pub farend_addr : SocketAddr
  pub method : ℕ
  pub attributes : List Tlv

abbrev pub Answer : Type 0
Answer = Outcome TransactionError Response

pub record Request : Type 0 where
  pub destination_addr : SocketAddr
  pub method : ℕ
  pub attributes : List Tlv
  pub response_sink : ℕ
  pub attempts_made : ℕ
  pub start_time : ℕ

pub record PendingTimeout : Type 0 where
  pub timeout_at : ℕ
  pub tid : List ℕ

abbrev pub Requests : Type 0
Requests = List (List ℕ × Request)

-- `HashMap::get`, `remove` and `insert`
abbrev pub lookup : List ℕ → Requests → Option Request
lookup tid [] = none
lookup tid ((key, request) ∷ entries) =
    if bytes_eq key tid then some request else lookup tid entries

abbrev pub remove : List ℕ → Requests → Requests
remove tid = filter (λ entry. not (bytes_eq entry.0 tid))

abbrev pub insert : List ℕ → Request → Requests → Requests
insert tid request entries = (tid, request) ∷ remove tid entries

abbrev pub unwrap_or : ℕ → Option ℕ → ℕ
unwrap_or default none = default
unwrap_or default (some n) = n

-- The two cases of a step of `pop_earliest`.
abbrev pub earlier :
    PendingTimeout
    → Option (PendingTimeout × List PendingTimeout)
    → Option (PendingTimeout × List PendingTimeout)
earlier pt none = some (pt, [])
earlier pt (some (first, others)) =
    if ltb first.timeout_at pt.timeout_at
    then some (first, pt ∷ others)
    else some (pt, first ∷ others)

-- `BinaryHeap::peek`, or `PeekMut::pop`, under the reversed order of `PendingTimeout`: an element
-- with the least time, and the others.
abbrev pub pop_earliest : List PendingTimeout → Option (PendingTimeout × List PendingTimeout)
pop_earliest [] = none
pop_earliest (pt ∷ pts) = earlier pt (pop_earliest pts)

pub record Manager (P S I : Type 0) : Type 0 where
  pub pending_timeouts : List PendingTimeout
  pub outstanding_requests : Requests
  pub egress_sink : S
  pub incoming_indications_sink : I
  pub rto_policy : P
  pub answers : List (ℕ × Answer)

-- `XorMappedAddress::ID`
abbrev pub xor_mapped_address_id : ℕ
xor_mapped_address_id = 0x0020

-- `DEFAULT_RTO`
abbrev pub default_rto : ℕ
default_rto = from_millis 1500

-- `Request::new`
unfoldable pub new : SocketAddr → ℕ → List Tlv → ℕ → ℕ → Request
new destination_addr method attributes response_sink now = record {
  destination_addr = destination_addr;
  method = method;
  attributes = attributes;
  response_sink = response_sink;
  attempts_made = 0;
  start_time = now;
}

module _ {P S I : Type 0} (policy : RtoPolicy P) (egress : AsyncSender S (Message × SocketAddr))
    (indications : AsyncSender I Indication) where
  open policy use {calculate_rto, submit_rtt}

  abbrev pub State : Type 0
  State = Manager P S I

  -- A handler's result: the state, beside an error as well.
  abbrev pub Handled : Type 0
  Handled = Outcome (TransactionError × State) State

  -- `Manager::new`
  unfoldable pub new_manager : P → S → I → State
  new_manager rto_policy egress_sink incoming_indications_sink = record {
    pending_timeouts = [];
    outstanding_requests = [];
    egress_sink = egress_sink;
    incoming_indications_sink = incoming_indications_sink;
    rto_policy = rto_policy;
    answers = [];
  }

  unfoldable pub next_timeout : State → Option ℕ
  next_timeout manager = elim (pop_earliest manager.pending_timeouts) [
    | none ↦ none
    | some (first, others) ↦ some first.timeout_at
  ]

  -- `response_sink.send(..)`
  abbrev pub answer : ℕ → Answer → State → State
  answer sink result manager = record manager { answers = manager.answers ++ (sink, result) ∷ [] }

  -- `egress_sink.send(..).await?`, then the rest.
  abbrev pub send_then : Option S → (S → State) → State → Handled
  send_then none rest manager = err (channel_closed, manager)
  send_then (some egress_sink) rest manager = ok (rest egress_sink)

  -- `match calculate_rto(..)` for a timeout that was popped and its request; `now` is the second
  -- reading of the clock.
  unfoldable pub expire : ℕ → PendingTimeout → Request → Option ℕ → State → Handled
  expire now timeout_ request none manager = ok (
      answer request.response_sink (err timeout) (record manager {
        outstanding_requests = remove timeout_.tid manager.outstanding_requests;
      }))
  expire now timeout_ request (some next_rto) manager =
      send_then
        (egress.send
          (new_request request.method timeout_.tid request.attributes, request.destination_addr)
          manager.egress_sink)
        (λ egress_sink. record manager {
          egress_sink = egress_sink;
          outstanding_requests =
              insert timeout_.tid (record request { attempts_made = request.attempts_made + 1 })
                manager.outstanding_requests;
          pending_timeouts =
              record { timeout_at = now + next_rto; tid = timeout_.tid } ∷ manager.pending_timeouts;
        })
        manager

  -- `match self.outstanding_requests.entry(timeout.tid)`, and the rest of the round.
  unfoldable pub timeout_round : ℕ → PendingTimeout → Option Request → State → Handled
  unfolding expire
  timeout_round now timeout_ none manager = panic
  timeout_round now timeout_ (some request) manager = do
    (next_rto, rto_policy) ←
        expect (calculate_rto request.destination_addr request.attempts_made manager.rto_policy)
    expire now timeout_ request next_rto (record manager { rto_policy = rto_policy })

  -- The loop of `handle_timeouts`: each round reads the clock twice.
  unfoldable pub handle_timeouts : ℕ → (ℕ → ℕ) → State → Handled
  unfolding timeout_round
  handle_timeouts zero clock manager = stuck
  handle_timeouts (suc fuel) clock manager = elim (pop_earliest manager.pending_timeouts) [
    | none ↦ ok manager
    | some (first, others) ↦
        if leb first.timeout_at (clock 0)
        then (timeout_round (clock 1) first (lookup first.tid manager.outstanding_requests)
              (record manager { pending_timeouts = others })
            >>= (λ manager'. handle_timeouts fuel (λ k. clock (k + 2)) manager'))
        else ok manager
  ]

  -- `handle_outgoing_indication`, with the id drawn
  unfoldable pub handle_outgoing_indication : List ℕ → Indication → State → Handled
  handle_outgoing_indication tid indication manager =
      let msg =
        xor_socket_addr xor_mapped_address_id
          (new_indication indication.method tid indication.attributes) in
      send_then (egress.send (msg, indication.farend_addr) manager.egress_sink)
        (λ egress_sink. record manager { egress_sink = egress_sink }) manager

  -- `Ok(_) => ..` in `handle_outgoing_request`
  unfoldable pub register : List ℕ → ℕ → Request → State → Handled
  register tid now request manager = do
    (initial_rto, rto_policy) ← expect (calculate_rto request.destination_addr 0 manager.rto_policy)
    ok (record manager {
      rto_policy = rto_policy;
      pending_timeouts =
          record { timeout_at = now + unwrap_or default_rto initial_rto; tid = tid }
          ∷ manager.pending_timeouts;
      outstanding_requests =
          insert tid (record request { attempts_made = 1; start_time = now })
            manager.outstanding_requests;
    })

  -- `handle_outgoing_request`, with the id drawn and the time after sending
  unfoldable pub handle_outgoing_request : List ℕ → ℕ → Request → State → Handled
  unfolding register
  handle_outgoing_request tid now request manager =
      let msg =
        xor_socket_addr xor_mapped_address_id (new_request request.method tid request.attributes) in
      elim (egress.send (msg, request.destination_addr) manager.egress_sink) [
        | none ↦ err (channel_closed, answer request.response_sink (err channel_closed) manager)
        | some egress_sink ↦
            register tid now (record request { attributes = msg.attributes })
              (record manager { egress_sink = egress_sink })
      ]

  -- `matches!(message.header.class, Class::Response)`
  abbrev pub is_success : Class → Bool
  is_success Class.response = true
  is_success _ = false

  -- What the request's sender is told.
  unfoldable pub result_of : ℕ → Request → Message → Answer
  result_of now request message =
      if not (request.method == message.header.method)
      then err (method_mismatch request.method message.header.method)
      else ok (record {
        success = is_success message.header.class;
        attributes = message.attributes;
        time_elapsed = now - request.start_time;
      })

  -- `if request.attempts_made == 1`
  unfoldable pub measure_rtt : SocketAddr → ℕ → Request → P → P
  measure_rtt source_addr now request rto_policy =
      if request.attempts_made == 1
      then submit_rtt source_addr (now - request.start_time) rto_policy
      else rto_policy

  -- `Class::Response | Class::Error => ..`, with what `remove` returned
  unfoldable pub complete : ℕ → ℕ → Message → SocketAddr → Option Request → State → State
  unfolding result_of measure_rtt
  complete measured now message source_addr none manager = manager
  complete measured now message source_addr (some request) manager =
      answer request.response_sink (result_of now request message) (record manager {
        outstanding_requests = remove message.header.transaction_id manager.outstanding_requests;
        pending_timeouts =
            filter (λ pt. not (bytes_eq pt.tid message.header.transaction_id))
              manager.pending_timeouts;
        rto_policy = measure_rtt source_addr measured request manager.rto_policy;
      })

  -- `Class::Indication => ..`, with what sending it came to
  abbrev pub deliver : Option I → State → State
  deliver none manager = manager
  deliver (some sink) manager = record manager { incoming_indications_sink = sink }

  -- `match message.header.class`; `measured` and `now` are what the two calls of
  -- `elapsed` measure up to.
  unfoldable pub dispatch : ℕ → ℕ → Class → Message → SocketAddr → State → State
  unfolding complete
  dispatch measured now Class.request message source_addr manager = manager
  dispatch measured now Class.indication message source_addr manager =
      deliver
        (indications.send
          (record {
            farend_addr = source_addr;
            method = message.header.method;
            attributes = message.attributes;
          })
          manager.incoming_indications_sink)
        manager
  dispatch measured now Class.response message source_addr manager =
      complete measured now message source_addr
        (lookup message.header.transaction_id manager.outstanding_requests) manager
  dispatch measured now Class.error message source_addr manager =
      complete measured now message source_addr
        (lookup message.header.transaction_id manager.outstanding_requests) manager

  unfoldable pub handle_incoming_message : ℕ → ℕ → Message × SocketAddr → State → Handled
  unfolding dispatch
  handle_incoming_message measured now (message, source_addr) manager =
      let message' = xor_socket_addr xor_mapped_address_id message in
      ok (dispatch measured now message'.header.class message' source_addr manager)
