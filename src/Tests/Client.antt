-- ===== src/Tests/Client.antt =====
-- The client.
use mstun.Base.{
  none, ℕ, suc, ◌+◌, ◌-◌, ◌*◌, ◌^◌, ◌≡◌, refl, arith, min, [], ◌∷◌, ◌++◌, ok, some, false, ◌==◌,
  inl,
}
use mstun.Base.Tally.{bit, total}
use mstun.Extern.Concrete.{Queue, queue_async}
use mstun.Core.Message.{Message}
use mstun.Core.Message.Xor.{xor_socket_addr}
use mstun.Core.Attributes.SocketAddr.{SocketAddr}
use mstun.Client.Rto
use mstun.Client.Rto.{exponential_backoff, calculate_rto}
use mstun.Client.Rto.Schedule.{timeout_of, waited, calculate_rto-timeout_of, waited_in_all}
use mstun.Client.Manager.{
  Request, Indication, Manager, handle_timeouts, handle_incoming_message, handle_outgoing_request,
  result_of, xor_mapped_address_id,
}
use mstun.Client.Manager.Tables.{has_key, has_tid}
use mstun.Client.Manager.Invariant.{WellFormed, sinks, Matched, entered}
use mstun.Client.Manager.Policies.{default_backoff-GivesUp}
use mstun.Client.Manager.Incoming.{
  handle_incoming_message-WellFormed, handle_incoming_message-answers,
}
use mstun.Client.Manager.Outgoing.{request_message, handle_outgoing_request-WellFormed}
use mstun.Client.Manager.Rounds.{remaining_timeouts}
use mstun.Client.Manager.Timeouts.{Finished, handle_timeouts-Finished}
use mstun.Tests.{id, software_tlv, response_message, address}

calculate_rto-timeout_of_example :
    calculate_rto 7 16 Rto.default_rto 6 ≡ some (timeout_of 7 16 Rto.default_rto 6)
calculate_rto-timeout_of_example =
    calculate_rto-timeout_of 7 16 Rto.default_rto 6 (omega arith) (omega arith) (omega arith)
      (omega arith) (omega arith)

waited_in_all_example :
    (waited 7 16 Rto.default_rto 7
      ≡ some (
          Rto.default_rto * (2 ^ (7 - 1) - 1)
          + min (Rto.default_rto * 2 ^ (7 - 1)) (Rto.default_rto * 16)))
    × (Rto.calculate_rto 7 16 Rto.default_rto 7 ≡ some none)
waited_in_all_example =
    waited_in_all 7 16 Rto.default_rto (omega arith) (omega arith) (omega arith) (omega arith)

abbrev pub a_request : Request
a_request = record {
  destination_addr = address;
  method = 1;
  attributes = software_tlv ∷ [];
  response_sink = 5;
  attempts_made = 1;
  start_time = 0;
}

abbrev pub State : Type 0
State = Manager ℕ (Queue (Message × SocketAddr)) (Queue Indication)

abbrev pub empty_manager : State
empty_manager = record {
  pending_timeouts = [];
  outstanding_requests = [];
  egress_sink = ([], 4, false);
  incoming_indications_sink = ([], 4, false);
  rto_policy = Rto.default_rto;
  answers = [];
}

-- One request waits.
abbrev pub waiting_manager : State
waiting_manager = record empty_manager {
  pending_timeouts = record { timeout_at = 500; tid = id } ∷ [];
  outstanding_requests = (id, a_request) ∷ [];
}

pub nothing-Matched : Matched [] []
nothing-Matched tid = (refl, omega arith)

pub empty_manager-WellFormed : WellFormed (λ rto. rto ≡ Rto.default_rto) 7 empty_manager
empty_manager-WellFormed = record { matched = nothing-Matched; attempts = tt; fine = refl }

pub waiting_manager-WellFormed : WellFormed (λ rto. rto ≡ Rto.default_rto) 7 waiting_manager
waiting_manager-WellFormed = record {
  matched = entered [] [] id 500 a_request nothing-Matched refl;
  attempts = (omega arith, tt);
  fine = refl;
}

handle_timeouts-Finished_example :
    Finished
      (exponential_backoff 7 16)
      queue_async
      queue_async
      (λ rto. rto ≡ Rto.default_rto)
      7
      default_backoff-GivesUp
      waiting_manager
      (λ k. 600 + k)
      (handle_timeouts
        (exponential_backoff 7 16)
        queue_async
        queue_async
        (suc (
          remaining_timeouts
            (exponential_backoff 7 16)
            queue_async
            queue_async
            (λ rto. rto ≡ Rto.default_rto)
            7
            default_backoff-GivesUp
            waiting_manager))
        (λ k. 600 + k)
        waiting_manager)
handle_timeouts-Finished_example =
    handle_timeouts-Finished (exponential_backoff 7 16) queue_async queue_async
      (λ rto. rto ≡ Rto.default_rto) 7 default_backoff-GivesUp (λ k. 600 + k) waiting_manager
      waiting_manager-WellFormed

handle_incoming_message-WellFormed_example :
    (m' : State) × (handle_incoming_message
        (exponential_backoff 7 16)
        queue_async
        queue_async
        90
        91
        (response_message, address)
        waiting_manager
      ≡ ok m')
    × WellFormed (λ rto. rto ≡ Rto.default_rto) 7 m'
    × ((o : ℕ) → sinks o m' ≡ sinks o waiting_manager)
handle_incoming_message-WellFormed_example =
    handle_incoming_message-WellFormed (exponential_backoff 7 16) queue_async queue_async
      (λ rto. rto ≡ Rto.default_rto) 7 default_backoff-GivesUp 90 91 response_message address
      waiting_manager waiting_manager-WellFormed

handle_incoming_message-answers_example :
    (m' : State) × (handle_incoming_message
        (exponential_backoff 7 16)
        queue_async
        queue_async
        90
        91
        (response_message, address)
        waiting_manager
      ≡ ok m')
    × (m'.answers
        ≡ []
          ++ (
            5,
            result_of
                (exponential_backoff 7 16)
                queue_async
                queue_async
                91
                a_request
                (xor_socket_addr xor_mapped_address_id response_message),
          )
            ∷ [])
    × (total (has_key id) m'.outstanding_requests ≡ 0)
    × (total (has_tid id) m'.pending_timeouts ≡ 0)
handle_incoming_message-answers_example =
    handle_incoming_message-answers (exponential_backoff 7 16) queue_async queue_async
      (λ rto. rto ≡ Rto.default_rto) 7 default_backoff-GivesUp 90 91 response_message address
      waiting_manager a_request (inl refl) refl

handle_outgoing_request-WellFormed_example :
    (m' : State) × (handle_outgoing_request
        (exponential_backoff 7 16)
        queue_async
        queue_async
        id
        100
        a_request
        empty_manager
      ≡ ok m')
    × WellFormed (λ rto. rto ≡ Rto.default_rto) 7 m'
    × (m'.egress_sink.0 ≡ [] ++ (request_message id a_request, address) ∷ [])
    × ((o : ℕ) → sinks o m' ≡ sinks o empty_manager + bit (5 == o))
    × (total (has_key id) m'.outstanding_requests ≡ 1)
handle_outgoing_request-WellFormed_example =
    handle_outgoing_request-WellFormed (exponential_backoff 7 16) queue_async queue_async
      (λ rto. rto ≡ Rto.default_rto) 7 default_backoff-GivesUp id 100 a_request empty_manager
      ((request_message id a_request, address) ∷ [], 4, false) empty_manager-WellFormed refl refl
