-- ===== src/Tests/Runs.antt =====
-- The client's processor, and its set-up.
use mstun.Base.{
  ℕ, ◌+◌, ◌≡◌, ◌≤◌, ◌<◌, refl, arith, List, [], ◌∷◌, ok, panic, some, none, false, ◌⊎◌,
}
use mstun.Base.Tally.{total}
use mstun.Extern.Concrete.{Queue, queue_async}
use mstun.Extern.Concrete.Counters.{queue_mpsc, counter}
use mstun.Client.Rto
use mstun.Client.Rto.{exponential_backoff, calculate_rto}
use mstun.Client.Manager.{Request, Indication, next_timeout, new_manager}
use mstun.Client.Processor.{Event, timeouts, inbound, outbound_request, run}
use mstun.Extern.Semaphore.{max_permits}
use mstun.Client.Processor.Setup.{RequestSender, setup_transactions, setup_transactions-Safe}
use mstun.Client.Processor.Runs.{Safe, run-Safe}
use mstun.Client.Manager.Tables.{has_tid}
use mstun.Client.Manager.Invariant.{WellFormed, entered}
use mstun.Client.Manager.Policies.{default_backoff-GivesUp}
use mstun.Client.Manager.Expiry.{AllAnswered, wait_out, wait_out-AllAnswered}
use mstun.Tests.{id, response_message, address}
use mstun.Tests.Client.{
  State, a_request, empty_manager, waiting_manager, nothing-Matched, waiting_manager-WellFormed,
}

-- A timeout, and then the response to the request that was sent again.
abbrev events : List Event
events = timeouts 9 (λ k. 600 + k) ∷ inbound 90 91 (some (response_message, address)) ∷ []

run-Safe_example :
    Safe
      (exponential_backoff 7 16)
      queue_async
      queue_async
      (λ rto. rto ≡ Rto.default_rto)
      7
      default_backoff-GivesUp
      (run (exponential_backoff 7 16) queue_async queue_async events waiting_manager)
run-Safe_example =
    run-Safe (exponential_backoff 7 16) queue_async queue_async (λ rto. rto ≡ Rto.default_rto) 7
      default_backoff-GivesUp events waiting_manager waiting_manager-WellFormed
      (omega arith, (λ m' e. (tt, λ m'' e'. tt)))

-- The last timeout of a request, and the one call that it takes to answer it.
abbrev last_manager : State
last_manager = record empty_manager {
  pending_timeouts = record { timeout_at = 500; tid = id } ∷ [];
  outstanding_requests = (id, record a_request { attempts_made = 7 }) ∷ [];
}

last_manager-WellFormed : WellFormed (λ rto. rto ≡ Rto.default_rto) 7 last_manager
last_manager-WellFormed = record {
  matched = entered [] [] id 500 (record a_request { attempts_made = 7 }) nothing-Matched refl;
  attempts = (omega arith, tt);
  fine = refl;
}

last_timeout :
    (t : ℕ)
    → next_timeout (exponential_backoff 7 16) queue_async queue_async last_manager ≡ some t
    → t ≤ 600
unfolding next_timeout
last_timeout t e = omega (arith, by_time e)
  where
    by_time : some 500 ≡ some t → t ≡ 500
    by_time p = cc

wait_out-AllAnswered_example :
    AllAnswered
      (exponential_backoff 7 16)
      queue_async
      queue_async
      (λ rto. rto ≡ Rto.default_rto)
      7
      default_backoff-GivesUp
      last_manager
      (wait_out
        (exponential_backoff 7 16)
        queue_async
        queue_async
        (λ rto. rto ≡ Rto.default_rto)
        7
        default_backoff-GivesUp
        1
        (λ n k. 600 + k)
        last_manager)
wait_out-AllAnswered_example =
    wait_out-AllAnswered (exponential_backoff 7 16) queue_async queue_async
      (λ rto. rto ≡ Rto.default_rto) 7 default_backoff-GivesUp 1 (λ n k. 600 + k) last_manager
      last_manager-WellFormed (omega arith) (last_timeout, λ m' e. tt)

fresh_id :
    (sink : Queue Indication)
    → total
        (has_tid id)
        (new_manager
          (exponential_backoff 7 16)
          queue_async
          queue_async
          Rto.default_rto
          ([], 4, false)
          sink).pending_timeouts
      ≡ 0
unfolding new_manager
fresh_id sink = refl

-- A client that is set up, and a binding request.
setup_transactions-Safe_example :
    (10 ≤ max_permits)
      × ((sender : RequestSender (Queue Request) ℕ) × (ind : Queue Indication) × (m : State)
          × (setup_transactions
                (exponential_backoff 7 16)
                queue_async
                queue_async
                queue_mpsc
                queue_mpsc
                queue_mpsc
                counter
                ([], 4, false)
                10
                Rto.default_rto
              ≡ ok (sender, ind, m))
          × (sender.request_slots ≡ 10)
          × (next_timeout (exponential_backoff 7 16) queue_async queue_async m ≡ none)
          × Safe
              (exponential_backoff 7 16)
              queue_async
              queue_async
              (λ rto. rto ≡ Rto.default_rto)
              7
              default_backoff-GivesUp
              (run
                (exponential_backoff 7 16)
                queue_async
                queue_async
                (outbound_request id 100 a_request ∷ [])
                m))
    ⊎ (max_permits < 10)
      × (setup_transactions
            (exponential_backoff 7 16)
            queue_async
            queue_async
            queue_mpsc
            queue_mpsc
            queue_mpsc
            counter
            ([], 4, false)
            10
            Rto.default_rto
          ≡ panic)
setup_transactions-Safe_example =
    setup_transactions-Safe (exponential_backoff 7 16) queue_async queue_async queue_mpsc queue_mpsc
      queue_mpsc counter (λ rto. rto ≡ Rto.default_rto) 7 default_backoff-GivesUp ([], 4, false) 10
      Rto.default_rto (outbound_request id 100 a_request ∷ []) refl
      (λ sink. (fresh_id sink, λ m' e. tt))
