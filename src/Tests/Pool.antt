-- ===== src/Tests/Pool.antt =====
-- The pool of connections.
use mstun.Base.{◌≡◌, refl, List, [], ◌∷◌, ok, true, false}
use mstun.Extern.Concrete.{Queue}
use mstun.Extern.Concrete.Counters.{queue_mpsc}
use mstun.Core.Message.{Message}
use mstun.Core.Attributes.SocketAddr.{SocketAddr, v4}
use mstun.Core.Transport.Pool.{ConnectionPool, Event, outgoing, served, lookup, run}
use mstun.Core.Transport.Pool.Deliveries.{Alone, run-Alone}
use mstun.Tests.{response_message, address}

abbrev State : Type 0
State = ConnectionPool (Queue Message) (Queue (Message × SocketAddr))

abbrev empty : State
empty = record {
  connections = [];
  ingress_sink = ([], 1, false);
  max_outstanding_requests = 1;
  connection_keep_alive = 5;
  tasks = [];
}

abbrev elsewhere : SocketAddr
elsewhere = v4 (9 ∷ 9 ∷ 9 ∷ 9 ∷ []) 3478

-- A connection is made, its channel is full, its task ends, and it is made again.
abbrev events : List (Event (Queue Message))
events =
    outgoing response_message address
    ∷ outgoing response_message address
    ∷ served address (λ s. ([], 1, true))
    ∷ outgoing response_message elsewhere
    ∷ outgoing response_message address
    ∷ []

run-Alone_example :
    (pool' : State) × (run queue_mpsc queue_mpsc events empty ≡ ok pool')
    × ((addr : SocketAddr)
        → Alone queue_mpsc queue_mpsc 0 addr events
            (lookup addr [])
            (lookup addr pool'.connections))
run-Alone_example = run-Alone queue_mpsc queue_mpsc events empty 0 refl
