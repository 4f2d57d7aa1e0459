-- ===== src/Core/Transport/Pool.antt =====
-- stunny-core/src/transport/connection_pool.rs: the pool of connections, which passes messages on to
-- the channels of the tasks that serve them, and the detection of inactivity. What a task does to
-- its channel comes as an event. The factory of streams is used inside a task only.
pub mod Lookups
pub mod Deliveries
pub mod Inactivity
use mstun.Base.{
  ℕ, zero, suc, ◌-◌, Bool, true, false, not, ◌&&◌, ◌==◌, leb, if◌then◌else◌, List, [], ◌∷◌, ◌++◌,
  Option, none, some, Outcome, ok, err, panic, stuck, ◌>>=◌, expect,
}
use mstun.Base.Bytes.{bytes_eq}
use mstun.Base.Tally.{filter}
use mstun.Extern.Channel.{Mpsc, TrySend, sent, full, closed}
use mstun.Core.Message.{Message}
use mstun.Core.Attributes.SocketAddr.{SocketAddr, v4, v6}
use mstun.Core.Transport.{IoError, inactivity_timeout, timed_out}

-- `==` on `SocketAddr`
abbrev pub addr_eq : SocketAddr → SocketAddr → Bool
addr_eq (v4 octets port) (v4 octets' port') = bytes_eq octets octets' && port == port'
addr_eq (v6 octets port flow scope) (v6 octets' port' flow' scope') =
    bytes_eq octets octets' && (port == port' && (flow == flow' && scope == scope'))
addr_eq _ _ = false

-- A task that was spawned for a connection, with its limit of inactivity.
pub record Task : Type 0 where
  pub remote_addr : SocketAddr
  pub inactivity_timeout : ℕ

module _ {S : Type 0} where
  -- `HashMap::entry`, `OccupiedEntry::remove` and `HashMap::insert`
  abbrev pub lookup : SocketAddr → List (SocketAddr × S) → Option S
  lookup addr [] = none
  lookup addr ((key, sink) ∷ entries) = if addr_eq key addr then some sink else lookup addr entries

  abbrev pub remove : SocketAddr → List (SocketAddr × S) → List (SocketAddr × S)
  remove addr = filter (λ entry. not (addr_eq entry.0 addr))

  abbrev pub insert : SocketAddr → S → List (SocketAddr × S) → List (SocketAddr × S)
  insert addr sink entries = (addr, sink) ∷ remove addr entries

-- `tasks` are those that were spawned so far.
pub record ConnectionPool (S I : Type 0) : Type 0 where
  pub connections : List (SocketAddr × S)
  pub ingress_sink : I
  pub max_outstanding_requests : ℕ
  pub connection_keep_alive : ℕ
  pub tasks : List Task

-- What happens to the pool: a message comes out of `egress_source`, or the task of the connection to
-- an address takes messages from its channel or drops it.
pub data Event (S : Type 0) : Type 0 where
  outgoing : Message → SocketAddr → Event S
  served : SocketAddr → (S → S) → Event S

module _ {S I : Type 0} (mpsc : Mpsc S Message) (ingress : Mpsc I (Message × SocketAddr)) where
  open mpsc use {sender, channel}
  open sender use {try_send}

  abbrev pub State : Type 0
  State = ConnectionPool S I

  -- `setup_connection_pool`: the pool. The channel of outgoing messages, which has room for one,
  -- is given by the events.
  unfoldable pub setup_connection_pool : ℕ → ℕ → Outcome IoError State
  setup_connection_pool max keep_alive = do
    ingress_sink ← expect (ingress.channel max)
    ok (record {
      connections = [];
      ingress_sink = ingress_sink;
      max_outstanding_requests = max;
      connection_keep_alive = keep_alive;
      tasks = [];
    })

  unfoldable pub launch_new_connection : SocketAddr → State → Outcome IoError (S × State)
  launch_new_connection remote_addr pool = do
    egress_sink ← expect (channel pool.max_outstanding_requests)
    let task : Task = record {
      remote_addr = remote_addr;
      inactivity_timeout = pool.connection_keep_alive;
    }
    ok (egress_sink, record pool { tasks = pool.tasks ++ task ∷ [] })

  -- `Ok(egress_sink) if egress_sink.try_send(message).is_ok()`, and the other arm
  abbrev pub after_first : SocketAddr → State → TrySend × S → State
  after_first addr pool (sent, sink) = record pool {
    connections = insert addr sink pool.connections;
  }
  after_first addr pool (full, sink) = pool
  after_first addr pool (closed, sink) = pool

  unfoldable pub connect : Message → SocketAddr → State → Outcome IoError State
  unfolding launch_new_connection
  connect message addr pool = do
    (sink, pool) ← launch_new_connection addr pool
    ok (after_first addr pool (try_send message sink))

  -- `match occupied_entry.get().try_reserve()`
  abbrev pub after_reserve : Message → SocketAddr → State → TrySend × S → Outcome IoError State
  after_reserve message addr pool (sent, sink) =
      ok (record pool { connections = insert addr sink pool.connections })
  after_reserve message addr pool (full, sink) = ok pool
  after_reserve message addr pool (closed, sink) =
      connect message addr (record pool { connections = remove addr pool.connections })

  -- One round of the loop in `run`.
  unfoldable pub forward : Message → SocketAddr → State → Outcome IoError State
  unfolding connect
  forward message addr pool = elim (lookup addr pool.connections) [
    | some sink ↦ after_reserve message addr pool (try_send message sink)
    | none ↦ connect message addr pool
  ]

  abbrev pub serve : SocketAddr → (S → S) → State → Option S → State
  serve addr change pool none = pool
  serve addr change pool (some sink) = record pool {
    connections = insert addr (change sink) pool.connections;
  }

  abbrev pub step : Event S → State → Outcome IoError State
  step (outgoing message addr) pool = forward message addr pool
  step (served addr change) pool = ok (serve addr change pool (lookup addr pool.connections))

  unfoldable pub run : List (Event S) → State → Outcome IoError State
  unfolding forward
  run [] pool = ok pool
  run (event ∷ events) pool = do pool ← step event pool; run events pool

-- The task that `launch_new_connection` spawns, by what connecting comes to within `IO_TIMEOUT`:
-- none if it takes longer. `run` is `Connection::run`.
unfoldable pub connection_task :
    {T A : Type 0} → Option (Outcome IoError T) → (T → Outcome IoError A) → Outcome IoError A
connection_task none run = err timed_out
connection_task (some connected) run = do stream ← connected; run stream

-- `detect_inactivity`, by what `last_active` and the clock read at the top of each round: the error
-- that ends it, if it ends, and how long it slept. `elapsed` is 0 for a later instant.
unfoldable pub detect_inactivity : ℕ → List (ℕ × ℕ) → Option IoError × List ℕ
detect_inactivity timeout [] = (none, [])
detect_inactivity timeout ((last_active, now) ∷ readings) =
    let idle_period = now - last_active in
    let rest = detect_inactivity timeout readings in
    if leb timeout idle_period
    then (some inactivity_timeout, [])
    else (rest.0, (timeout - idle_period) ∷ rest.1)
