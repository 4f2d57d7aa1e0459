-- ===== src/Core/Transport/Pool/Deliveries.antt =====
-- What the pool does for each address.
use mathlib.Core.Option.{map}
use mstun.Base.{
  ℕ, zero, suc, ◌≡◌, ◌≢◌, refl, sym, ap, ◌∙◌, true, false, List, [], ◌∷◌, ◌++◌, Option, none, some,
  ok, Bool-cases, Option-cases, inl, subst, inr,
}
use mstun.Extern.Channel.{Mpsc}
use mstun.Core.Message.{Message}
use mstun.Core.Attributes.SocketAddr.{SocketAddr}
use mstun.Core.Transport.Pool.{
  ConnectionPool, Event, Task, outgoing, served, lookup, remove, insert, launch_new_connection,
  connect, forward, step, run,
}
use mstun.Core.Transport.Pool.Lookups.{lookup-remove_other, lookup-insert, lookup-insert_other}

module _ {S I : Type 0} (mpsc : Mpsc S Message) (ingress : Mpsc I (Message × SocketAddr)) where
  open mpsc use {sender, channel, channel-suc}
  open sender use {queued, room, is_closed, try_send, try_send_closed, try_send_full, try_send_sent}

  abbrev State : Type 0
  State = ConnectionPool S I

  -- The channel to an address before and after a message to it: `n + 1` is the room of a new one.
  pub data Delivered (n : ℕ) (message : Message) (before after : Option S) : Type 0 where
    forwarded :
        (s t : S) (left : ℕ)
        → before ≡ some s
        → (is_closed s ≡ false) × (room s ≡ suc left)
        → after ≡ some t
        → (queued t ≡ queued s ++ message ∷ []) × (room t ≡ left) × (is_closed t ≡ false)
        → Delivered n message before after
    dropped :
        (s : S)
        → before ≡ some s
        → (is_closed s ≡ false) × (room s ≡ 0)
        → after ≡ before
        → Delivered n message before after
    connected :
        (t : S)
        → ((s : S) → before ≡ some s → is_closed s ≡ true)
        → after ≡ some t
        → (queued t ≡ message ∷ []) × (room t ≡ n) × (is_closed t ≡ false)
        → Delivered n message before after

  -- The same sends and losses for all other addresses.
  abbrev Others : SocketAddr → State → State → Type 0
  Others addr pool pool' =
      (other : SocketAddr)
      → addr ≢ other
      → lookup other pool'.connections ≡ lookup other pool.connections

  -- The pool with this channel for the address, and with a task more.
  abbrev stored : SocketAddr → S → State → State
  stored addr t pool = record pool { connections = insert addr t pool.connections }

  abbrev launched : SocketAddr → State → State
  launched addr pool =
      let task : Task = record {
        remote_addr = addr;
        inactivity_timeout = pool.connection_keep_alive;
      } in
      record pool { tasks = pool.tasks ++ task ∷ [] }

  connect_lem :
      (message : Message) (addr : SocketAddr) (pool : State) (n : ℕ)
      → pool.max_outstanding_requests ≡ suc n
      → (pool' : State) × (t : S) × (connect mpsc ingress message addr pool ≡ ok pool')
        × (pool'.max_outstanding_requests ≡ suc n)
        × (lookup addr pool'.connections ≡ some t)
        × ((queued t ≡ message ∷ []) × (room t ≡ n) × (is_closed t ≡ false))
        × Others addr pool pool'
  unfolding connect launch_new_connection
  connect_lem message addr pool n max =
      let (s, made, empty, free, open_s) = channel-suc n in
      let (t, e, q, r, c) = try_send_sent message s n open_s free in
      (
        stored addr t (launched addr pool),
        t,
        rw (max, made, e) refl,
        max,
        lookup-insert addr t pool.connections,
        (q ∙ ap (λ l. l ++ message ∷ []) empty, r, c),
        λ other h. lookup-insert_other addr other t pool.connections h,
      )

  -- A message to an address, from any state of the pool.
  forward_lem :
      (message : Message) (addr : SocketAddr) (pool : State) (n : ℕ)
      → pool.max_outstanding_requests ≡ suc n
      → (pool' : State) × (forward mpsc ingress message addr pool ≡ ok pool')
        × (pool'.max_outstanding_requests ≡ suc n)
        × Delivered n message (lookup addr pool.connections) (lookup addr pool'.connections)
        × Others addr pool pool'
  unfolding forward
  forward_lem message addr pool n max = elim (Option-cases (lookup addr pool.connections)) [
    | inl absent ↦
        let (pool', t, e, m, l, q, o) = connect_lem message addr pool n max in
        (
          pool',
          rw (forward, absent) e,
          m,
          connected t (λ s f. absurd (clash (sym absent ∙ f))) l q,
          o,
        )
    | inr (s, here) ↦ elim (Bool-cases (is_closed s)) [
      | inl gone ↦
          let (pool', t, e, m, l, q, o) =
            connect_lem message addr (record pool { connections = remove addr pool.connections }) n
              max in
          (
            pool',
            rw (forward, here, try_send_closed message s gone) e,
            m,
            connected t (λ s' f. ap is_closed (some_inj (sym f ∙ here)) ∙ gone) l q,
            λ other h. o other h ∙ lookup-remove_other addr other pool.connections h,
          )
      | inr alive ↦ by_room s here alive (room s) refl
    ]
  ]
    where
      clash : {s : S} → none ≡ some s → ⊥
      clash p = cc

      some_inj : {s t : S} → some s ≡ some t → s ≡ t
      some_inj p = cc

      by_room :
          (s : S)
          → lookup addr pool.connections ≡ some s
          → is_closed s ≡ false
          → (k : ℕ) → room s ≡ k
          → (pool' : State) × (forward mpsc ingress message addr pool ≡ ok pool')
            × (pool'.max_outstanding_requests ≡ suc n)
            × Delivered n message (lookup addr pool.connections) (lookup addr pool'.connections)
            × Others addr pool pool'
      by_room s here alive zero none_left = (
        pool,
        rw (forward, here, try_send_full message s alive none_left) refl,
        max,
        dropped s here (alive, none_left) refl,
        λ other h. refl,
      )
      by_room s here alive (suc k) some_left =
          let (t, e, q, r, c) = try_send_sent message s k alive some_left in
          (
            stored addr t pool,
            rw (forward, here, e) refl,
            max,
            forwarded s t k here (alive, some_left) (lookup-insert addr t pool.connections)
                (q, r, c),
            λ other h. lookup-insert_other addr other t pool.connections h,
          )

  -- What an event means for the channel to the address `addr`.
  abbrev pub Own : ℕ → SocketAddr → Event S → Option S → Option S → Type 0
  Own n addr (outgoing message to) before after =
      (to ≡ addr → Delivered n message before after) × (to ≢ addr → after ≡ before)
  Own n addr (served at change) before after =
      (at ≡ addr → after ≡ map change before) × (at ≢ addr → after ≡ before)

  -- What events mean for it, one after the other.
  abbrev pub Alone : ℕ → SocketAddr → List (Event S) → Option S → Option S → Type 0
  Alone n addr [] before after = after ≡ before
  Alone n addr (event ∷ events) before after =
      (next : Option S) × Own n addr event before next × Alone n addr events next after

  step_lem :
      (event : Event S) (pool : State) (n : ℕ)
      → pool.max_outstanding_requests ≡ suc n
      → (pool' : State) × (step mpsc ingress event pool ≡ ok pool')
        × (pool'.max_outstanding_requests ≡ suc n)
        × ((addr : SocketAddr)
            → Own n addr event (lookup addr pool.connections) (lookup addr pool'.connections))
  step_lem (outgoing message to) pool n max =
      let (pool', e, m, d, o) = forward_lem message to pool n max in
      (
        pool',
        e,
        m,
        λ addr. (
          λ same.
              subst
                (λ a. Delivered n message (lookup a pool.connections) (lookup a pool'.connections))
                same d,
          λ apart. o addr apart,
        ),
      )
  step_lem (served at change) pool n max = elim (Option-cases (lookup at pool.connections)) [
    | inl absent ↦ (
      pool,
      rw absent refl,
      max,
      λ addr. (
        λ same.
            let nothing : lookup addr pool.connections ≡ none =
              subst (λ a. lookup a pool.connections ≡ none) same absent in
            rw nothing refl,
        λ apart. refl,
      ),
    )
    | inr (s, here) ↦ (
      stored at (change s) pool,
      rw here refl,
      max,
      λ addr. (
        λ same.
            subst
              (λ a.
                lookup a (insert at (change s) pool.connections)
                ≡ map change (lookup a pool.connections))
              same (lookup-insert at (change s) pool.connections ∙ sym (ap (map change) here)),
        λ apart. lookup-insert_other at addr (change s) pool.connections apart,
      ),
    )
  ]

  -- From any state of a pool for one outstanding request or more, `run` never panics, and the
  -- channel to each address goes its own way, whatever is sent to the others: a message to the
  -- address goes behind those that wait in an open channel with room, is dropped where that is
  -- full, and is the first in a new channel where there is none or its task is gone; other changes
  -- are those of its task.
  pub run-Alone :
      (events : List (Event S)) (pool : State) (n : ℕ)
      → pool.max_outstanding_requests ≡ suc n
      → (pool' : State) × (run mpsc ingress events pool ≡ ok pool')
        × ((addr : SocketAddr)
            → Alone n addr events (lookup addr pool.connections) (lookup addr pool'.connections))
  unfolding run
  run-Alone [] pool n max = (pool, refl, λ addr. refl)
  run-Alone (event ∷ events) pool n max =
      let (pool1, e, m, own) = step_lem event pool n max in
      let (pool2, f, alone) = run-Alone events pool1 n m in
      (pool2, rw (run, e) f, λ addr. (lookup addr pool1.connections, own addr, alone addr))
