-- ===== src/Server/Processor/Tasks.antt =====
-- The tasks that `Processor::run` spawns, which finish in any order. A handler's one effect is on the
-- transport's channel, so a task is a step.
use mstun.Base.{
  ℕ, ◌+◌, ◌≡◌, refl, sym, ap, ◌∙◌, subst, arith, false, List, [], ◌∷◌, ◌++◌, ok, err, panic, stuck,
  if◌then◌else◌, Bool-cases, inl, inr,
}
use mstun.Base.Tally.{total, total-append}
use mstun.Core.Message.{Message}
use mstun.Core.Message.Xor.{xor_socket_addr}
use mstun.Core.Attributes.SocketAddr.{SocketAddr}
use mstun.Server.Transactions
use mstun.Server.Transactions.{Request, Polled, pending, finished, ready, poll_next, is_request}
use mstun.Server.Processor.{Processor, handler_for}
use mstun.Server.Processor.Answers.{request_of}
use mstun.Server.Processor.Lookup.{ServedBy, ServedBy-cons}

-- The requests among these messages.
abbrev pub requests_of : List (Message × SocketAddr) → List Request
requests_of [] = []
requests_of (m ∷ messages) =
    if is_request m.0.header.class
    then request_of m ∷ requests_of messages
    else requests_of messages

count-append :
    (w : Request → ℕ) (xs ys : List (Message × SocketAddr))
    → total w (requests_of (xs ++ ys)) ≡ total w (requests_of xs) + total w (requests_of ys)
count-append w [] ys = omega arith
count-append w (m ∷ xs) ys = ground (arith, count-append w xs ys)

-- What `poll_next` takes of the requests that wait.
abbrev Takes : List Request → Polled → Type 0
Takes requests pending = requests ≡ []
Takes requests finished = ⊥
Takes requests (ready (ok r) rest) = requests ≡ r ∷ requests_of rest
Takes requests (ready (err e) rest) = ⊥
Takes requests (ready panic rest) = ⊥
Takes requests (ready stuck rest) = ⊥

poll_next-Takes :
    (messages : List (Message × SocketAddr))
    → Takes (requests_of messages) (poll_next false messages)
unfolding poll_next Transactions.new xor_socket_addr
poll_next-Takes [] = refl
poll_next-Takes (m ∷ messages) = elim (Bool-cases (is_request m.0.header.class)) [
  | inl request ↦ rw (poll_next, Transactions.new, request) refl
  | inr other ↦ rw (poll_next, other) (poll_next-Takes messages)
]

module _ {S : Type 0} (processor : Processor S) where
  abbrev pub handle : Request → S → S
  handle r = handler_for processor.handlers processor.default_handler r.method r

  -- Requests served one after the other.
  abbrev pub handle_all : List Request → S → S
  handle_all [] sink = sink
  handle_all (r ∷ requests) sink = handle_all requests (handle r sink)

  handle_all-append :
      (rs : List Request) (r : Request) (sink : S)
      → handle_all (rs ++ r ∷ []) sink ≡ handle r (handle_all rs sink)
  handle_all-append [] r sink = refl
  handle_all-append (x ∷ rs) r sink = handle_all-append rs r (handle x sink)

  -- The messages that wait in the receiver's channel, the requests of the tasks that have not
  -- finished, and the transport's channel; the messages that came and the requests whose tasks have
  -- finished are kept for the record.
  pub record Serving : Type 0 where
    pub waiting : List (Message × SocketAddr)
    pub tasks : List Request
    pub sink : S
    pub received : List (Message × SocketAddr)
    pub served : List Request

  pub data Step (c d : Serving) : Type 0 where
    arrived :
        (m : Message × SocketAddr)
        → d ≡ record c { waiting = c.waiting ++ m ∷ []; received = c.received ++ m ∷ [] }
        → Step c d
    -- `run` gets a request and spawns its task
    spawned :
        (r : Request) (rest : List (Message × SocketAddr))
        → poll_next false c.waiting ≡ ready (ok r) rest
        → d ≡ record c { waiting = rest; tasks = r ∷ c.tasks }
        → Step c d
    -- `run` finds nothing but other messages
    passed_over : poll_next false c.waiting ≡ pending → d ≡ record c { waiting = [] } → Step c d
    finishes :
        (before : List Request) (r : Request) (after : List Request)
        → c.tasks ≡ before ++ r ∷ after
        → d ≡ record c {
          tasks = before ++ after;
          sink = handle r c.sink;
          served = c.served ++ r ∷ [];
        }
        → Step c d

  pub data Reach (start : Serving) : Serving → Type 0 where
    here : Reach start start
    next : {c d : Serving} → Reach start c → Step c d → Reach start d

  abbrev pub idle : S → Serving
  idle sink = record { waiting = []; tasks = []; sink = sink; received = []; served = [] }

  -- The channel is what serving these requests gives, and each request that came is served, in a
  -- task or waiting.
  abbrev Accounted : S → Serving → Type 0
  Accounted sink c =
      (c.sink ≡ handle_all c.served sink)
      × ((w : Request → ℕ)
          → total w c.served + (total w c.tasks + total w (requests_of c.waiting))
            ≡ total w (requests_of c.received))

  Step-Accounted : (s : S) (c d : Serving) → Step c d → Accounted s c → Accounted s d
  Step-Accounted s c d (arrived m e) (h, k) = subst (Accounted s) (sym e) (
    h,
    λ w. omega (arith, k w, count-append w c.waiting (m ∷ []), count-append w c.received (m ∷ [])),
  )
  Step-Accounted s c d (spawned r rest p e) (h, k) =
      let taken = subst (Takes (requests_of c.waiting)) p (poll_next-Takes c.waiting) in
      subst (Accounted s) (sym e) (h, λ w. omega (arith, k w, ap (total w) taken))
  Step-Accounted s c d (passed_over p e) (h, k) =
      let nothing = subst (Takes (requests_of c.waiting)) p (poll_next-Takes c.waiting) in
      subst (Accounted s) (sym e) (h, λ w. omega (arith, k w, ap (total w) nothing))
  Step-Accounted s c d (finishes before r after t e) (h, k) = subst (Accounted s) (sym e) (
    ap (handle r) h ∙ sym (handle_all-append c.served r s),
    λ w. omega (
      arith,
      k w,
      ap (total w) t,
      total-append w before (r ∷ after),
      total-append w before after,
      total-append w c.served (r ∷ []),
    ),
  )

  pub handle_all-Reach :
      (sink : S) (c : Serving)
      → Reach (idle sink) c
      → (c.sink ≡ handle_all c.served sink)
        × ((w : Request → ℕ)
            → total w c.served + (total w c.tasks + total w (requests_of c.waiting))
              ≡ total w (requests_of c.received))
  handle_all-Reach sink c here = (refl, λ w. refl)
  handle_all-Reach sink d (next {c} r s) = Step-Accounted sink c d s (handle_all-Reach sink c r)

  handle_all-ServedBy :
      (requests : List Request) (sink : S)
      → ServedBy processor requests sink (handle_all requests sink)
  handle_all-ServedBy [] sink = refl
  handle_all-ServedBy (r ∷ requests) sink =
      ServedBy-cons processor r requests sink _ (handle_all-ServedBy requests (handle r sink))

  -- From an idle processor, in whatever order tasks finish and messages come in between: some
  -- requests have been served one after the other, each by the handler that is registered for its
  -- method, or by the default one for a method without, and that is all that has happened to the
  -- transport's channel; these, the requests of open tasks and those that wait are the requests
  -- that came, each as often as it came.
  pub served-Reach :
      (sink : S) (c : Serving)
      → Reach (idle sink) c
      → (served : List Request) × ServedBy processor served sink c.sink
        × ((w : Request → ℕ)
            → total w served + (total w c.tasks + total w (requests_of c.waiting))
              ≡ total w (requests_of c.received))
  served-Reach sink c reach =
      let (same, all) = handle_all-Reach sink c reach in
      (c.served, rw same (handle_all-ServedBy c.served sink), all)
