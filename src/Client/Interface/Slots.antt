-- ===== src/Client/Interface/Slots.antt =====
-- The slots of a `RequestSender`: its calls of `send_request` run side by side, and each holds a slot
-- from `acquire` until it returns or its future is dropped.
use mstun.Base.{
  ℕ, zero, suc, ◌+◌, ◌≤◌, ◌≡◌, refl, sym, ap, ◌∙◌, arith, List, [], ◌∷◌, ◌++◌, Option, none, some,
  err,
}
use mstun.Base.Tally.{total, total-append}
use mstun.Extern.Semaphore.{Semaphore}
use mstun.Client.{channel_closed}
use mstun.Client.Manager.{Answer}
use mstun.Client.Interface.{received}

-- Where a call is: at `acquire`, at `send` of the manager's channel, at the oneshot receiver, or
-- done with its result; or dropped at the oneshot receiver, when the manager still has its request.
pub data Phase : Type 0 where
  acquiring sending receiving abandoned : Phase
  returned : Answer → Phase

-- The slots that a call holds.
abbrev pub slots_of : Phase → ℕ
slots_of acquiring = 0
slots_of sending = 1
slots_of receiving = 1
slots_of abandoned = 0
slots_of (returned answer) = 0

-- The requests that the manager has been sent for a call and has not answered.
abbrev pub unanswered_of : Phase → ℕ
unanswered_of receiving = 1
unanswered_of abandoned = 1
unanswered_of _ = 0

abbrev pub left_of : Phase → ℕ
left_of abandoned = 1
left_of _ = 0

unanswered_of-le : (phase : Phase) → unanswered_of phase ≤ slots_of phase + left_of phase
unanswered_of-le acquiring = omega arith
unanswered_of-le sending = omega arith
unanswered_of-le receiving = omega arith
unanswered_of-le abandoned = omega arith
unanswered_of-le (returned answer) = omega arith

module _ {P : Type 0} (semaphore : Semaphore P) where
  open semaphore use {available, acquire, release, acquire_none, acquire_some, available-release}

  pub record Calls : Type 0 where
    pub request_slots : P
    pub phases : List Phase

  -- One call goes on by one await, or a future is made or dropped.
  pub data Step (c d : Calls) : Type 0 where
    called : d ≡ record c { phases = acquiring ∷ c.phases } → Step c d
    acquired :
        (before after : List Phase) (p : P)
        → c.phases ≡ before ++ acquiring ∷ after
        → acquire c.request_slots ≡ some p
        → d ≡ record { request_slots = p; phases = before ++ sending ∷ after }
        → Step c d
    sent :
        (before after : List Phase)
        → c.phases ≡ before ++ sending ∷ after
        → d ≡ record c { phases = before ++ receiving ∷ after }
        → Step c d
    not_sent :
        (before after : List Phase)
        → c.phases ≡ before ++ sending ∷ after
        → d ≡ record {
          request_slots = release c.request_slots;
          phases = before ++ returned (err channel_closed) ∷ after;
        }
        → Step c d
    answered :
        (before after : List Phase) (answer : Option Answer)
        → c.phases ≡ before ++ receiving ∷ after
        → d ≡ record {
          request_slots = release c.request_slots;
          phases = before ++ returned (received answer) ∷ after;
        }
        → Step c d
    dropped_early :
        (before after : List Phase)
        → c.phases ≡ before ++ acquiring ∷ after
        → d ≡ record c { phases = before ++ after }
        → Step c d
    dropped_sending :
        (before after : List Phase)
        → c.phases ≡ before ++ sending ∷ after
        → d ≡ record { request_slots = release c.request_slots; phases = before ++ after }
        → Step c d
    -- its slot is given back, and its request stays with the manager
    dropped_receiving :
        (before after : List Phase)
        → c.phases ≡ before ++ receiving ∷ after
        → d
          ≡ record { request_slots = release c.request_slots; phases = before ++ abandoned ∷ after }
        → Step c d
    -- the manager answers such a request, and no one is told
    forgotten :
        (before after : List Phase)
        → c.phases ≡ before ++ abandoned ∷ after
        → d ≡ record c { phases = before ++ after }
        → Step c d

  pub data Reach (start : Calls) : Calls → Type 0 where
    here : Reach start start
    next : {c d : Calls} → Reach start c → Step c d → Reach start d

  abbrev pub held : List Phase → ℕ
  held = total slots_of

  abbrev pub unanswered : List Phase → ℕ
  unanswered = total unanswered_of

  -- The requests of calls that were dropped behind sending them.
  abbrev pub left_behind : List Phase → ℕ
  left_behind = total left_of

  unanswered-le : (phases : List Phase) → unanswered phases ≤ held phases + left_behind phases
  unanswered-le [] = omega arith
  unanswered-le (phase ∷ phases) = omega (arith, unanswered_of-le phase, unanswered-le phases)

  -- What the permits and the slots that are held come to.
  abbrev pub all_slots : Calls → ℕ
  all_slots c = available c.request_slots + held c.phases

  held-middle :
      (before after : List Phase) (phase : Phase)
      → held (before ++ phase ∷ after) ≡ held before + (slots_of phase + held after)
  held-middle before after phase = total-append slots_of before (phase ∷ after)

  acquired_one : (p q : P) → acquire p ≡ some q → available p ≡ available q + 1
  acquired_one p q e = by_available (available p) refl
    where
      by_available : (n : ℕ) → available p ≡ n → available p ≡ available q + 1
      by_available zero z = absurd (never (sym (acquire_none p z) ∙ e))
        where
          never : {a : P} → none ≡ some a → ⊥
          never h = cc
      by_available (suc n) z =
          let (r, f, g) = acquire_some p n z in
          let same : available q ≡ n = ap available (some_inj (sym e ∙ f)) ∙ g in omega arith
        where
          some_inj : {a b : P} → some a ≡ some b → a ≡ b
          some_inj h = cc

  -- A call that held a slot gives it back, and holds none any more.
  freed :
      (c d : Calls) (before after : List Phase) (phase phase' : Phase)
      → slots_of phase ≡ 1
      → slots_of phase' ≡ 0
      → c.phases ≡ before ++ phase ∷ after
      → d ≡ record { request_slots = release c.request_slots; phases = before ++ phase' ∷ after }
      → all_slots d ≡ all_slots c
  freed c d before after phase phase' one none_held h e = omega (
    arith,
    ap all_slots e,
    ap held h,
    held-middle before after phase,
    held-middle before after phase',
    available-release c.request_slots,
  )

  all_slots-Step : (c d : Calls) → Step c d → all_slots d ≡ all_slots c
  all_slots-Step c d (called e) = omega (arith, ap all_slots e)
  all_slots-Step c d (acquired before after p h k e) = omega (
    arith,
    ap all_slots e,
    ap held h,
    held-middle before after acquiring,
    held-middle before after sending,
    acquired_one c.request_slots p k,
  )
  all_slots-Step c d (sent before after h e) = omega (
    arith,
    ap all_slots e,
    ap held h,
    held-middle before after sending,
    held-middle before after receiving,
  )
  all_slots-Step c d (not_sent before after h e) =
      freed c d before after sending (returned (err channel_closed)) refl refl h e
  all_slots-Step c d (answered before after answer h e) =
      freed c d before after receiving (returned (received answer)) refl refl h e
  all_slots-Step c d (dropped_early before after h e) = omega (
    arith,
    ap all_slots e,
    ap held h,
    held-middle before after acquiring,
    total-append slots_of before after,
  )
  all_slots-Step c d (dropped_sending before after h e) = omega (
    arith,
    ap all_slots e,
    ap held h,
    held-middle before after sending,
    total-append slots_of before after,
    available-release c.request_slots,
  )
  all_slots-Step c d (dropped_receiving before after h e) =
      freed c d before after receiving abandoned refl refl h e
  all_slots-Step c d (forgotten before after h e) = omega (
    arith,
    ap all_slots e,
    ap held h,
    held-middle before after abandoned,
    total-append slots_of before after,
  )

  all_slots-Reach : {c d : Calls} → Reach c d → all_slots d ≡ all_slots c
  all_slots-Reach here = refl
  all_slots-Reach (next {c} {d} r s) = all_slots-Step c d s ∙ all_slots-Reach r

  -- From a sender with all its permits and no calls: however calls run side by side, return early
  -- or are dropped, the slots that they hold and the permits that are left make up the maximum, so
  -- that no permit is lost; and a call that has to wait waits for calls that hold all of them. The
  -- manager has not more unanswered requests of the sender than the maximum and those of calls
  -- that were dropped while they waited for their answer.
  pub request_slots-Reach :
      (c d : Calls) (max_outstanding_requests : ℕ)
      → available c.request_slots ≡ max_outstanding_requests
      → c.phases ≡ []
      → Reach c d
      → (held d.phases + available d.request_slots ≡ max_outstanding_requests)
        × (acquire d.request_slots ≡ none → held d.phases ≡ max_outstanding_requests)
        × (unanswered d.phases ≤ max_outstanding_requests + left_behind d.phases)
  request_slots-Reach c d max full empty r = (
    sum,
    (λ waits. all_held (available d.request_slots) refl waits),
    omega (arith, sum, unanswered-le d.phases),
  )
    where
      sum : held d.phases + available d.request_slots ≡ max
      sum = omega (arith, all_slots-Reach r, ap held empty)

      all_held :
          (n : ℕ)
          → available d.request_slots ≡ n
          → acquire d.request_slots ≡ none
          → held d.phases ≡ max
      all_held zero z waits = omega (arith, sum)
      all_held (suc n) z waits =
          let (q, e, f) = acquire_some d.request_slots n z in absurd (never (sym waits ∙ e))
        where
          never : {a : P} → none ≡ some a → ⊥
          never h = cc
