-- ===== src/Client/Manager/Expiry.antt =====
-- Requests that are never answered: what a chain of calls of `handle_timeouts` comes to.
use mstun.Base.{
  ℕ, zero, suc, ◌-◌, ◌≤◌, ◌≡◌, refl, ap, ◌∙◌, arith, List, [], ◌∷◌, Option, none, some, Outcome, ok,
  err, panic, stuck, ◌>>=◌, leb, ◌==◌, inl, inr, All,
}
use mstun.Base.Bytes.{bytes_eq, bytes_eq_refl}
use mstun.Base.Tally.{bit, total}
use mstun.Extern.Channel.{AsyncSender}
use mstun.Core.Message.{Message}
use mstun.Core.Attributes.SocketAddr.{SocketAddr}
use mstun.Client.{TransactionError, channel_closed}
use mstun.Client.Rto.{RtoPolicy}
use mstun.Client.Manager.{
  PendingTimeout, Requests, Indication, Manager, pop_earliest, handle_timeouts, next_timeout,
}
use mstun.Client.Manager.Tables.{has_key, has_tid, Popped, pop_earliest-Popped}
use mstun.Client.Manager.Invariant.{GivesUp, Matched, WellFormed, sinks}
use mstun.Client.Manager.Rounds.{remaining_timeouts}
use mstun.Client.Manager.Timeouts.{Finished, due, handle_timeouts-Finished}

nothing_outstanding :
    (pts : List PendingTimeout) (entries : Requests) → Matched pts entries → pts ≡ [] → entries ≡ []
nothing_outstanding pts [] h e = refl
nothing_outstanding pts ((tid, r) ∷ entries) h e =
    let none_left : total (has_tid tid) pts ≡ 0 = ap (total (has_tid tid)) e in
    let one : bit (bytes_eq tid tid) ≡ 1 = rw (bytes_eq_refl tid) refl in
    absurd (omega (arith, (h tid).0, none_left, one))

nothing_pending :
    (pts : List PendingTimeout) (entries : Requests) → Matched pts entries → entries ≡ [] → pts ≡ []
nothing_pending [] entries h e = refl
nothing_pending (pt ∷ pts) entries h e =
    let none_left : total (has_key pt.tid) entries ≡ 0 = ap (total (has_key pt.tid)) e in
    let one : bit (bytes_eq pt.tid pt.tid) ≡ 1 = rw (bytes_eq_refl pt.tid) refl in
    absurd (omega (arith, (h pt.tid).0, none_left, one))

module _ {P S I : Type 0} (policy : RtoPolicy P) (egress : AsyncSender S (Message × SocketAddr))
    (indications : AsyncSender I Indication) (Fine : P → Type 0) (limit : ℕ)
    (gives_up : GivesUp policy Fine limit) where
  abbrev State : Type 0
  State = Manager P S I

  abbrev Handled : Type 0
  Handled = Outcome (TransactionError × State) State

  -- How many timeouts the outstanding requests can still have.
  abbrev remaining : State → ℕ
  remaining = remaining_timeouts policy egress indications Fine limit gives_up

  -- One call, with enough fuel.
  abbrev pub handled : (ℕ → ℕ) → State → Handled
  handled clock m = handle_timeouts policy egress indications (suc (remaining m)) clock m

  -- Calls with nothing between them; `clocks n` is what the clock reads during the call that `n`
  -- calls follow.
  abbrev pub wait_out : ℕ → (ℕ → ℕ → ℕ) → State → Handled
  wait_out zero clocks m = ok m
  wait_out (suc n) clocks m = handled (clocks n) m >>= wait_out n clocks

  -- Each call comes when the next timeout is over, as `Processor::run` makes it.
  abbrev pub Punctual : ℕ → (ℕ → ℕ → ℕ) → State → Type 0
  Punctual zero clocks m = Unit {0}
  Punctual (suc n) clocks m =
      ((t : ℕ) → next_timeout policy egress indications m ≡ some t → t ≤ clocks n 0)
      × ((m' : State) → handled (clocks n) m ≡ ok m' → Punctual n clocks m')

  -- How often a sender was used.
  abbrev pub used : ℕ → State → ℕ
  used o m = total (λ a. bit (a.0 == o)) m.answers

  -- No request waits any more, and all senders that waited in `m` have been used.
  abbrev pub AllAnswered : State → Handled → Type 0
  AllAnswered m (ok m') =
      (m'.outstanding_requests ≡ [])
      × (m'.pending_timeouts ≡ [])
      × ((o : ℕ) → used o m' ≡ sinks o m)
  AllAnswered m (err (e, m')) = e ≡ channel_closed
  AllAnswered m panic = ⊥
  AllAnswered m stuck = ⊥

  none_remaining :
      (entries : Requests)
      → All (λ e. e.1.attempts_made ≤ limit) entries
      → total (λ e. suc limit - e.1.attempts_made) entries ≡ 0
      → entries ≡ []
  none_remaining [] h e = refl
  none_remaining (entry ∷ entries) h e = absurd (omega (arith, h.0))

  answered_at_once :
      (m : State) → WellFormed Fine limit m → m.outstanding_requests ≡ [] → AllAnswered m (ok m)
  answered_at_once m h e = (
    e,
    nothing_pending m.pending_timeouts m.outstanding_requests h.matched e,
    λ o. omega (arith, ap (total (λ r. bit (r.1.response_sink == o))) e),
  )

  -- Nothing is due at a time at or after the next timeout only where none is pending.
  idle_pending :
      (m : State) (now : ℕ)
      → ((t : ℕ) → next_timeout policy egress indications m ≡ some t → t ≤ now)
      → total (due policy egress indications Fine limit gives_up now) m.pending_timeouts ≡ 0
      → m.pending_timeouts ≡ []
  unfolding next_timeout
  idle_pending m now punctual idle =
      popped (pop_earliest m.pending_timeouts) (pop_earliest-Popped m.pending_timeouts) refl
    where
      popped :
          (p : Option (PendingTimeout × List PendingTimeout))
          → Popped m.pending_timeouts p
          → pop_earliest m.pending_timeouts ≡ p
          → m.pending_timeouts ≡ []
      popped none pop e = pop
      popped (some (first, others)) (split, order) e =
          let over : first.timeout_at ≤ now =
            punctual first.timeout_at (rw (next_timeout, e) refl) in
          let counted : bit (leb first.timeout_at now) ≡ 1 = ground arith in
          absurd (omega (arith, split (λ pt. bit (leb pt.timeout_at now)), counted, idle))

  AllAnswered-later :
      (m m1 : State) (result : Handled)
      → ((o : ℕ) → sinks o m1 ≡ sinks o m)
      → AllAnswered m1 result
      → AllAnswered m result
  AllAnswered-later m m1 (ok m') s (p, q, r) = (p, q, λ o. r o ∙ s o)
  AllAnswered-later m m1 (err (e, m')) s a = a
  AllAnswered-later m m1 panic s a = a
  AllAnswered-later m m1 stuck s a = a

  -- From a well-formed state, with a policy that gives up, and if no response comes, every request
  -- is answered in the end: as many calls as there can be timeouts, each when the next timeout is
  -- over, leave no request outstanding and no timeout, and each sender has been used as often as it
  -- was used or waited before; or the transport is gone.
  pub wait_out-AllAnswered :
      (n : ℕ) (clocks : ℕ → ℕ → ℕ) (m : State)
      → WellFormed Fine limit m
      → remaining m ≤ n
      → Punctual n clocks m
      → AllAnswered m (wait_out n clocks m)
  wait_out-AllAnswered zero clocks m h few p =
      answered_at_once m h (none_remaining m.outstanding_requests h.attempts (omega arith))
  wait_out-AllAnswered (suc n) clocks m h few (punctual, later) =
      called (wait_out-AllAnswered n clocks) (handled (clocks n) m) refl
        (handle_timeouts-Finished policy egress indications Fine limit gives_up (clocks n) m h)
    where
      called :
          ((m1 : State)
            → WellFormed Fine limit m1
            → remaining m1 ≤ n
            → Punctual n clocks m1
            → AllAnswered m1 (wait_out n clocks m1))
          → (result : Handled) → handled (clocks n) m ≡ result
          → Finished policy egress indications Fine limit gives_up m (clocks n) result
          → AllAnswered m (result >>= wait_out n clocks)
      called ih (ok m1) e (wf, s, inl fewer, k, late) =
          AllAnswered-later m m1 _ s (ih m1 wf (omega arith) (later m1 e))
      called ih (ok m1) e (wf, s, inr (same, idle), k, late) =
          let empty =
            nothing_outstanding m.pending_timeouts m.outstanding_requests h.matched
              (idle_pending m (clocks n 0) punctual idle) in
          let none_left : remaining m ≡ 0 = ap (total (λ e. suc limit - e.1.attempts_made)) empty in
          let few1 : remaining m1 ≤ n = omega (arith, ap remaining same, none_left) in
          AllAnswered-later m m1 _ s (ih m1 wf few1 (later m1 e))
      called ih (err (e, m1)) p f = f.0
      called ih panic p f = f
      called ih stuck p f = f
