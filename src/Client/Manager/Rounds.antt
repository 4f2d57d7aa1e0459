-- ===== src/Client/Manager/Rounds.antt =====
-- One timeout that `handle_timeouts` finds due.
use mstun.Base.{
  ℕ, suc, ◌+◌, ◌-◌, ◌≤◌, ◌<◌, ◌≡◌, refl, arith, Option, none, some, List, [], ◌∷◌, ◌==◌, Outcome,
  ok, err, panic, stuck,
}
use mstun.Base.Bytes.{bytes_eq_refl}
use mstun.Base.Tally.{bit, total, total-append, All-filter}
use mstun.Extern.Channel.{AsyncSender}
use mstun.Core.Message.{Message}
use mstun.Core.Attributes.SocketAddr.{SocketAddr}
use mstun.Client.{TransactionError, timeout, channel_closed}
use mstun.Client.Rto.{RtoPolicy}
use mstun.Client.Manager.{
  Request, PendingTimeout, Indication, Requests, Manager, lookup, insert, expire, send_then,
  timeout_round,
}
use mstun.Client.Manager.Tables.{has_key, has_tid, lookup-none, lookup-All, total-remove}
use mstun.Client.Manager.Invariant.{GivesUp, WellFormed, sinks, popped-removed, entered}

module _ {P S I : Type 0} (policy : RtoPolicy P) (egress : AsyncSender S (Message × SocketAddr))
    (indications : AsyncSender I Indication) (Fine : P → Type 0) (limit : ℕ)
    (gives_up : GivesUp policy Fine limit) where
  abbrev pub Handled : Type 0
  Handled = Outcome (TransactionError × Manager P S I) (Manager P S I)

  -- How many timeouts the outstanding requests can still have.
  abbrev pub remaining_timeouts : Manager P S I → ℕ
  remaining_timeouts m = total (λ e. suc limit - e.1.attempts_made) m.outstanding_requests

  -- A round is done, with fewer timeouts to come, or the transport is gone.
  abbrev pub Round : Manager P S I → Handled → Type 0
  Round m (ok m') =
      WellFormed Fine limit m'
      × ((o : ℕ) → sinks o m' ≡ sinks o m)
      × (remaining_timeouts m' < remaining_timeouts m)
  Round m (err (e, m')) = (e ≡ channel_closed) × ((o : ℕ) → sinks o m' ≡ sinks o m)
  Round m panic = ⊥
  Round m stuck = ⊥

  -- The state while a timeout is popped.
  abbrev without : Manager P S I → List PendingTimeout → P → Manager P S I
  without m others p = record m { pending_timeouts = others; rto_policy = p }

  expire-Round :
      (now : ℕ) (first : PendingTimeout) (others : List PendingTimeout) (r : Request)
      (next : Option ℕ) (p : P) (m : Manager P S I)
      → WellFormed Fine limit m
      → ((w : PendingTimeout → ℕ) → total w m.pending_timeouts ≡ w first + total w others)
      → lookup first.tid m.outstanding_requests ≡ some r
      → Fine p
      → (r.attempts_made ≡ limit → next ≡ none)
      → Round m (expire policy egress indications now first r next (without m others p))
  unfolding expire
  expire-Round now first others r none p m h split found fine last =
      let tid = first.tid in
      let es = m.outstanding_requests in
      let unique : total (has_key tid) es ≤ 1 = omega (arith, h.matched tid) in
      (
        record {
          matched = popped-removed m.pending_timeouts others first es h.matched split;
          attempts = All-filter _ _ es h.attempts;
          fine = fine;
        },
        λ o. omega (
          arith,
          total-append (λ a. bit (a.0 == o)) m.answers ((r.response_sink, err timeout) ∷ []),
          total-remove (λ r. bit (r.response_sink == o)) tid es r found unique,
        ),
        omega (
          arith,
          total-remove (λ r. suc limit - r.attempts_made) tid es r found unique,
          lookup-All (λ e. e.1.attempts_made ≤ limit) tid es r h.attempts found,
        ),
      )
  expire-Round now first others r (some next_rto) p m h split found fine last =
      sent_Round (egress.send _ m.egress_sink)
    where
      es : Requests
      es = m.outstanding_requests

      unique : total (has_key first.tid) es ≤ 1
      unique = omega (arith, h.matched first.tid)

      few : r.attempts_made ≤ limit
      few = lookup-All (λ e. e.1.attempts_made ≤ limit) first.tid es r h.attempts found

      fewer : r.attempts_made < limit
      fewer = below (λ e. never (last e))
        where
          never : some next_rto ≡ none → ⊥
          never p = cc

          below : (r.attempts_made ≡ limit → ⊥) → r.attempts_made < limit
          below apart = ground (arith, few)

      r' : Request
      r' = record r { attempts_made = r.attempts_made + 1 }

      gone : total (has_tid first.tid) others ≡ 0
      gone =
          let one : has_tid first.tid first ≡ 1 = rw (bytes_eq_refl first.tid) refl in
          omega (arith, split (has_tid first.tid), (h.matched first.tid).1, one)

      again : S → Manager P S I
      again egress_sink = record m {
        egress_sink = egress_sink;
        rto_policy = p;
        outstanding_requests = insert first.tid r' es;
        pending_timeouts = record { timeout_at = now + next_rto; tid = first.tid } ∷ others;
      }

      sent_Round :
          (sent : Option S)
          → Round m (send_then policy egress indications sent again (without m others p))
      sent_Round none = (refl, λ o. refl)
      sent_Round (some s) = (
        record {
          matched =
              entered others es first.tid (now + next_rto) r'
                (popped-removed m.pending_timeouts others first es h.matched split) gone;
          attempts = (omega (arith, fewer), All-filter _ _ es h.attempts);
          fine = fine;
        },
        λ o.
            omega
              (arith, total-remove (λ r. bit (r.response_sink == o)) first.tid es r found unique),
        omega (
          arith,
          total-remove (λ r. suc limit - r.attempts_made) first.tid es r found unique,
          fewer,
        ),
      )

  pub round-Round :
      (now : ℕ) (first : PendingTimeout) (others : List PendingTimeout) (m : Manager P S I)
      (found : Option Request)
      → WellFormed Fine limit m
      → ((w : PendingTimeout → ℕ) → total w m.pending_timeouts ≡ w first + total w others)
      → lookup first.tid m.outstanding_requests ≡ found
      → Round m (
          timeout_round policy egress indications now first found
            (record m { pending_timeouts = others }))
  unfolding timeout_round
  round-Round now first others m none h split found =
      let one : has_tid first.tid first ≡ 1 = rw (bytes_eq_refl first.tid) refl in
      absurd (
        omega (
          arith,
          one,
          split (has_tid first.tid),
          h.matched first.tid,
          lookup-none first.tid m.outstanding_requests found,
        ))
  round-Round now first others m (some r) h split found =
      let (next, p, calculated, fine, last) =
        gives_up.answers r.destination_addr r.attempts_made m.rto_policy h.fine (
          lookup-All (λ e. e.1.attempts_made ≤ limit) first.tid m.outstanding_requests r h.attempts
            found) in
      rw calculated (expire-Round now first others r next p m h split found fine last)
