-- ===== src/Client/Manager/Timeouts.antt =====
-- The timeouts that `handle_timeouts` finds due.
use mstun.Base.{
  ℕ, zero, suc, ◌+◌, ◌≤◌, ◌<◌, ◌≡◌, refl, sym, ap, ◌⊎◌, subst, ◌∙◌, arith, false, Option, none,
  some, List, [], ◌∷◌, leb, Bool-cases, inl, inr, All, Outcome, ok, err, panic, stuck, ◌>>=◌,
}
use mstun.Base.Tally.{bit, total}
use mstun.Extern.Channel.{AsyncSender}
use mstun.Core.Message.{Message}
use mstun.Core.Attributes.SocketAddr.{SocketAddr}
use mstun.Client.{TransactionError, channel_closed}
use mstun.Client.Rto.{RtoPolicy}
use mstun.Client.Manager.{
  PendingTimeout, Indication, Manager, lookup, pop_earliest, handle_timeouts,
}
use mstun.Client.Manager.Tables.{Popped, pop_earliest-Popped}
use mstun.Client.Manager.Rounds.{remaining_timeouts, Round, round-Round}
use mstun.Client.Manager.Invariant.{GivesUp, WellFormed, sinks}

module _ {P S I : Type 0} (policy : RtoPolicy P) (egress : AsyncSender S (Message × SocketAddr))
    (indications : AsyncSender I Indication) (Fine : P → Type 0) (limit : ℕ)
    (gives_up : GivesUp policy Fine limit) where
  abbrev Handled : Type 0
  Handled = Outcome (TransactionError × Manager P S I) (Manager P S I)

  abbrev remaining : Manager P S I → ℕ
  remaining = remaining_timeouts policy egress indications Fine limit gives_up

  -- Whether the timeout lies at or before the time.
  abbrev pub due : ℕ → PendingTimeout → ℕ
  due now pt = bit (leb pt.timeout_at now)

  -- There are fewer timeouts to come, or nothing was due.
  abbrev pub Progress : Manager P S I → ℕ → Manager P S I → Type 0
  Progress m now m' =
      (remaining m' < remaining m) ⊎ ((m' ≡ m) × (total (due now) m.pending_timeouts ≡ 0))

  -- What a call that starts in `m` may come to. The last time read lies before every timeout left.
  abbrev pub Finished : Manager P S I → (ℕ → ℕ) → Handled → Type 0
  Finished m clock (ok m') =
      WellFormed Fine limit m'
      × ((o : ℕ) → sinks o m' ≡ sinks o m)
      × Progress m (clock 0) m'
      × (k : ℕ) × All (λ pt. clock k < pt.timeout_at) m'.pending_timeouts
  Finished m clock (err (e, m')) = (e ≡ channel_closed) × ((o : ℕ) → sinks o m' ≡ sinks o m)
  Finished m clock panic = ⊥
  Finished m clock stuck = ⊥

  Finished-later :
      (m m1 : Manager P S I) (clock : ℕ → ℕ) (result : Handled)
      → ((o : ℕ) → sinks o m1 ≡ sinks o m)
      → remaining m1 < remaining m
      → Finished m1 (λ k. clock (k + 2)) result
      → Finished m clock result
  Finished-later m m1 clock (ok m') s fewer (h, t, p, k, late) =
      (h, (λ o. t o ∙ s o), inl (still_fewer p), k + 2, late)
    where
      still_fewer : Progress m1 (clock 2) m' → remaining m' < remaining m
      still_fewer (inl q) = omega arith
      still_fewer (inr (q, none_left)) = omega (arith, ap remaining q)
  Finished-later m m1 clock (err (e, m')) s fewer (c, t) = (c, (λ o. t o ∙ s o))
  Finished-later m m1 clock panic s fewer h = h
  Finished-later m m1 clock stuck s fewer h = h

  none_due :
      (now b : ℕ) (pts : List PendingTimeout)
      → now < b
      → All (λ pt. b ≤ pt.timeout_at) pts
      → total (due now) pts ≡ 0
  none_due now b [] h k = refl
  none_due now b (pt ∷ pts) h k = ground (arith, k.0, none_due now b pts h k.1)

  All-none_due :
      (now : ℕ) (pts : List PendingTimeout)
      → total (due now) pts ≡ 0
      → All (λ pt. now < pt.timeout_at) pts
  All-none_due now [] h = tt
  All-none_due now (pt ∷ pts) h = (ground arith, All-none_due now pts (ground arith))

  -- The loop with a bound on the timeouts to come as its fuel.
  pub handle_timeouts-fuel :
      (fuel : ℕ) (clock : ℕ → ℕ) (m : Manager P S I)
      → WellFormed Fine limit m
      → remaining m < fuel
      → Finished m clock (handle_timeouts policy egress indications fuel clock m)
  unfolding handle_timeouts
  handle_timeouts-fuel zero clock m h enough = absurd (omega arith)
  handle_timeouts-fuel (suc fuel) clock m h enough =
      popped (handle_timeouts-fuel fuel (λ k. clock (k + 2))) (pop_earliest m.pending_timeouts)
        (pop_earliest-Popped m.pending_timeouts) refl
    where
      -- The loop from the next round on.
      Rest : Type 0
      Rest =
          (m1 : Manager P S I)
          → WellFormed Fine limit m1
          → remaining m1 < fuel
          → Finished m1 (λ k. clock (k + 2))
              (handle_timeouts policy egress indications fuel (λ k. clock (k + 2)) m1)

      all_later :
          (first : PendingTimeout) (others : List PendingTimeout)
          → Popped m.pending_timeouts (some (first, others))
          → leb first.timeout_at (clock 0) ≡ false
          → total (due (clock 0)) m.pending_timeouts ≡ 0
      all_later first others (split, order) later =
          let above : clock 0 < first.timeout_at = ground arith in
          let first_later : due (clock 0) first ≡ 0 = rw later refl in
          omega (
            arith,
            split (due (clock 0)),
            none_due (clock 0) first.timeout_at others above order,
            first_later,
          )

      chained :
          Rest
          → (round : Handled) → Round policy egress indications Fine limit gives_up m round
          → Finished m clock (
              round
              >>= (λ m'. handle_timeouts policy egress indications fuel (λ k. clock (k + 2)) m'))
      chained rest (ok m1) (wf, s, fewer) =
          Finished-later m m1 clock _ s fewer (rest m1 wf (omega arith))
      chained rest (err (e, m1)) r = r
      chained rest panic r = absurd r
      chained rest stuck r = absurd r

      popped :
          Rest
          → (p : Option (PendingTimeout × List PendingTimeout)) → Popped m.pending_timeouts p
          → pop_earliest m.pending_timeouts ≡ p
          → Finished m clock (handle_timeouts policy egress indications (suc fuel) clock m)
      popped rest none pop e =
          rw (handle_timeouts, e)
            (
              h,
              (λ o. refl),
              inr (refl, ap (total (due (clock 0))) pop),
              0,
              subst (All (λ pt. clock 0 < pt.timeout_at)) (sym pop) tt,
            )
      popped rest (some (first, others)) pop e =
          elim (Bool-cases (leb first.timeout_at (clock 0))) [
            | inl now ↦
                rw (handle_timeouts, e, now)
                  (chained rest _ (
                    round-Round policy egress indications Fine limit gives_up (clock 1) first others
                      m (lookup first.tid m.outstanding_requests) h pop.0 refl))
            | inr later ↦
                rw (handle_timeouts, e, later)
                  (
                    h,
                    (λ o. refl),
                    inr (refl, all_later first others pop later),
                    0,
                    All-none_due (clock 0) m.pending_timeouts (all_later first others pop later),
                  )
          ]

  -- With fuel for the timeouts that the outstanding requests can still have, and a policy that gives
  -- up, the loop ends, whatever the clock reads: it finds a request for each timeout, and returns a
  -- well-formed state where every timeout lies behind a time that was read, and there are fewer
  -- timeouts to come unless nothing was due, or the transport is gone.
  -- Either way each sender has been used or waits as often as before.
  pub handle_timeouts-Finished :
      (clock : ℕ → ℕ) (m : Manager P S I)
      → WellFormed Fine limit m
      → Finished m clock (handle_timeouts policy egress indications (suc (remaining m)) clock m)
  handle_timeouts-Finished clock m h = handle_timeouts-fuel _ clock m h (omega arith)
