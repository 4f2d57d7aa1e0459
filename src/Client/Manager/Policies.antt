-- ===== src/Client/Manager/Policies.antt =====
-- The policies of rto.rs keep what the manager relies on.
use mstun.Base.{ℕ, ◌*◌, ◌^◌, ◌-◌, ◌≤◌, ◌≡◌, refl, sym, subst, arith, none}
use mstun.Client.Rto.{exponential_backoff, default_rto, duration_max}
use mstun.Client.Rto.Schedule.{timeout_of, calculate_rto-timeout_of}
use mstun.Client.Manager.Invariant.{GivesUp}

-- `DefaultExponentialBackoffFixedRtt` never panics, and gives up after 7 attempts.
pub default_backoff-GivesUp : GivesUp (exponential_backoff 7 16) (λ rto. rto ≡ default_rto) 7
default_backoff-GivesUp = record {
  at_least_one = omega arith;
  answers = λ addr n rto fine few. (
    timeout_of 7 16 rto n,
    rto,
    rw
        (calculate_rto-timeout_of 7 16 rto n (omega arith) (omega arith) (fits rto fine)
          (last_fits rto fine) few)
        refl,
    fine,
    at_last rto n,
  );
  keeps_fine = λ addr rtt rto fine. fine;
}
  where
    fits : (rto : ℕ) → rto ≡ default_rto → rto * 2 ^ (7 - 1) ≤ duration_max
    fits rto e = subst (λ (d : ℕ). d * 2 ^ (7 - 1) ≤ duration_max) (sym e) (omega arith)

    last_fits : (rto : ℕ) → rto ≡ default_rto → rto * 16 ≤ duration_max
    last_fits rto e = omega arith

    at_last : (rto n : ℕ) → n ≡ 7 → timeout_of 7 16 rto n ≡ none
    at_last rto n e = ground arith
