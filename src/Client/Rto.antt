-- ===== src/Client/Rto.antt =====
-- stunny-client/src/rto.rs: the retransmission policies. A `Duration` is a number of nanoseconds;
-- none is a panic, as debug builds have it on overflow.
pub mod Schedule
use mstun.Base.{
  ℕ, zero, suc, ◌+◌, ◌-◌, ◌*◌, ◌%◌, ◌^◌, min, Bool, Option, none, some, ltb, ◌==◌, if◌then◌else◌,
}
use mstun.Core.Attributes.SocketAddr.{SocketAddr}

-- A panic ends the call.
infixl 5 ◌>>=◌
abbrev pub ◌>>=◌ : {A B : Type 0} → Option A → (A → Option B) → Option B
none >>= f = none
some a >>= f = f a

-- `trait RtoPolicy`, for a policy whose state has type `P`.
pub record RtoPolicy (P : Type 0) : Type 0 where
  pub submit_rtt : SocketAddr → ℕ → P → P
  pub calculate_rto : SocketAddr → ℕ → P → Option (Option ℕ × P)

-- `Duration::MAX`: 2^64 - 1 seconds and 999,999,999 nanoseconds
abbrev pub duration_max : ℕ
duration_max = 2 ^ 64 * 1000000000 - 1

abbrev pub from_millis : ℕ → ℕ
from_millis ms = ms * 1000000

-- `Duration * u32`
unfoldable pub duration_mul : ℕ → ℕ → Option ℕ
duration_mul d n = if ltb duration_max (d * n) then none else some (d * n)

-- `2 << shift` on `u32`
unfoldable pub two_shl : ℕ → Option ℕ
two_shl shift = if ltb shift 32 then some (2 * 2 ^ shift % 2 ^ 32) else none

-- `RC - 1` on `usize`
abbrev pub decrement : ℕ → Option ℕ
decrement zero = none
decrement (suc n) = some n

abbrev pub no_retransmissions : RtoPolicy ℕ
no_retransmissions = record {
  submit_rtt = λ addr rtt timeout. timeout;
  calculate_rto = λ addr attempts_made timeout.
      some (if attempts_made == 0 then some timeout else none, timeout);
}

-- `exp_backoff!()`
unfoldable pub exp_backoff : ℕ → ℕ → Option ℕ
unfolding duration_mul two_shl
exp_backoff rto attempts_made = do
  shift ← decrement attempts_made
  factor ← two_shl shift
  duration_mul rto factor

-- `ExponentialBackoffFixedRtt::calculate_rto`; the policy's state does not change.
unfoldable pub calculate_rto : ℕ → ℕ → ℕ → ℕ → Option (Option ℕ)
unfolding exp_backoff duration_mul
calculate_rto rc rm rto attempts_made =
    if attempts_made == 0 then some (some rto) else if attempts_made == rc then some none else do
      last ← decrement rc
      backoff ← exp_backoff rto attempts_made
      if attempts_made == last
          then duration_mul rto rm >>= (λ longest. some (some (min backoff longest)))
          else some (some backoff)

abbrev pub exponential_backoff : ℕ → ℕ → RtoPolicy ℕ
exponential_backoff rc rm = record {
  submit_rtt = λ addr rtt rto. rto;
  calculate_rto = λ addr attempts_made rto. do
    next ← calculate_rto rc rm rto attempts_made
    some (next, rto);
}

-- `DefaultExponentialBackoffFixedRtt`
abbrev pub default_rto : ℕ
default_rto = from_millis 500
