-- ===== src/Client/Rto/Schedule.antt =====
-- The timeouts that `ExponentialBackoffFixedRtt` gives, one after the other.
use native.Mathlib.Nat.{pow-le-pow_right, mul-le-mul_left}
use mstun.Base.{
  ℕ, zero, suc, ◌+◌, ◌-◌, ◌*◌, ◌^◌, ◌%◌, ◌≤◌, ◌<◌, ◌≡◌, refl, ap, ◌∙◌, arith, min, true, Option,
  none, some, ltb, ◌==◌, lt→ltb, le→ltb, if◌then◌else◌, Bool-cases, inl, inr,
}
use mstun.Client.Rto.{◌>>=◌, duration_max, duration_mul, two_shl, exp_backoff, calculate_rto}

-- The timeout before attempt `n + 1`, or none where the transaction fails.
abbrev pub timeout_of : ℕ → ℕ → ℕ → ℕ → Option ℕ
timeout_of rc rm rto n =
    if ltb n (rc - 1)
    then some (rto * 2 ^ n)
    else if ltb n rc
    then some (min (rto * 2 ^ n) (rto * rm))
    else none

two_pow_le : (m n : ℕ) → m ≤ n → 2 ^ m ≤ 2 ^ n
two_pow_le m n h = pow-le-pow_right (omega arith) h

-- No bit of the factor is lost, and the product fits.
exp_backoff-fits :
    (rto k n : ℕ)
    → n < 31
    → suc n ≤ k
    → rto * 2 ^ k ≤ duration_max
    → exp_backoff rto (suc n) ≡ some (rto * 2 ^ suc n)
unfolding exp_backoff duration_mul two_shl
exp_backoff-fits rto k n h l fits =
    let double : 2 * 2 ^ n ≡ 2 ^ suc n = omega arith in
    let below : 2 ^ n ≤ 2 ^ 30 = two_pow_le n 30 (omega arith) in
    let whole : 2 * 2 ^ n % 2 ^ 32 ≡ 2 ^ suc n = omega arith in
    let small : rto * 2 ^ suc n ≤ rto * 2 ^ k = mul-le-mul_left rto (two_pow_le (suc n) k l) in
    let kept : ltb n 32 ≡ true = lt→ltb n 32 (omega arith) in
    rw (kept, whole, le→ltb _ _ (le_trans small fits)) refl
  where
    le_trans : {a b c : ℕ} → a ≤ b → b ≤ c → a ≤ c
    le_trans p q = omega arith

module _ (last rm rto : ℕ) where
  backs_off :
      (n : ℕ)
      → last ≤ 31
      → suc n ≤ last
      → rto * 2 ^ last ≤ duration_max
      → rto * rm ≤ duration_max
      → calculate_rto (suc last) rm rto (suc n) ≡ some (timeout_of (suc last) rm rto (suc n))
  unfolding calculate_rto duration_mul
  backs_off n h l fits last_fits =
      let backoff = exp_backoff-fits rto last n (omega arith) l fits in
      let longest = le→ltb duration_max (rto * rm) last_fits in rw (backoff, longest) (ground arith)

-- With RC from 2 to 32 and no overflow, the timeouts double from the initial one; the last is at
-- most RM times the initial one, and after RC attempts there is none. No call panics.
pub calculate_rto-timeout_of :
    (rc rm rto n : ℕ)
    → 2 ≤ rc
    → rc ≤ 32
    → rto * 2 ^ (rc - 1) ≤ duration_max
    → rto * rm ≤ duration_max
    → n ≤ rc
    → calculate_rto rc rm rto n ≡ some (timeout_of rc rm rto n)
unfolding calculate_rto
calculate_rto-timeout_of zero rm rto n two most fits last_fits h = absurd (omega arith)
calculate_rto-timeout_of (suc last) rm rto zero two most fits last_fits h =
    let once : rto * 2 ^ 0 ≡ rto = omega arith in ground arith
calculate_rto-timeout_of (suc last) rm rto (suc n) two most fits last_fits h =
    let same : suc last - 1 ≡ last = omega arith in
    let fits' : rto * 2 ^ last ≤ duration_max = rw same at fits in
    elim (Bool-cases (n == last)) [
      | inl end ↦ ground arith
      | inr before ↦ backs_off last rm rto n (omega arith) (ground arith) fits' last_fits
    ]

-- The sum of the first `attempts` timeouts, as the policy gives them.
abbrev pub waited : ℕ → ℕ → ℕ → ℕ → Option ℕ
waited rc rm rto zero = some 0
waited rc rm rto (suc attempts) = do
  before ← waited rc rm rto attempts
  next ← calculate_rto rc rm rto attempts
  timeout ← next
  some (before + timeout)

waited_before :
    (rc rm rto n : ℕ)
    → 2 ≤ rc
    → rc ≤ 32
    → rto * 2 ^ (rc - 1) ≤ duration_max
    → rto * rm ≤ duration_max
    → n < rc
    → waited rc rm rto n ≡ some (rto * (2 ^ n - 1))
waited_before rc rm rto zero two most fits last_fits h = ap some (omega arith)
waited_before rc rm rto (suc n) two most fits last_fits h =
    rw
      (
        waited_before rc rm rto n two most fits last_fits (omega arith),
        calculate_rto-timeout_of rc rm rto n two most fits last_fits (omega arith),
        lt→ltb n (rc - 1) (omega arith),
      )
      (ap some (
        sum_lem (2 ^ n) (two_pow_le 0 n (omega arith))
        ∙ ap (λ (p : ℕ). rto * (p - 1)) (omega arith)))
  where
    sum_lem : (p : ℕ) → 2 ^ 0 ≤ p → rto * (p - 1) + rto * p ≡ rto * (2 * p - 1)
    sum_lem zero h = absurd (omega arith)
    sum_lem (suc p) h =
        let less : suc p - 1 ≡ p = omega arith in
        let odd : 2 * suc p - 1 ≡ p + suc p = omega arith in rw (less, odd) (omega arith)

waited_lem :
    (rc rm rto : ℕ)
    → 2 ≤ rc
    → rc ≤ 32
    → rto * 2 ^ (rc - 1) ≤ duration_max
    → rto * rm ≤ duration_max
    → waited rc rm rto rc ≡ some (rto * (2 ^ (rc - 1) - 1) + min (rto * 2 ^ (rc - 1)) (rto * rm))
waited_lem zero rm rto two most fits last_fits = absurd (omega arith)
waited_lem (suc last) rm rto two most fits last_fits =
    let same : suc last - 1 ≡ last = omega arith in
    rw
      (
        waited_before (suc last) rm rto last two most fits last_fits (omega arith),
        calculate_rto-timeout_of (suc last) rm rto last two most fits last_fits (omega arith),
        same,
        le→ltb last last (omega arith),
        lt→ltb last (suc last) (omega arith),
      )
      refl

-- There is no timeout behind RC attempts.
gives_up_lem :
    (rc rm rto : ℕ)
    → 2 ≤ rc
    → rc ≤ 32
    → rto * 2 ^ (rc - 1) ≤ duration_max
    → rto * rm ≤ duration_max
    → calculate_rto rc rm rto rc ≡ some none
gives_up_lem rc rm rto two most fits last_fits =
    calculate_rto-timeout_of rc rm rto rc two most fits last_fits (omega arith) ∙ ground arith

-- With RC from 2 to 32 and no overflow: a transaction that is never answered is given RC timeouts,
-- which come to RTO * (2 ^ (RC - 1) - 1) and the last one together, and then no more.
pub waited_in_all :
    (rc rm rto : ℕ)
    → 2 ≤ rc
    → rc ≤ 32
    → rto * 2 ^ (rc - 1) ≤ duration_max
    → rto * rm ≤ duration_max
    → (waited rc rm rto rc ≡ some (rto * (2 ^ (rc - 1) - 1) + min (rto * 2 ^ (rc - 1)) (rto * rm)))
      × (calculate_rto rc rm rto rc ≡ some none)
waited_in_all rc rm rto two most fits last_fits =
    (waited_lem rc rm rto two most fits last_fits, gives_up_lem rc rm rto two most fits last_fits)
