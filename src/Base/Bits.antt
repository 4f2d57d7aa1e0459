-- ===== src/Base/Bits.antt =====
-- `&` and `^` of the native numbers as laws of their lowest binary digit, and what follows.
use Prim.Native.Nat.{
  ℕ, zero, suc, ◌+◌, ◌-◌, ◌*◌, ◌/◌, ◌%◌, ◌^◌, ◌≤◌, ◌<◌, min, differ, digits, bitwise, bit_and,
  bit_xor, bit_and-bitwise, bit_xor-bitwise,
}
use mathlib.Core.Path.{◌≡◌, refl, ◌∙◌}
use native.Mathlib.Nat.{le_refl, pow-suc, one-le-pow}
use native.Mathlib.Omega.{arith}

module _ (z : ℕ → ℕ) (f : ℕ → ℕ → ℕ) where
  -- The recursion that a bit operation stands for gives the same for all fuel that is enough.
  fuel_irrelevant : (n m a b : ℕ) → a ≤ n → a ≤ m → digits z f n a b ≡ digits z f m a b
  fuel_irrelevant zero zero a b p q = refl
  fuel_irrelevant zero (suc m) zero b p q = refl
  fuel_irrelevant zero (suc m) (suc a) b p q = absurd (omega arith)
  fuel_irrelevant (suc n) zero zero b p q = refl
  fuel_irrelevant (suc n) zero (suc a) b p q = absurd (omega arith)
  fuel_irrelevant (suc n) (suc m) zero b p q = refl
  fuel_irrelevant (suc n) (suc m) (suc a) b p q =
      rw (fuel_irrelevant n m (suc a / 2) (b / 2) (omega arith) (omega arith))

  lowest_digit :
      (a b : ℕ)
      → bitwise z f (suc a) b ≡ bitwise z f (suc a / 2) (b / 2) * 2 + f (suc a % 2) (b % 2)
  lowest_digit a b =
      omega (arith, fuel_irrelevant a (suc a / 2) (suc a / 2) (b / 2) (omega arith) (le_refl _))

and_digit : (a b : ℕ) → bit_and a b ≡ bit_and (a / 2) (b / 2) * 2 + min (a % 2) (b % 2)
and_digit zero b = simp bit_and-bitwise (omega arith)
and_digit (suc a) b = simp bit_and-bitwise (lowest_digit (λ y. 0) min a b)

xor_digit : (a b : ℕ) → bit_xor a b ≡ bit_xor (a / 2) (b / 2) * 2 + differ (a % 2) (b % 2)
xor_digit zero b = simp bit_xor-bitwise (omega arith)
xor_digit (suc a) b = simp bit_xor-bitwise (lowest_digit (λ y. y) differ a b)

differ_twice : (x y : ℕ) → x < 2 → y < 2 → (differ x y < 2) × (differ (differ x y) y ≡ x)
differ_twice zero zero p q = omega arith
differ_twice zero (suc zero) p q = omega arith
differ_twice (suc zero) zero p q = omega arith
differ_twice (suc zero) (suc zero) p q = omega arith
differ_twice zero (suc (suc y)) p q = absurd (omega arith)
differ_twice (suc zero) (suc (suc y)) p q = absurd (omega arith)
differ_twice (suc (suc x)) y p q = absurd (omega arith)

xor_parts :
    (a b : ℕ)
    → (bit_xor a b / 2 ≡ bit_xor (a / 2) (b / 2)) × (bit_xor a b % 2 ≡ differ (a % 2) (b % 2))
xor_parts a b =
    omega (arith, xor_digit a b, (differ_twice (a % 2) (b % 2) (omega arith) (omega arith)).0)

xor_twice_fuel : (n a b : ℕ) → a ≤ n → b ≤ n → bit_xor (bit_xor a b) b ≡ a
xor_twice_fuel zero zero zero p q = refl
xor_twice_fuel zero zero (suc b) p q = absurd (omega arith)
xor_twice_fuel zero (suc a) b p q = absurd (omega arith)
xor_twice_fuel (suc n) a b p q =
    let (half, bit) = xor_parts a b in
    xor_digit (bit_xor a b) b
    ∙ rw (half, bit, xor_twice_fuel n (a / 2) (b / 2) (omega arith) (omega arith))
        (omega (arith, (differ_twice (a % 2) (b % 2) (omega arith) (omega arith)).1))

-- `^` by the same number undoes itself.
pub bit_xor_twice : (a b : ℕ) → bit_xor (bit_xor a b) b ≡ a
bit_xor_twice a b = xor_twice_fuel (a + b) a b (omega arith) (omega arith)

-- `^` by an odd number changes a number.
pub bit_xor-odd : (a b : ℕ) → b % 2 ≡ 1 → bit_xor a b ≡ a → ⊥
bit_xor-odd a b odd same = omega (arith, xor_digit a b, changes (a % 2) (b % 2) (omega arith) odd)
  where
    changes : (x y : ℕ) → x < 2 → y ≡ 1 → differ x y + x ≡ 1
    changes zero zero p q = absurd (omega arith)
    changes zero (suc zero) p q = omega arith
    changes (suc zero) (suc zero) p q = omega arith
    changes (suc zero) zero p q = absurd (omega arith)
    changes zero (suc (suc y)) p q = absurd (omega arith)
    changes (suc zero) (suc (suc y)) p q = absurd (omega arith)
    changes (suc (suc x)) y p q = absurd (omega arith)

-- `^` of two numbers of `k` bits has `k` bits.
pub bit_xor-lt : (k a b : ℕ) → a < 2 ^ k → b < 2 ^ k → bit_xor a b < 2 ^ k
bit_xor-lt zero zero zero p q = omega arith
bit_xor-lt zero zero (suc b) p q = absurd (omega arith)
bit_xor-lt zero (suc a) b p q = absurd (omega arith)
bit_xor-lt (suc k) a b p q = omega (
  arith,
  pow-suc 2 k,
  xor_digit a b,
  (differ_twice (a % 2) (b % 2) (omega arith) (omega arith)).0,
  bit_xor-lt k (a / 2) (b / 2) (omega (arith, pow-suc 2 k)) (omega (arith, pow-suc 2 k)),
)

and_zero_fuel : (n a : ℕ) → a ≤ n → bit_and a 0 ≡ 0
and_zero_fuel n zero h = refl
and_zero_fuel zero (suc a) h = absurd (omega arith)
and_zero_fuel (suc n) (suc a) h =
    omega (arith, and_digit (suc a) 0, and_zero_fuel n (suc a / 2) (omega arith))

-- A mask of `k` ones keeps a number of `k` bits.
pub bit_and_mask : (k a : ℕ) → a < 2 ^ k → bit_and a (2 ^ k - 1) ≡ a
bit_and_mask zero a h = omega (arith, and_zero_fuel a a (omega arith))
bit_and_mask (suc k) a h =
    and_digit a (2 ^ suc k - 1)
    ∙ rw (halved, odd, bit_and_mask k (a / 2) (omega (arith, pow-suc 2 k))) (omega arith)
  where
    halved : (2 ^ suc k - 1) / 2 ≡ 2 ^ k - 1
    halved = omega (arith, pow-suc 2 k, one-le-pow k 2)

    odd : (2 ^ suc k - 1) % 2 ≡ 1
    odd = omega (arith, pow-suc 2 k, one-le-pow k 2)

-- `& !3` on a number of 64 bits clears the two lowest.
pub bit_and_not_three : (a : ℕ) → a < 2 ^ 64 → bit_and a (2 ^ 64 - 4) ≡ a / 4 * 4
bit_and_not_three a h = omega (
  arith,
  and_digit a (2 ^ 64 - 4),
  and_digit (a / 2) (2 ^ 63 - 2),
  bit_and_mask 62 (a / 2 / 2) (omega arith),
)
