-- ===== src/Extern/Bitvec.antt =====
-- `bitvec::BitArray<u16, Lsb0>`: sixteen bits, the lowest first. All ranges that the code names
-- are constants within sixteen, of equal lengths where two are copied, so none of the panics of
-- the crate is modelled.
use native.Mathlib.Nat.{pow-suc}
use mstun.Base.{
  ℕ, zero, suc, ◌+◌, ◌-◌, ◌*◌, ◌/◌, ◌%◌, ◌^◌, ◌≤◌, ◌<◌, ◌≡◌, refl, ap, ◌∙◌, ◌↔◌, Bool, true, false,
  ◌&&◌, arith, ltb, leb, ◌==◌, if◌then◌else◌,
}
use mstun.Base.Words.{IsU16}

-- Bit `i` of a number.
abbrev pub test_bit : ℕ → ℕ → Bool
test_bit w zero = w % 2 == 1
test_bit w (suc i) = test_bit (w / 2) i

abbrev pub bit_value : Bool → ℕ
bit_value true = 1
bit_value false = 0

-- The number of `k` bits.
abbrev pub value : ℕ → (ℕ → Bool) → ℕ
value zero f = 0
value (suc k) f = bit_value (f 0) + 2 * value k (λ i. f (suc i))

pub record Bitvec (A : Type 0) : Type 0 where
  -- `BitArray::from(w)` and `w.view_bits()`; `.data`; `bits[i]`
  pub from_word : ℕ → A
  pub word : A → ℕ
  pub bit : A → ℕ → Bool
  -- `bits[lo..hi].any()`
  pub any : A → ℕ → ℕ → Bool
  pub set : A → ℕ → Bool → A
  -- `bits[lo..hi].fill(v)`
  pub fill : A → ℕ → ℕ → Bool → A
  -- `bits.copy_within(lo..hi, dest)`
  pub copy_within : A → ℕ → ℕ → ℕ → A
  -- `bits[lo..hi].copy_from_bitslice(&other[from..])` with as many bits
  pub copy_from_bitslice : A → ℕ → ℕ → A → ℕ → A
  pub bit-from_word : (w i : ℕ) → IsU16 w → i < 16 → bit (from_word w) i ≡ test_bit w i
  pub word-value : (a : A) → word a ≡ value 16 (bit a)
  pub any_iff :
      (a : A) (lo hi : ℕ)
      → hi ≤ 16
      → (any a lo hi ≡ false) ↔ ((i : ℕ) → lo ≤ i → i < hi → bit a i ≡ false)
  pub bit-set :
      (a : A) (i : ℕ) (v : Bool) (j : ℕ)
      → j < 16
      → bit (set a i v) j ≡ (if j == i then v else bit a j)
  pub bit-fill :
      (a : A) (lo hi : ℕ) (v : Bool) (j : ℕ)
      → j < 16
      → bit (fill a lo hi v) j ≡ (if leb lo j && ltb j hi then v else bit a j)
  pub bit-copy_within :
      (a : A) (lo hi dest j : ℕ)
      → j < 16
      → bit (copy_within a lo hi dest) j
        ≡ (if leb dest j && ltb j (dest + (hi - lo)) then bit a (j - dest + lo) else bit a j)
  pub bit-copy_from_bitslice :
      (a : A) (lo hi : ℕ) (other : A) (from j : ℕ)
      → j < 16
      → bit (copy_from_bitslice a lo hi other from) j
        ≡ (if leb lo j && ltb j hi then bit other (j - lo + from) else bit a j)

pub value_cong : (k : ℕ) (f g : ℕ → Bool) → ((i : ℕ) → i < k → f i ≡ g i) → value k f ≡ value k g
value_cong zero f g h = refl
value_cong (suc k) f g h =
    ap (λ b. bit_value b + 2 * value k (λ i. f (suc i))) (h 0 (omega arith))
    ∙ ap (λ (n : ℕ). bit_value (g 0) + 2 * n)
        (value_cong k (λ i. f (suc i)) (λ i. g (suc i)) (λ i p. h (suc i) (omega arith)))

pub bit_value-test_bit : (w : ℕ) → bit_value (w % 2 == 1) ≡ w % 2
bit_value-test_bit w = ground arith

pub value-lt : (k : ℕ) (f : ℕ → Bool) → value k f < 2 ^ k
value-lt zero f = omega arith
value-lt (suc k) f = ground (arith, pow-suc 2 k, value-lt k (λ i. f (suc i)))

pub value-test_bit : (k w : ℕ) → w < 2 ^ k → value k (test_bit w) ≡ w
value-test_bit zero w h = omega arith
value-test_bit (suc k) w h = omega (
  arith,
  pow-suc 2 k,
  bit_value-test_bit w,
  value-test_bit k (w / 2) (omega (arith, pow-suc 2 k)),
)

-- The bits of a number that was put together from bits.
pub test_bit-value : (k : ℕ) (f : ℕ → Bool) (i : ℕ) → i < k → test_bit (value k f) i ≡ f i
test_bit-value zero f i h = absurd (omega arith)
test_bit-value (suc k) f zero h = ground arith
test_bit-value (suc k) f (suc i) h =
    let half : value (suc k) f / 2 ≡ value k (λ j. f (suc j)) = ground arith in
    rw half (test_bit-value k (λ j. f (suc j)) i (omega arith))
