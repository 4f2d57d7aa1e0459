-- ===== src/Base/Tally.antt =====
-- Sums over the elements of a list, and what `filter` keeps of them.
use Prim.Native.Nat.{ℕ, ◌+◌}
use mathlib.Core.Path.{◌≡◌, refl}
use mathlib.Core.Bool.{Bool, true, false, not}
use mathlib.Core.List.{List, [], ◌∷◌, ◌++◌}
use mathlib.Core.Logic.{inl, inr}
use native.Mathlib.Omega.{arith}
use mstun.Base.Tests.{if◌then◌else◌, Bool-cases}
use mstun.Base.Lists.{All}

abbrev pub bit : Bool → ℕ
bit true = 1
bit false = 0

module _ {ℓ} {A : Type ℓ} where
  abbrev pub filter : (A → Bool) → List A → List A
  filter q [] = []
  filter q (x ∷ xs) = if q x then x ∷ filter q xs else filter q xs

  abbrev pub total : (A → ℕ) → List A → ℕ
  total w [] = 0
  total w (x ∷ xs) = w x + total w xs

  pub total-append : (w : A → ℕ) (xs ys : List A) → total w (xs ++ ys) ≡ total w xs + total w ys
  total-append w [] ys = omega arith
  total-append w (x ∷ xs) ys = omega (arith, total-append w xs ys)

  pub total-filter_all :
      (w : A → ℕ) (q : A → Bool) (xs : List A)
      → ((x : A) → q x ≡ false → w x ≡ 0)
      → total w (filter q xs) ≡ total w xs
  total-filter_all w q [] h = refl
  total-filter_all w q (x ∷ xs) h = ground (arith, h x, total-filter_all w q xs h)

  pub total-filter_none :
      (w : A → ℕ) (q : A → Bool) (xs : List A)
      → ((x : A) → q x ≡ true → w x ≡ 0)
      → total w (filter q xs) ≡ 0
  total-filter_none w q [] h = refl
  total-filter_none w q (x ∷ xs) h = ground (arith, h x, total-filter_none w q xs h)

  -- Nothing is filtered out where nothing passes.
  pub total-filter_absent :
      (w : A → ℕ) (q : A → Bool) (xs : List A)
      → total (λ x. bit (q x)) xs ≡ 0
      → total w (filter (λ x. not (q x)) xs) ≡ total w xs
  total-filter_absent w q [] h = refl
  total-filter_absent w q (x ∷ xs) h = ground (arith, total-filter_absent w q xs)

  pub All-filter {κ} :
      (P : A → Type κ) (q : A → Bool) (xs : List A) → All P xs → All P (filter q xs)
  All-filter P q [] h = tt
  All-filter P q (x ∷ xs) h = elim (Bool-cases (q x)) [
    | inl keep ↦ rw keep (h.0, All-filter P q xs h.1)
    | inr drop ↦ rw drop (All-filter P q xs h.1)
  ]
