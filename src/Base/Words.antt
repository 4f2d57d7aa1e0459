-- ===== src/Base/Words.antt =====
-- Machine words as native numbers.
use Prim.Native.Nat.{ℕ, ◌+◌, ◌*◌, ◌/◌, ◌%◌, ◌^◌, ◌<◌}
use mathlib.Core.Path.{◌≡◌}
use mathlib.Core.List.{List, [], ◌∷◌}
use native.Mathlib.Omega.{arith}

abbrev pub IsByte : ℕ → Type 0
IsByte b = b < 256

abbrev pub IsU16 : ℕ → Type 0
IsU16 w = w < 65536

-- The range of `usize`, on a target of 64 bits.
abbrev pub usize_mod : ℕ
usize_mod = 2 ^ 64

-- A 16-bit number in network order.
abbrev pub be16 : ℕ → List ℕ
be16 w = (w / 256 % 256) ∷ (w % 256) ∷ []

pub be16-value : (w : ℕ) → IsU16 w → w / 256 % 256 * 256 + w % 256 ≡ w
be16-value w h = omega arith

pub value-be16 :
    (x y : ℕ) → IsByte x → IsByte y → ((x * 256 + y) / 256 % 256 ≡ x) × ((x * 256 + y) % 256 ≡ y)
value-be16 x y hx hy = omega arith
