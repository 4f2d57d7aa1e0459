-- ===== src/Extern/BufMut.antt =====
-- `bytes::BufMut`: a place to write bytes to, which may run out of room.
use mstun.Base.{ℕ, ◌+◌, ◌≤◌, ◌≡◌, Option, some, List, [], ◌∷◌, ◌++◌, length, replicate}
use mstun.Base.Words.{IsByte, IsU16, be16}

pub record BufMut (W : Type 0) : Type 0 where
  -- the bytes written so far
  pub written : W → List ℕ
  pub remaining_mut : W → ℕ
  pub put_u8 : ℕ → W → Option W
  pub put_u16 : ℕ → W → Option W
  pub put_slice : List ℕ → W → Option W
  -- `put_bytes(value, count)`
  pub put_bytes : ℕ → ℕ → W → Option W
  pub put_u8_lem :
      (w : W) (x : ℕ)
      → IsByte x
      → 1 ≤ remaining_mut w
      → (v : W) × (put_u8 x w ≡ some v)
        × (written v ≡ written w ++ x ∷ [])
        × (remaining_mut v + 1 ≡ remaining_mut w)
  pub put_u16_lem :
      (w : W) (x : ℕ)
      → IsU16 x
      → 2 ≤ remaining_mut w
      → (v : W) × (put_u16 x w ≡ some v)
        × (written v ≡ written w ++ be16 x)
        × (remaining_mut v + 2 ≡ remaining_mut w)
  pub put_slice_lem :
      (w : W) (xs : List ℕ)
      → length xs ≤ remaining_mut w
      → (v : W) × (put_slice xs w ≡ some v)
        × (written v ≡ written w ++ xs)
        × (remaining_mut v + length xs ≡ remaining_mut w)
  pub put_bytes_lem :
      (w : W) (x n : ℕ)
      → IsByte x
      → n ≤ remaining_mut w
      → (v : W) × (put_bytes x n w ≡ some v)
        × (written v ≡ written w ++ replicate n x)
        × (remaining_mut v + n ≡ remaining_mut w)

-- `BufMut for Vec<u8>`, which grows as it is written to. That memory runs out is not modelled.
pub record VecMut (V : Type 0) : Type 0 where
  pub contents : V → List ℕ
  pub with_capacity : ℕ → V
  pub put_u8 : ℕ → V → V
  pub put_u16 : ℕ → V → V
  pub put_slice : List ℕ → V → V
  pub put_bytes : ℕ → ℕ → V → V
  pub contents-with_capacity : (n : ℕ) → contents (with_capacity n) ≡ []
  pub contents-put_u8 : (x : ℕ) (v : V) → contents (put_u8 x v) ≡ contents v ++ x ∷ []
  pub contents-put_u16 : (x : ℕ) (v : V) → contents (put_u16 x v) ≡ contents v ++ be16 x
  pub contents-put_slice : (xs : List ℕ) (v : V) → contents (put_slice xs v) ≡ contents v ++ xs
  pub contents-put_bytes :
      (x n : ℕ) (v : V) → contents (put_bytes x n v) ≡ contents v ++ replicate n x

-- A buffer of fixed size as a place to write to: `buffer.as_mut_slice()`.
pub record SliceMut (W : Type 0) : Type 0 where
  pub buf_mut : BufMut W
  pub as_mut_slice : ℕ → W
  pub written-as_mut_slice : (n : ℕ) → buf_mut.written (as_mut_slice n) ≡ []
  pub remaining_mut-as_mut_slice : (n : ℕ) → buf_mut.remaining_mut (as_mut_slice n) ≡ n
