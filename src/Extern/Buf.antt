-- ===== src/Extern/Buf.antt =====
-- `bytes::Buf`: a cursor over bytes, read in network order.
use mstun.Base.{ℕ, ◌+◌, ◌*◌, ◌≡◌, Option, some, List, ◌∷◌, ◌++◌, length, take, drop}

-- A result `r` is a value and a cursor; the cursor has the bytes `left` still to read, and hides
-- what the cursor before it hid.
pub record Buf (B : Type 0) : Type 0 where
  -- the bytes that are still to be read, and those behind the limit of a `Take`
  pub bytes : B → List ℕ
  pub beyond : B → List ℕ
  pub remaining : B → ℕ
  pub get_u8 : B → Option (ℕ × B)
  pub get_u16 : B → Option (ℕ × B)
  pub copy_to_slice : ℕ → B → Option (List ℕ × B)
  pub advance : ℕ → B → Option B
  -- `buffer.take(n)`, and the buffer below when the adapter is dropped
  pub take_first : ℕ → B → B
  pub inner : B → B
  pub remaining_lem : (b : B) → remaining b ≡ length (bytes b)
  pub get_u8_lem :
      (b : B) (x : ℕ) (left : List ℕ)
      → bytes b ≡ x ∷ left
      → (c : B) × (get_u8 b ≡ some (x, c)) × (bytes c ≡ left) × (beyond c ≡ beyond b)
  pub get_u16_lem :
      (b : B) (x y : ℕ) (left : List ℕ)
      → bytes b ≡ x ∷ y ∷ left
      → (c : B) × (get_u16 b ≡ some (x * 256 + y, c)) × (bytes c ≡ left) × (beyond c ≡ beyond b)
  pub copy_to_slice_lem :
      (b : B) (front left : List ℕ)
      → bytes b ≡ front ++ left
      → (c : B) × (copy_to_slice (length front) b ≡ some (front, c))
        × (bytes c ≡ left)
        × (beyond c ≡ beyond b)
  pub advance_lem :
      (b : B) (front left : List ℕ)
      → bytes b ≡ front ++ left
      → (c : B) × (advance (length front) b ≡ some c) × (bytes c ≡ left) × (beyond c ≡ beyond b)
  pub bytes-take_first : (n : ℕ) (b : B) → bytes (take_first n b) ≡ take n (bytes b)
  pub beyond-take_first : (n : ℕ) (b : B) → beyond (take_first n b) ≡ drop n (bytes b)
  pub bytes-inner : (b : B) → bytes (inner b) ≡ bytes b ++ beyond b

module _ {B : Type 0} (buf : Buf B) where
  open buf use {bytes, beyond, copy_to_slice, advance, copy_to_slice_lem, advance_lem}

  pub copy_exactly :
      (n : ℕ) (b : B) (front left : List ℕ)
      → length front ≡ n
      → bytes b ≡ front ++ left
      → (c : B) × (copy_to_slice n b ≡ some (front, c)) × (bytes c ≡ left) × (beyond c ≡ beyond b)
  copy_exactly n b front left e h = rw (← e) (copy_to_slice_lem b front left h)

  pub advance_exactly :
      (n : ℕ) (b : B) (front left : List ℕ)
      → length front ≡ n
      → bytes b ≡ front ++ left
      → (c : B) × (advance n b ≡ some c) × (bytes c ≡ left) × (beyond c ≡ beyond b)
  advance_exactly n b front left e h = rw (← e) (advance_lem b front left h)

-- A slice as a cursor: `value.as_slice()`. Its chunk is all that is left of it.
pub record SliceBuf (B : Type 0) : Type 0 where
  pub buf : Buf B
  pub as_slice : List ℕ → B
  pub chunk : B → List ℕ
  pub bytes-as_slice : (xs : List ℕ) → buf.bytes (as_slice xs) ≡ xs
  pub chunk_lem : (b : B) → chunk b ≡ buf.bytes b
