-- ===== src/Core/Message/TlvCodec/Spelling.antt =====
-- How attributes are spelled in bytes: type, length, value, and padding to a multiple of four,
-- whose content is free.
use mstun.Base.{
  ℕ, ◌+◌, ◌-◌, ◌*◌, ◌/◌, ◌%◌, ◌^◌, ◌<◌, ◌≡◌, refl, arith, List, [], ◌∷◌, ◌++◌, length,
  length-append, replicate,
}
use mstun.Base.Bits.{bit_and_not_three}
use mstun.Base.Words.{IsU16, be16}
use mstun.Core.Message.{Tlv, ceil_mul_4}

-- Rounding up to a multiple of four, short of the overflow of `usize`.
pub ceil_mul_4_lem : (x : ℕ) → x + 3 < 2 ^ 64 → ceil_mul_4 x ≡ (x + 3) / 4 * 4
unfolding ceil_mul_4
ceil_mul_4_lem x h = omega (arith, bit_and_not_three ((x + 3) % 2 ^ 64) (omega arith))

-- The padding behind a value.
abbrev pub pad_length : ℕ → ℕ
pad_length n = (n + 3) / 4 * 4 - n

abbrev pub tlv_bytes : Tlv → List ℕ → List ℕ
tlv_bytes t pad = be16 t.attribute_type ++ (be16 (length t.value) ++ (t.value ++ pad))

pub record IsValid (t : Tlv) : Type 0 where
  pub type_fits : IsU16 t.attribute_type
  pub length_fits : IsU16 (length t.value)

pub data Spells : List Tlv → List ℕ → Type 0 where
  done : Spells [] []
  next :
      (t : Tlv) (pad : List ℕ) {ts : List Tlv} {bs : List ℕ}
      → IsValid t
      → length pad ≡ pad_length (length t.value)
      → Spells ts bs
      → Spells (t ∷ ts) (tlv_bytes t pad ++ bs)

-- The bytes of one attribute without its content: what it adds to the message length.
abbrev pub tlv_size : Tlv → ℕ
tlv_size t = 4 + (length t.value + 3) / 4 * 4

abbrev pub total_size : List Tlv → ℕ
total_size [] = 0
total_size (t ∷ ts) = tlv_size t + total_size ts

pub length-tlv_bytes :
    (t : Tlv) (pad : List ℕ)
    → length pad ≡ pad_length (length t.value)
    → length (tlv_bytes t pad) ≡ tlv_size t
length-tlv_bytes t pad h = omega (arith, length-append t.value pad)

pub length-Spells : {ts : List Tlv} {bs : List ℕ} → Spells ts bs → length bs ≡ total_size ts
length-Spells done = refl
length-Spells (next t pad {bs = bs} v h s) =
    omega (arith, length-append (tlv_bytes t pad) bs, length-tlv_bytes t pad h, length-Spells s)

-- The bytes that encoding writes: the padding is zero.
abbrev pub zero_padded : Tlv → List ℕ
zero_padded t = tlv_bytes t (replicate (pad_length (length t.value)) 0)

abbrev pub all_bytes : List Tlv → List ℕ
all_bytes [] = []
all_bytes (t ∷ ts) = zero_padded t ++ all_bytes ts
