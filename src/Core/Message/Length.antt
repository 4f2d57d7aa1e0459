-- ===== src/Core/Message/Length.antt =====
-- `Message::calculate_len` against the bytes that the attributes take.
use mstun.Base.{ℕ, ◌+◌, ◌%◌, ◌^◌, ◌≡◌, arith, List, [], ◌∷◌, length, All}
use mstun.Core.Message.{Tlv, ceil_mul_4, sum_from, calculate_len}
use mstun.Core.Message.TlvCodec.Spelling.{
  IsValid, total_size, ceil_mul_4_lem, Spells, length-Spells,
}

sum_from-total_size :
    (len : ℕ) (ts : List Tlv)
    → All IsValid ts
    → sum_from len ts % 65536 ≡ (len + total_size ts) % 65536
unfolding sum_from
sum_from-total_size len [] h = omega arith
sum_from-total_size len (t ∷ ts) h =
    let n = length t.value in
    let size = ceil_mul_4_lem n (omega (arith, h.0.length_fits)) in
    omega (arith, size, sum_from-total_size ((len + (ceil_mul_4 n + 4)) % 2 ^ 64) ts h.1)

-- The length field is the number of bytes that the attributes take, modulo 2 ^ 16.
pub calculate_len-total_size :
    (ts : List Tlv) → All IsValid ts → calculate_len ts ≡ total_size ts % 65536
unfolding calculate_len
calculate_len-total_size ts h = omega (arith, sum_from-total_size 0 ts h)

pub total_size_div_four : (ts : List Tlv) → total_size ts % 4 ≡ 0
total_size_div_four [] = omega arith
total_size_div_four (t ∷ ts) = omega (arith, total_size_div_four ts)

-- For attributes whose types and value lengths fit 16 bits, the length field is the number of
-- bytes of each of their spellings, modulo 2 ^ 16, and a multiple of four.
pub calculate_len_lem :
    (ts : List Tlv) {bs : List ℕ}
    → All IsValid ts
    → Spells ts bs
    → (calculate_len ts ≡ length bs % 65536) × (calculate_len ts % 4 ≡ 0)
calculate_len_lem ts h s =
    omega (arith, calculate_len-total_size ts h, length-Spells s, total_size_div_four ts)
