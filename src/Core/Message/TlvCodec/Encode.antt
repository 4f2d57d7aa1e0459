-- ===== src/Core/Message/TlvCodec/Encode.antt =====
-- What encoding attributes writes, and when it runs out of room.
use mstun.Base.{
  ℕ, ◌+◌, ◌-◌, ◌*◌, ◌/◌, ◌%◌, ◌≤◌, ◌<◌, ◌≡◌, refl, sym, ap, ◌∙◌, arith, List, [], ◌∷◌, ◌++◌, length,
  append_assoc, append-nil, replicate, All, le→ltb, lt→ltb, ltb, Bool-cases, inl, inr, ok, err,
  ltb→lt, ltb→le,
}
use mstun.Base.Words.{be16}
use mstun.Extern.BufMut.{BufMut}
use mstun.Core.Message.{Tlv, ceil_mul_4, no_room_for_tlv}
use mstun.Core.Message.TlvCodec.{encode_tlv, encode_tlvs}
use mstun.Core.Message.TlvCodec.Spelling.{
  IsValid, ceil_mul_4_lem, pad_length, zero_padded, all_bytes, tlv_size, total_size,
}

module _ {W : Type 0} (buf : BufMut W) where
  open buf use {written, remaining_mut, put_u16_lem, put_slice_lem, put_bytes_lem}

  pub encode_tlv-zero_padded :
      (t : Tlv) (w : W)
      → IsValid t
      → tlv_size t ≤ remaining_mut w
      → (v : W) × (encode_tlv buf t w ≡ ok v)
        × (written v ≡ written w ++ zero_padded t)
        × (remaining_mut v + tlv_size t ≡ remaining_mut w)
  unfolding encode_tlv
  encode_tlv-zero_padded t w valid room =
      let n = length t.value in
      let real : ceil_mul_4 n ≡ (n + 3) / 4 * 4 =
        ceil_mul_4_lem n (omega (arith, valid.length_fits)) in
      let whole : n % 65536 ≡ n = omega (arith, valid.length_fits) in
      let (w1, p1, q1, r1) = put_u16_lem w t.attribute_type valid.type_fits (omega arith) in
      let (w2, p2, q2, r2) = put_u16_lem w1 (n % 65536) (omega arith) (omega arith) in
      let (w3, p3, q3, r3) = put_slice_lem w2 t.value (omega arith) in
      let (w4, p4, q4, r4) = put_bytes_lem w3 0 (ceil_mul_4 n - n) (omega arith) (omega arith) in
      let padding : written w4 ≡ written w3 ++ replicate (pad_length n) 0 =
        q4 ∙ ap (λ (k : ℕ). written w3 ++ replicate (k - n) 0) real in
      let size : written w2 ≡ written w1 ++ be16 n =
        q2 ∙ ap (λ (k : ℕ). written w1 ++ be16 k) whole in
      (
        w4,
        rw (le→ltb (remaining_mut w) (4 + ceil_mul_4 n) (omega arith), p1, p2, p3, p4) refl,
        padding
            ∙ ap (λ s. s ++ replicate (pad_length n) 0)
                (q3 ∙ ap (λ s. s ++ t.value) (size ∙ ap (λ s. s ++ be16 n) q1))
            ∙ simp append_assoc,
        omega arith,
      )

  pub encode_tlv_no_room :
      (t : Tlv) (w : W)
      → IsValid t
      → remaining_mut w < tlv_size t
      → encode_tlv buf t w ≡ err no_room_for_tlv
  unfolding encode_tlv
  encode_tlv_no_room t w valid full =
      rw
        (
          ceil_mul_4_lem (length t.value) (omega (arith, valid.length_fits)),
          lt→ltb (remaining_mut w) (4 + (length t.value + 3) / 4 * 4) full,
        )
        refl

  -- Where there is room for attributes whose types and lengths fit 16 bits, encoding appends their
  -- layout, padded with zeros, and takes as much room as their sizes say.
  pub encode_tlvs-all_bytes :
      (ts : List Tlv) (w : W)
      → All IsValid ts
      → total_size ts ≤ remaining_mut w
      → (v : W) × (encode_tlvs buf ts w ≡ ok v)
        × (written v ≡ written w ++ all_bytes ts)
        × (remaining_mut v + total_size ts ≡ remaining_mut w)
  unfolding encode_tlvs
  encode_tlvs-all_bytes [] w valid room = (w, refl, sym (append-nil (written w)), omega arith)
  encode_tlvs-all_bytes (t ∷ ts) w valid room =
      let (w1, p1, q1, r1) = encode_tlv-zero_padded t w valid.0 (omega arith) in
      let (w2, p2, q2, r2) = encode_tlvs-all_bytes ts w1 valid.1 (omega arith) in
      (
        w2,
        rw p1 p2,
        q2 ∙ rw q1 (append_assoc (written w) (zero_padded t) (all_bytes ts)),
        omega arith,
      )

  pub encode_tlvs_no_room :
      (ts : List Tlv) (w : W)
      → All IsValid ts
      → remaining_mut w < total_size ts
      → encode_tlvs buf ts w ≡ err no_room_for_tlv
  unfolding encode_tlvs
  encode_tlvs_no_room [] w valid full = absurd (omega arith)
  encode_tlvs_no_room (t ∷ ts) w valid full =
      elim (Bool-cases (ltb (remaining_mut w) (tlv_size t))) [
        | inl here ↦ rw (encode_tlv_no_room t w valid.0 (ltb→lt _ _ here)) refl
        | inr later ↦
            let (w1, p1, q1, r1) = encode_tlv-zero_padded t w valid.0 (ltb→le _ _ later) in
            rw p1 (encode_tlvs_no_room ts w1 valid.1 (omega arith))
      ]
