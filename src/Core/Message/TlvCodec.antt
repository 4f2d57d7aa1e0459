-- ===== src/Core/Message/TlvCodec.antt =====
-- stunny-core/src/message.rs: `impl EncodeDecode for Tlv` and `for Vec<Tlv>`.
pub mod Decode
pub mod Encode
pub mod DecodeList
pub mod Spelling
use mstun.Base.{
  ℕ, zero, suc, ◌+◌, ◌-◌, ◌%◌, Bool, true, false, List, [], ◌∷◌, ◌++◌, ltb, if◌then◌else◌, Outcome,
  ok, err, stuck, ◌>>=◌, expect, length,
}
use mstun.Extern.Buf.{Buf}
use mstun.Extern.BufMut.{BufMut}
use mstun.Core.Message.{
  ParseError, tlv_header_too_short, tlv_exceeds_buffer, WriteError, no_room_for_tlv, Tlv,
  tlv_header_size, ceil_mul_4,
}

module _ {B : Type 0} (buf : Buf B) where
  open buf use {remaining, get_u16, copy_to_slice, advance}

  -- `Tlv::decode_from`, with the buffer as it is left.
  unfoldable pub decode_tlv : B → Outcome ParseError (Tlv × B)
  decode_tlv buffer =
      if ltb (remaining buffer) tlv_header_size then err tlv_header_too_short else do
        (attribute_type, buffer) ← expect (get_u16 buffer)
        (value_len, buffer) ← expect (get_u16 buffer)
        let real_value_len = ceil_mul_4 value_len
        if ltb (remaining buffer) real_value_len
            then err (tlv_exceeds_buffer real_value_len (remaining buffer))
            else do
              (value, buffer) ← expect (copy_to_slice value_len buffer)
              buffer ← expect (advance (real_value_len - value_len) buffer)
              ok (record { attribute_type = attribute_type; value = value }, buffer)

  -- `while buffer.has_remaining()`, with fuel for the rounds.
  unfoldable pub decode_loop : ℕ → B → List Tlv → Outcome ParseError (List Tlv × B)
  decode_loop zero buffer ret = if ltb 0 (remaining buffer) then stuck else ok (ret, buffer)
  decode_loop (suc fuel) buffer ret = elim (ltb 0 (remaining buffer)) [
    | true ↦ (decode_tlv buffer >>= λ (tlv, buffer). decode_loop fuel buffer (ret ++ tlv ∷ []))
    | false ↦ ok (ret, buffer)
  ]

  -- `Vec::<Tlv>::decode_from`. Each round takes four bytes or more.
  unfoldable pub decode_tlvs : B → Outcome ParseError (List Tlv × B)
  decode_tlvs buffer = decode_loop (remaining buffer) buffer []

module _ {W : Type 0} (buf : BufMut W) where
  open buf use {remaining_mut, put_u16, put_slice, put_bytes}

  -- `Tlv::encode_into`
  unfoldable pub encode_tlv : Tlv → W → Outcome WriteError W
  encode_tlv tlv buffer =
      let real_value_len = ceil_mul_4 (length tlv.value) in
      if ltb (remaining_mut buffer) (tlv_header_size + real_value_len)
      then err no_room_for_tlv
      else do
        buffer ← expect (put_u16 tlv.attribute_type buffer)
        buffer ← expect (put_u16 (length tlv.value % 65536) buffer)
        buffer ← expect (put_slice tlv.value buffer)
        buffer ← expect (put_bytes 0 (real_value_len - length tlv.value) buffer)
        ok buffer

  -- `Vec::<Tlv>::encode_into`
  unfoldable pub encode_tlvs : List Tlv → W → Outcome WriteError W
  encode_tlvs [] buffer = ok buffer
  encode_tlvs (tlv ∷ tlvs) buffer = do buffer ← encode_tlv tlv buffer; encode_tlvs tlvs buffer
