-- ===== src/Core/Message/HeaderCodec.antt =====
-- stunny-core/src/message.rs: `impl EncodeDecode for Header`.
pub mod Bits
pub mod Decode
pub mod Encode
pub mod RoundTrip
use mstun.Base.{
  ℕ, ◌+◌, Bool, true, false, ◌||◌, List, [], ◌∷◌, Option, none, some, ltb, ◌==◌, ◌&&◌,
  if◌then◌else◌, Outcome, ok, err, ◌>>=◌, expect, not,
}
use mstun.Base.Bytes.{bytes_eq}
use mstun.Extern.Buf.{Buf}
use mstun.Extern.BufMut.{BufMut}
use mstun.Extern.Bitvec.{Bitvec}
use mstun.Core.Message.{
  ParseError, incorrect_header_length, incorrect_magic_cookie, nonzero_first_bits, WriteError,
  no_room_for_header, Class, request, response, error, indication, Header, header_size,
  magic_cookie,
}

-- `match (method_class_bits[8], method_class_bits[4])`
abbrev pub class_of_bits : Bool → Bool → Class
class_of_bits true true = error
class_of_bits true false = response
class_of_bits false true = indication
class_of_bits false false = request

-- `matches!(self.class, Class::Error | Class::Indication)`, and with `Class::Response`
abbrev pub low_class_bit : Class → Bool
low_class_bit error = true
low_class_bit indication = true
low_class_bit request = false
low_class_bit response = false

abbrev pub high_class_bit : Class → Bool
high_class_bit error = true
high_class_bit response = true
high_class_bit request = false
high_class_bit indication = false

module _ {A : Type 0} (bits : Bitvec A) where
  open bits use {from_word, word, bit, any, set, fill, copy_within, copy_from_bitslice}

  -- The block that computes `method` from the bits of the first two bytes.
  abbrev pub method_bits : A → A
  method_bits bits =
      let squeezed_once = copy_within bits 5 8 4 in
      let squeezed = copy_within squeezed_once 9 16 7 in fill squeezed 12 16 false

  -- The bits that are written first, from `method` and `class`.
  abbrev pub method_class_bits : ℕ → Class → A
  method_class_bits method class =
      let method_bits = from_word method in
      let b0 = copy_from_bitslice (from_word 0) 0 4 method_bits 0 in
      let b1 = set b0 4 (low_class_bit class) in
      let b2 = copy_from_bitslice b1 5 8 method_bits 4 in
      let b3 = set b2 8 (high_class_bit class) in
      let b4 = copy_from_bitslice b3 9 14 method_bits 7 in fill b4 14 16 false

  module _ {B : Type 0} (buf : Buf B) where
    open buf use {remaining, get_u16, copy_to_slice, take_first, inner}

    -- The checks and reads behind the magic cookie.
    unfoldable pub decode_rest : ℕ → ℕ → B → Outcome ParseError (Header × B)
    decode_rest method_class_bytes length buffer =
        let method_class_bits = from_word method_class_bytes in
        if any method_class_bits 14 16 then err nonzero_first_bits else do
          (transaction_id, buffer) ← expect (copy_to_slice 12 buffer)
          ok (
            record {
              method = word (method_bits method_class_bits);
              class = class_of_bits (bit method_class_bits 8) (bit method_class_bits 4);
              transaction_id = transaction_id;
              length = length;
            },
            inner buffer,
          )

    -- `Header::decode_from`, with the buffer as it is left.
    unfoldable pub decode_header : B → Outcome ParseError (Header × B)
    decode_header buffer =
        if ltb (remaining buffer) header_size then err incorrect_header_length else do
          (method_class_bytes, buffer) ← expect (get_u16 (take_first header_size buffer))
          (length, buffer) ← expect (get_u16 buffer)
          (cookie, buffer) ← expect (copy_to_slice 4 buffer)
          if not (bytes_eq cookie magic_cookie)
              then err incorrect_magic_cookie
              else decode_rest method_class_bytes length buffer

  module _ {W : Type 0} (buf : BufMut W) where
    open buf use {remaining_mut, put_u16, put_slice}

    -- `Header::encode_into`
    unfoldable pub encode_header : Header → W → Outcome WriteError W
    encode_header header buffer =
        if ltb (remaining_mut buffer) header_size then err no_room_for_header else do
          buffer ← expect (put_u16 (word (method_class_bits header.method header.class)) buffer)
          buffer ← expect (put_u16 header.length buffer)
          buffer ← expect (put_slice magic_cookie buffer)
          buffer ← expect (put_slice header.transaction_id buffer)
          ok buffer
