-- ===== src/Core/Attributes/ErrorCode.antt =====
-- stunny-core/src/attributes.rs: `Software` and `ErrorCode`, whose texts are UTF-8.
pub mod Utf8
pub mod Laws
use Utf8.{is_utf8}
use mstun.Base.{
  ℕ, ◌+◌, ◌*◌, ◌/◌, ◌%◌, Bool, true, false, not, ◌&&◌, List, [], ◌∷◌, ltb, leb, ◌==◌, length,
  if◌then◌else◌, Outcome, ok, err, ◌>>=◌, expect,
}
use mstun.Extern.Buf.{SliceBuf}
use mstun.Extern.BufMut.{VecMut}
use mstun.Core.Attributes.{
  ParseError, buffer_too_short, nonzero_prefix, invalid_utf8, invalid_error_class,
  invalid_error_number, Attribute,
}

-- `str::from_utf8`; a text is the list of its bytes.
unfoldable pub from_utf8 : List ℕ → Outcome ParseError (List ℕ)
unfolding is_utf8
from_utf8 bytes = if is_utf8 bytes then ok bytes else err invalid_utf8

-- `Software::encode_value` gives the bytes of its text.
abbrev pub software : Attribute (List ℕ)
software = record { id = 0x8022; encode_value = λ text. text; decode_value = from_utf8 }

pub record ErrorCode : Type 0 where
  pub code : ℕ
  pub reason : List ℕ

module _ {V : Type 0} (vec : VecMut V) where
  open vec use {contents, with_capacity, put_u8, put_slice, put_bytes}

  unfoldable pub encode_error_code : ErrorCode → List ℕ
  encode_error_code e =
      let value = put_bytes 0 2 (with_capacity (4 + length e.reason)) in
      contents
        (put_slice e.reason (put_u8 (e.code % 100 % 256) (put_u8 (e.code / 100 % 256) value)))

module _ {B : Type 0} (slice : SliceBuf B) where
  open slice use {buf, as_slice, chunk}
  open buf use {remaining, get_u8, get_u16}

  unfoldable pub decode_error_code : List ℕ → Outcome ParseError ErrorCode
  decode_error_code tlv_value =
      let buffer = as_slice tlv_value in
      if ltb (remaining buffer) 4 then err buffer_too_short else do
        (prefix, buffer) ← expect (get_u16 buffer)
        if not (prefix == 0) then err nonzero_prefix else do
          (class, buffer) ← expect (get_u8 buffer)
          if not (leb 3 class && leb class 6) then err (invalid_error_class class) else do
            (number, buffer) ← expect (get_u8 buffer)
            if not (ltb number 100) then err (invalid_error_number number) else do
              reason ← from_utf8 (chunk buffer)
              ok (record { code = class * 100 + number; reason = reason })

  module _ {V : Type 0} (vec : VecMut V) where
    abbrev pub error_code : Attribute ErrorCode
    error_code = record {
      id = 0x0009;
      encode_value = encode_error_code vec;
      decode_value = decode_error_code;
    }
