-- ===== src/Core/Message.antt =====
-- stunny-core/src/message.rs: the data of a STUN message, its length and its constructors.
-- A `u8` or `u16` is a number with its range stated where it matters; `usize` has 64 bits.
pub mod HeaderCodec
pub mod TlvCodec
pub mod Length
pub mod Xor
use mstun.Base.{ℕ, ◌+◌, ◌-◌, ◌%◌, List, [], ◌∷◌, length, bit_and}
use mstun.Base.Words.{usize_mod}

-- The messages of `ParseError`; those with numbers are built by `format!`.
pub data ParseError : Type 0 where
  incorrect_header_length incorrect_magic_cookie nonzero_first_bits : ParseError
  tlv_header_too_short : ParseError
  tlv_exceeds_buffer : ℕ → ℕ → ParseError

-- The `io::Error`s of kind `OutOfMemory` that encoding returns.
pub data WriteError : Type 0 where
  no_room_for_header no_room_for_tlv : WriteError

pub data Class : Type 0 where
  request response error indication : Class

pub record Header : Type 0 where
  pub method : ℕ
  pub class : Class
  pub transaction_id : List ℕ
  pub length : ℕ

pub record Tlv : Type 0 where
  pub attribute_type : ℕ
  pub value : List ℕ

pub record Message : Type 0 where
  pub header : Header
  pub attributes : List Tlv

-- `($x + 3) & !0x3` on `usize`
unfoldable pub ceil_mul_4 : ℕ → ℕ
ceil_mul_4 x = bit_and ((x + 3) % usize_mod) (usize_mod - 1 - 3)

abbrev pub header_size : ℕ
header_size = 20

abbrev pub tlv_header_size : ℕ
tlv_header_size = 4

abbrev pub magic_cookie : List ℕ
magic_cookie = 0x21 ∷ 0x12 ∷ 0xa4 ∷ 0x42 ∷ []

-- The iterator's `sum`, from `len`.
sum_from : ℕ → List Tlv → ℕ
sum_from len [] = len
sum_from len (tlv ∷ tlvs) =
    sum_from ((len + (ceil_mul_4 (length tlv.value) + tlv_header_size)) % usize_mod) tlvs

unfoldable pub calculate_len : List Tlv → ℕ
unfolding sum_from
calculate_len attributes = sum_from 0 attributes % 65536

-- `Message::request`
unfoldable pub new_request : ℕ → List ℕ → List Tlv → Message
new_request method transaction_id attributes = record {
  header = record {
    method = method;
    class = request;
    transaction_id = transaction_id;
    length = calculate_len attributes;
  };
  attributes = attributes;
}

-- `Message::response`
unfoldable pub new_response : ℕ → List ℕ → List Tlv → Message
new_response method transaction_id attributes = record {
  header = record {
    method = method;
    class = response;
    transaction_id = transaction_id;
    length = calculate_len attributes;
  };
  attributes = attributes;
}

-- `Message::error`
unfoldable pub new_error : ℕ → List ℕ → List Tlv → Message
new_error method transaction_id attributes = record {
  header = record {
    method = method;
    class = error;
    transaction_id = transaction_id;
    length = calculate_len attributes;
  };
  attributes = attributes;
}

-- `Message::indication`
unfoldable pub new_indication : ℕ → List ℕ → List Tlv → Message
new_indication method transaction_id attributes = record {
  header = record {
    method = method;
    class = indication;
    transaction_id = transaction_id;
    length = calculate_len attributes;
  };
  attributes = attributes;
}
