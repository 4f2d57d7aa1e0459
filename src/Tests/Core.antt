-- ===== src/Tests/Core.antt =====
-- The codec, the attributes and the UDP transport.
use mstun.Base.{
  ℕ, ◌/◌, ◌%◌, ◌&&◌, leb, ltb, if◌then◌else◌, ◌≡◌, refl, arith, List, [], ◌∷◌, ◌++◌, ok, err, true,
  length,
}
use mstun.Extern.Concrete.{Slice, slice_buf, list_slice, list_vec, bits_bitvec}
use mstun.Core.Message.{calculate_len, ceil_mul_4}
use mstun.Core.Message.HeaderCodec.{decode_header, decode_rest}
use mstun.Core.Message.HeaderCodec.Encode.{header_bytes}
use mstun.Core.Message.HeaderCodec.RoundTrip
use mstun.Core.Message.HeaderCodec.RoundTrip.{
  decode_header-Returns, decode_header_sound, decode_header-header_bytes,
}
use mstun.Core.Message.TlvCodec.{decode_tlvs, decode_loop, decode_tlv}
use mstun.Core.Message.TlvCodec.Spelling
use mstun.Core.Message.TlvCodec.Spelling.{Spells, done, next, all_bytes, total_size}
use mstun.Core.Message.TlvCodec.DecodeList.{decode_tlvs-Spells, decode_tlvs_sound}
use mstun.Core.Message.Length.{calculate_len_lem}
use mstun.Core.Message.Xor.{xor_value, xor_socket_addr}
use mstun.Core.Message.Xor.Masks.{MasksEach, xor_socket_addr-MasksEach}
use mstun.Core.Attributes.{invalid_error_class}
use mstun.Core.Attributes.SocketAddr.{encode_socket_addr, decode_socket_addr}
use mstun.Core.Attributes.SocketAddr.RoundTrip.{
  IsAddr, xored_bytes, parse_socket_addr, xor_value-encode_socket_addr,
  decode_socket_addr-parse_socket_addr,
}
use mstun.Core.Attributes.ErrorCode.{ErrorCode, encode_error_code, decode_error_code}
use mstun.Core.Attributes.ErrorCode.Utf8.{is_utf8}
use mstun.Core.Attributes.ErrorCode.Laws.{decode-encode_error_code}
use mstun.Tests.{are_bytes-All, id, software_tlv, response_header, response_message, address}

pub response_header-IsValid : RoundTrip.IsValid response_header
response_header-IsValid = record {
  typed = record {
    is_method = omega arith;
    is_length = omega arith;
    id_length = refl;
    id_bytes = are_bytes-All id refl;
  };
  small = omega arith;
}

pub software_tlv-IsValid : Spelling.IsValid software_tlv
software_tlv-IsValid = record { type_fits = omega arith; length_fits = omega arith }

-- The header with a byte behind it.
abbrev header_slice : Slice
header_slice = (header_bytes response_header ++ 7 ∷ [], [])

decode_header_run :
    decode_header bits_bitvec slice_buf header_slice ≡ ok (response_header, (7 ∷ [], []))
unfolding decode_header decode_rest
decode_header_run = refl

-- "abc" padded with another byte than 0
abbrev tlv_slice : Slice
tlv_slice = (0x80 ∷ 0x22 ∷ 0 ∷ 3 ∷ 97 ∷ 98 ∷ 99 ∷ 5 ∷ [], [])

tlv_slice-Spells : Spells (software_tlv ∷ []) tlv_slice.0
tlv_slice-Spells = next software_tlv (5 ∷ []) software_tlv-IsValid refl done

decode_tlvs-Spells_example :
    (c : Slice) × (decode_tlvs slice_buf tlv_slice ≡ ok (software_tlv ∷ [], c)) × (c.0 ≡ [])
decode_tlvs-Spells_example = decode_tlvs-Spells slice_buf tlv_slice tlv_slice-Spells

decode_tlvs_run : decode_tlvs slice_buf tlv_slice ≡ ok (software_tlv ∷ [], ([], []))
unfolding decode_tlvs decode_loop decode_tlv ceil_mul_4
decode_tlvs_run = refl

decode_tlvs_sound_example : Spells (software_tlv ∷ []) tlv_slice.0 × (◌≡◌ {A = List ℕ} [] [])
decode_tlvs_sound_example =
    decode_tlvs_sound slice_buf tlv_slice ([], []) (software_tlv ∷ [])
      (are_bytes-All tlv_slice.0 refl) decode_tlvs_run

calculate_len_lem_example :
    (calculate_len (software_tlv ∷ []) ≡ length tlv_slice.0 % 65536)
    × (calculate_len (software_tlv ∷ []) % 4 ≡ 0)
calculate_len_lem_example =
    calculate_len_lem (software_tlv ∷ []) (software_tlv-IsValid, tt) tlv_slice-Spells

xor_socket_addr-MasksEach_example :
    ((xor_socket_addr 0x8022 response_message).header ≡ response_message.header)
    × MasksEach 0x8022 id response_message.attributes
        (xor_socket_addr 0x8022 response_message).attributes
    × (xor_socket_addr 0x8022 (xor_socket_addr 0x8022 response_message) ≡ response_message)
xor_socket_addr-MasksEach_example = xor_socket_addr-MasksEach 0x8022 response_message

address-IsAddr : IsAddr address
address-IsAddr = (omega arith, refl)

xor_value-encode_socket_addr_example :
    xor_value id (encode_socket_addr list_vec address) ≡ xored_bytes id address
xor_value-encode_socket_addr_example =
    xor_value-encode_socket_addr list_vec id address address-IsAddr

decode_socket_addr-parse_socket_addr_example :
    decode_socket_addr list_slice (0 ∷ 1 ∷ 2 ∷ []) ≡ parse_socket_addr (0 ∷ 1 ∷ 2 ∷ [])
decode_socket_addr-parse_socket_addr_example =
    decode_socket_addr-parse_socket_addr list_slice (0 ∷ 1 ∷ 2 ∷ [])

-- 404, "no"
abbrev no_code : ErrorCode
no_code = record { code = 404; reason = 110 ∷ 111 ∷ [] }

no_code_utf8 : is_utf8 no_code.reason ≡ true
unfolding is_utf8
no_code_utf8 = refl

decode-encode_error_code_example :
    decode_error_code list_slice (encode_error_code list_vec no_code)
    ≡ (if leb 300 404 && ltb 404 700 then ok no_code else err (invalid_error_class (404 / 100)))
decode-encode_error_code_example =
    decode-encode_error_code list_slice list_vec no_code no_code_utf8 (omega arith)
