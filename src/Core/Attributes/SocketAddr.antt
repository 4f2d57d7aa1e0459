-- ===== src/Core/Attributes/SocketAddr.antt =====
-- stunny-core/src/attributes.rs: socket addresses, and the three attributes that hold one.
pub mod RoundTrip
use mstun.Base.{
  ℕ, ◌-◌, ◌/◌, ◌%◌, Bool, true, false, not, List, [], ◌∷◌, ◌++◌, ltb, ◌==◌, if◌then◌else◌, Outcome,
  ok, err, ◌>>=◌, expect, Option,
}
use mstun.Base.Words.{be16}
use mstun.Extern.Buf.{SliceBuf}
use mstun.Extern.BufMut.{VecMut}
use mstun.Core.Attributes.{
  ParseError, buffer_too_short, incorrect_prefix, not_enough_for_ipv4, not_enough_for_ipv6,
  unexpected_ip_version, Attribute,
}

-- `std::net::SocketAddr`: the octets of the address and the port; a V6 address has its flow
-- information and its scope besides.
pub data SocketAddr : Type 0 where
  v4 : List ℕ → ℕ → SocketAddr
  v6 : List ℕ → ℕ → ℕ → ℕ → SocketAddr

module _ {V : Type 0} (vec : VecMut V) where
  open vec use {contents, with_capacity, put_u8, put_u16, put_slice}

  unfoldable pub encode_socket_addr : SocketAddr → List ℕ
  encode_socket_addr (v4 octets port) =
      let value = put_u8 0 (with_capacity 20) in
      contents (put_slice octets (put_u16 port (put_u8 0x01 value)))
  encode_socket_addr (v6 octets port flowinfo scope_id) =
      let value = put_u8 0 (with_capacity 20) in
      contents (put_slice octets (put_u16 port (put_u8 0x02 value)))

module _ {B : Type 0} (slice : SliceBuf B) where
  open slice use {buf, as_slice}
  open buf use {remaining, get_u8, get_u16, copy_to_slice}

  -- `match family`; `SocketAddr::new` sets flow information and scope to 0.
  unfoldable pub decode_ip : ℕ → ℕ → B → Outcome ParseError SocketAddr
  decode_ip family port buffer =
      if family == 0x01
      then (if ltb (remaining buffer) 4
          then err not_enough_for_ipv4
          else do (octets, buffer) ← expect (copy_to_slice 4 buffer); ok (v4 octets port))
      else if family == 0x02
      then (if ltb (remaining buffer) 16
          then err not_enough_for_ipv6
          else do (octets, buffer) ← expect (copy_to_slice 16 buffer); ok (v6 octets port 0 0))
      else err (unexpected_ip_version family)

  unfoldable pub decode_socket_addr : List ℕ → Outcome ParseError SocketAddr
  decode_socket_addr tlv_value =
      let buffer = as_slice tlv_value in
      if ltb (remaining buffer) 4 then err buffer_too_short else do
        (prefix, buffer) ← expect (get_u8 buffer)
        if not (prefix == 0x00) then err incorrect_prefix else do
          (family, buffer) ← expect (get_u8 buffer)
          (port, buffer) ← expect (get_u16 buffer)
          decode_ip family port buffer

  module _ {V : Type 0} (vec : VecMut V) where
    -- `MappedAddress`, `XorMappedAddress` and `ResponseOrigin`, each around its address.
    abbrev pub socket_addr_attribute : ℕ → Attribute SocketAddr
    socket_addr_attribute id = record {
      id = id;
      encode_value = encode_socket_addr vec;
      decode_value = decode_socket_addr;
    }

    abbrev pub mapped_address : Attribute SocketAddr
    mapped_address = socket_addr_attribute 0x0001

    abbrev pub xor_mapped_address : Attribute SocketAddr
    xor_mapped_address = socket_addr_attribute 0x0020

    abbrev pub response_origin : Attribute SocketAddr
    response_origin = socket_addr_attribute 0x802b
