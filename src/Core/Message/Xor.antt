-- ===== src/Core/Message/Xor.antt =====
-- stunny-core/src/message.rs: `Message::xor_socket_addr`.
pub mod Laws
pub mod Masks
use mstun.Base.{
  ℕ, ◌-◌, Bool, true, false, Option, none, some, List, [], ◌∷◌, ◌++◌, map, length, take, drop,
  get_elem?, ltb, ◌==◌, if◌then◌else◌, bit_xor,
}
use mstun.Core.Message.{Tlv, Message, magic_cookie}

-- `for (lhs, rhs) in iter::zip(slice, key) { *lhs ^= rhs; }`
unfoldable pub zip_xor : List ℕ → List ℕ → List ℕ
zip_xor (x ∷ xs) (k ∷ ks) = bit_xor x k ∷ zip_xor xs ks
zip_xor [] key = []
zip_xor xs [] = xs

-- `if let Some(slice) = value.get_mut(lo..hi)` with the slice changed by `key`
unfoldable pub xor_range : ℕ → ℕ → List ℕ → List ℕ → List ℕ
unfolding zip_xor
xor_range lo hi key value =
    if ltb (length value) hi
    then value
    else take lo value ++ (zip_xor (take (hi - lo) (drop lo value)) key ++ drop hi value)

-- `match *family`
unfoldable pub xor_addr : List ℕ → Option ℕ → List ℕ → List ℕ
unfolding xor_range
xor_addr tid none value = value
xor_addr tid (some family) value =
    if family == 0x01
    then xor_range 4 8 magic_cookie value
    else if family == 0x02
    then xor_range 4 20 (magic_cookie ++ tid) value
    else value

-- The loop body for an attribute of the given id.
unfoldable pub xor_value : List ℕ → List ℕ → List ℕ
unfolding xor_range xor_addr
xor_value tid value =
    let with_port = xor_range 2 4 (0x21 ∷ 0x12 ∷ []) value in
    xor_addr tid (get_elem? with_port 1) with_port

unfoldable pub xor_tlv : ℕ → List ℕ → Tlv → Tlv
unfolding xor_value
xor_tlv xored_attribute_id tid tlv =
    if tlv.attribute_type == xored_attribute_id
    then record tlv { value = xor_value tid tlv.value }
    else tlv

unfoldable pub xor_socket_addr : ℕ → Message → Message
unfolding xor_tlv
xor_socket_addr xored_attribute_id message = record message {
  attributes = map (xor_tlv xored_attribute_id message.header.transaction_id) message.attributes;
}
