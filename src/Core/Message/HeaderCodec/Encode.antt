-- ===== src/Core/Message/HeaderCodec/Encode.antt =====
-- What `Header::encode_into` writes.
use mstun.Base.{
  ℕ, ◌+◌, ◌≤◌, ◌<◌, ◌≡◌, refl, arith, le→ltb, lt→ltb, ok, err, List, ◌++◌, length, append_assoc,
  All,
}
use mstun.Base.Words.{IsByte, IsU16, be16}
use mstun.Extern.BufMut.{BufMut}
use mstun.Extern.Bitvec.{Bitvec}
use mstun.Core.Message.{Header, header_size, magic_cookie, no_room_for_header}
use mstun.Core.Message.HeaderCodec.{encode_header, method_class_bits}
use mstun.Core.Message.HeaderCodec.Bits.{method_word, method_word-lt, word-method_class_bits}

-- The 20 bytes of a header, as RFC 8489 lays them out.
abbrev pub header_bytes : Header → List ℕ
header_bytes h =
    be16 (method_word h.method h.class) ++ (be16 h.length ++ (magic_cookie ++ h.transaction_id))

-- The ranges of the fields, as the types of the struct have them.
pub record IsTyped (h : Header) : Type 0 where
  pub is_method : IsU16 h.method
  pub is_length : IsU16 h.length
  pub id_length : length h.transaction_id ≡ 12
  pub id_bytes : All IsByte h.transaction_id

module _ {A W : Type 0} (bits : Bitvec A) (buf : BufMut W) where
  open bits use {word}
  open buf use {written, remaining_mut, put_u16, put_slice, put_u16_lem, put_slice_lem}

  -- With room for 20 bytes, encoding succeeds, writes the layout and uses up 20 bytes of room.
  pub encode_header-header_bytes :
      (h : Header) (w : W)
      → IsTyped h
      → header_size ≤ remaining_mut w
      → (v : W) × (encode_header bits buf h w ≡ ok v)
        × (written v ≡ written w ++ header_bytes h)
        × (remaining_mut v + header_size ≡ remaining_mut w)
  unfolding encode_header
  encode_header-header_bytes h w typed room =
      let m = word (method_class_bits bits h.method h.class) in
      let e : m ≡ method_word h.method h.class =
        word-method_class_bits bits h.method h.class typed.is_method in
      let (w1, p1, q1, r1) =
        put_u16_lem w m (omega (arith, e, method_word-lt h.method h.class)) (omega arith) in
      let (w2, p2, q2, r2) = put_u16_lem w1 h.length typed.is_length (omega arith) in
      let (w3, p3, q3, r3) = put_slice_lem w2 magic_cookie (omega arith) in
      let (w4, p4, q4, r4) = put_slice_lem w3 h.transaction_id (omega (arith, typed.id_length)) in
      (
        w4,
        rw (le→ltb (remaining_mut w) header_size room, p1, p2, p3, p4) refl,
        rw (q4, q3, q2, q1, e) (simp append_assoc),
        omega (arith, typed.id_length),
      )

  pub encode_header_no_room :
      (h : Header) (w : W)
      → remaining_mut w < header_size
      → encode_header bits buf h w ≡ err no_room_for_header
  unfolding encode_header
  encode_header_no_room h w full = rw (lt→ltb (remaining_mut w) header_size full) refl
