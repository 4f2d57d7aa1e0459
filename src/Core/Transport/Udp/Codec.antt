-- ===== src/Core/Transport/Udp/Codec.antt =====
-- Whole messages in datagrams.
use mstun.Base.{
  ℕ, ◌+◌, ◌≤◌, ◌<◌, ◌≡◌, refl, sym, ap, ◌∙◌, subst, arith, List, [], ◌++◌, length, take, drop,
  take-append-drop, take_exactly, append_assoc, append-nil, All, All-left, All-right, ok, err,
  >>=-eq-ok, Returns, >>=-Returns, inl, inr, Bool-cases, ltb, ltb→lt, ltb→le,
}
use mstun.Base.Words.{IsByte}
use mstun.Extern.Buf.{SliceBuf}
use mstun.Extern.BufMut.{SliceMut}
use mstun.Extern.Bitvec.{Bitvec}
use mstun.Core.Message.{
  Header, Tlv, Message, WriteError, calculate_len, no_room_for_header, no_room_for_tlv,
}
use mstun.Core.Message.Length.{calculate_len-total_size}
use mstun.Core.Message.HeaderCodec.{decode_header}
use mstun.Core.Message.HeaderCodec.Encode.{
  IsTyped, header_bytes, encode_header-header_bytes, encode_header_no_room,
}
use mstun.Core.Message.HeaderCodec.RoundTrip
use mstun.Core.Message.HeaderCodec.RoundTrip.{
  decode_header-header_bytes, decode_header_sound, decode_header-Returns,
}
use mstun.Core.Message.TlvCodec.{decode_tlvs}
use mstun.Core.Message.TlvCodec.Spelling
use mstun.Core.Message.TlvCodec.Spelling.{Spells, all_bytes, total_size, length-Spells}
use mstun.Core.Message.TlvCodec.Encode.{encode_tlvs-all_bytes, encode_tlvs_no_room}
use mstun.Core.Message.TlvCodec.DecodeList.{
  decode_tlvs-Spells, decode_tlvs_sound, decode_tlvs-Returns, all_bytes-Spells,
}
use mstun.Core.Transport.Udp.{decode_msg, encode_msg}

-- The bytes of a message, with zero padding.
abbrev pub message_bytes : Message → List ℕ
message_bytes m = header_bytes m.header ++ all_bytes m.attributes

abbrev pub message_size : Message → ℕ
message_size m = 20 + total_size m.attributes

-- The ranges of the fields, and value lengths that fit the length field.
pub record IsEncodable (m : Message) : Type 0 where
  pub header_typed : IsTyped m.header
  pub attributes_valid : All Spelling.IsValid m.attributes

-- Encodable with a 12-bit method and the right length, as the constructors of `Message` make it.
pub record IsWellFormed (m : Message) : Type 0 where
  pub encodable : IsEncodable m
  pub method_small : m.header.method < 4096
  pub length_right : m.header.length ≡ calculate_len m.attributes

module _ {A W : Type 0} (bits : Bitvec A) (slice : SliceMut W) where
  open slice use {buf_mut}
  open buf_mut use {written, remaining_mut}

  pub encode_msg-message_bytes :
      (m : Message) (w : W)
      → IsEncodable m
      → message_size m ≤ remaining_mut w
      → (v : W) × (encode_msg bits slice m w ≡ ok v)
        × (written v ≡ written w ++ message_bytes m)
        × (remaining_mut v + message_size m ≡ remaining_mut w)
  unfolding encode_msg
  encode_msg-message_bytes m w enc room =
      let (w1, p1, q1, r1) =
        encode_header-header_bytes bits buf_mut m.header w enc.header_typed (omega arith) in
      let (w2, p2, q2, r2) =
        encode_tlvs-all_bytes buf_mut m.attributes w1 enc.attributes_valid (omega arith) in
      (
        w2,
        rw (p1, p2) refl,
        q2
            ∙ ap (λ s. s ++ all_bytes m.attributes) q1
            ∙ append_assoc (written w) (header_bytes m.header) (all_bytes m.attributes),
        omega arith,
      )

  pub encode_msg_no_room :
      (m : Message) (w : W)
      → IsEncodable m
      → remaining_mut w < message_size m
      → (e : WriteError) × (encode_msg bits slice m w ≡ err e)
  unfolding encode_msg
  encode_msg_no_room m w enc full = elim (Bool-cases (ltb (remaining_mut w) 20)) [
    | inl none ↦ (
      no_room_for_header,
      rw (encode_header_no_room bits buf_mut m.header w (ltb→lt _ _ none)) refl,
    )
    | inr some ↦
        let (w1, p1, q1, r1) =
          encode_header-header_bytes bits buf_mut m.header w enc.header_typed (ltb→le _ _ some) in
        (
          no_room_for_tlv,
          rw p1 (encode_tlvs_no_room buf_mut m.attributes w1 enc.attributes_valid (omega arith)),
        )
  ]

module _ {A B : Type 0} (bits : Bitvec A) (slice : SliceBuf B) where
  open slice use {buf}
  open buf use {bytes, take_first, bytes-take_first}

  -- A datagram that begins with a valid header and holds a spelling of the attributes, as long as
  -- the header says, decodes to them; what follows is ignored.
  pub decode_msg-Spells :
      (b : B) (m : Message) (body more : List ℕ)
      → RoundTrip.IsValid m.header
      → Spells m.attributes body
      → m.header.length ≡ length body
      → bytes b ≡ header_bytes m.header ++ (body ++ more)
      → decode_msg bits slice b ≡ ok m
  unfolding decode_msg
  decode_msg-Spells b m body more valid spelled len e =
      let (c, p, q) = decode_header-header_bytes bits buf b m.header (body ++ more) valid e in
      let inside : bytes (take_first m.header.length c) ≡ body =
        bytes-take_first m.header.length c
        ∙ ap (take m.header.length) q
        ∙ take_exactly m.header.length body more (sym len) in
      let (d, p', q') =
        decode_tlvs-Spells buf (take_first m.header.length c)
          (subst (Spells m.attributes) (sym inside) spelled) in
      rw (p, p') refl

  All-take : (n : ℕ) (xs : List ℕ) → All IsByte xs → All IsByte (take n xs)
  All-take n xs h =
      All-left IsByte (take n xs) (drop n xs) (subst (All IsByte) (sym (take-append-drop n xs)) h)

  -- Decoding a datagram returns on every input.
  pub decode_msg-Returns : (b : B) → All IsByte (bytes b) → Returns (decode_msg bits slice b)
  unfolding decode_msg
  decode_msg-Returns b hb =
      >>=-Returns (decode_header bits buf b) _ (decode_header-Returns bits buf b hb) λ (h, c) p.
        let hc : All IsByte (bytes c) =
          All-right IsByte (header_bytes h) (bytes c)
            (subst (All IsByte) (decode_header_sound bits buf b c h hb p).1 hb) in
        let body = take_first h.length c in
        let hbody : All IsByte (bytes body) =
          subst (All IsByte) (sym (bytes-take_first h.length c)) (All-take h.length (bytes c) hc) in
        >>=-Returns (decode_tlvs buf body) _ (decode_tlvs-Returns buf body hbody) λ r q. tt

  abbrev Reads : B → Message → Type 0
  Reads b m =
      RoundTrip.IsValid m.header
      × ((rest : List ℕ) × (bytes b ≡ header_bytes m.header ++ rest)
          × Spells m.attributes (take m.header.length rest))

  decoded_parts :
      (b c d : B) (h : Header) (ts : List Tlv)
      → All IsByte (bytes b)
      → decode_header bits buf b ≡ ok (h, c)
      → decode_tlvs buf (take_first h.length c) ≡ ok (ts, d)
      → Reads b (record { header = h; attributes = ts })
  decoded_parts b c d h ts hb p q =
      let (valid, e) = decode_header_sound bits buf b c h hb p in
      let hc : All IsByte (bytes c) =
        All-right IsByte (header_bytes h) (bytes c) (subst (All IsByte) e hb) in
      let body = take_first h.length c in
      let view = bytes-take_first h.length c in
      let (spelled, _) =
        decode_tlvs_sound buf body d ts
          (subst (All IsByte) (sym view) (All-take h.length (bytes c) hc)) q in
      (valid, (bytes c, e, subst (Spells ts) view spelled))

  -- A message that decodes has a valid header at the front of the datagram, and its attributes
  -- are spelled by the bytes behind, up to the length that the header says or to the end of the
  -- datagram, if that comes first.
  pub decode_msg_sound :
      (b : B) (m : Message)
      → All IsByte (bytes b)
      → decode_msg bits slice b ≡ ok m
      → RoundTrip.IsValid m.header
        × ((rest : List ℕ) × (bytes b ≡ header_bytes m.header ++ rest)
            × Spells m.attributes (take m.header.length rest))
  unfolding decode_msg
  decode_msg_sound b m hb e =
      let ((h, c), p, e1) = >>=-eq-ok (decode_header bits buf b) _ e in
      let ((ts, d), q, e2) = >>=-eq-ok (decode_tlvs buf (take_first h.length c)) _ e1 in
      let same : ◌≡◌ {A = Message} (record { header = h; attributes = ts }) m = cc e2 in
      subst (Reads b) same (decoded_parts b c d h ts hb p q)

module _ {A B W : Type 0} (bits : Bitvec A) (slice : SliceBuf B) (slice_mut : SliceMut W) where
  open slice use {as_slice, bytes-as_slice}
  open slice_mut use {buf_mut, as_mut_slice, written-as_mut_slice, remaining_mut-as_mut_slice}
  open buf_mut use {written}

  -- What encoding writes for a well-formed message that fits the buffer decodes to the message.
  pub decode-encode_msg :
      (m : Message) (n : ℕ)
      → IsWellFormed m
      → message_size m ≤ n
      → n < 65536
      → (v : W) × (encode_msg bits slice_mut m (as_mut_slice n) ≡ ok v)
        × (decode_msg bits slice (as_slice (written v)) ≡ ok m)
  decode-encode_msg m n wf fits small =
      let (v, p, q, _) =
        encode_msg-message_bytes bits slice_mut m (as_mut_slice n) wf.encodable
          (omega (arith, remaining_mut-as_mut_slice n)) in
      let out : written v ≡ message_bytes m =
        q ∙ ap (λ s. s ++ message_bytes m) (written-as_mut_slice n) in
      let spelled = all_bytes-Spells m.attributes wf.encodable.attributes_valid in
      (
        v,
        p,
        decode_msg-Spells bits slice (as_slice (written v)) m (all_bytes m.attributes) []
            (record { typed = wf.encodable.header_typed; small = wf.method_small }) spelled
            (omega (
              arith,
              wf.length_right,
              calculate_len-total_size m.attributes wf.encodable.attributes_valid,
              length-Spells spelled,
            ))
            (bytes-as_slice (written v)
              ∙ out
              ∙ ap (λ s. header_bytes m.header ++ s) (sym (append-nil (all_bytes m.attributes)))),
      )
