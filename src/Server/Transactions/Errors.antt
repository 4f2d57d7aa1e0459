-- ===== src/Server/Transactions/Errors.antt =====
-- Addresses in error responses: `Response::send_error` does not mask them, as `Response::send` does.
use mstun.Base.{
  ℕ, suc, ◌+◌, ◌*◌, ◌/◌, ◌%◌, ◌≡◌, ◌≢◌, refl, ap, ◌∙◌, arith, List, [], ◌∷◌, ◌++◌, length, take,
  bit_xor, ok, some, le→ltb,
}
use mstun.Base.Bits.{bit_xor-odd}
use mstun.Extern.Buf.{SliceBuf}
use mstun.Extern.BufMut.{VecMut}
use mstun.Extern.Channel.{AsyncSender}
use mstun.Core.Message.{Tlv, Message, new_error, magic_cookie}
use mstun.Core.Message.Xor.{zip_xor, xor_value, xor_tlv, xor_socket_addr}
use mstun.Core.Message.Xor.Laws.{length-zip_xor}
use mstun.Core.Attributes.SocketAddr.{
  SocketAddr, v4, v6, encode_socket_addr, decode_socket_addr, xor_mapped_address,
}
use mstun.Core.Attributes.SocketAddr.RoundTrip.{
  IsAddr, without_scope, decode-encode_socket_addr, xored_bytes, parse_socket_addr,
  xor_value-encode_socket_addr, decode_socket_addr-parse_socket_addr,
}
use mstun.Core.Attributes.Collection.{append_attribute, extract_attribute, extract_attribute-found}
use mstun.Server.Transactions.{
  Request, build_response, with_attribute, send_error, xor_mapped_address_id,
}

-- The first octet of an address that was masked is another one.
zip_xor-changes :
    (octets key : List ℕ) (n k : ℕ)
    → length octets ≡ suc n
    → k % 2 ≡ 1
    → take (suc n) (zip_xor octets (k ∷ key)) ≡ octets
    → ⊥
unfolding zip_xor
zip_xor-changes [] key n k size odd same = absurd (omega arith)
zip_xor-changes (o ∷ octets) key n k size odd same = bit_xor-odd o k odd (heads same)
  where
    heads : {x y : ℕ} {xs ys : List ℕ} → x ∷ xs ≡ y ∷ ys → x ≡ y
    heads e = cc

-- Reading the masked bytes of an address gives another address.
masked_address :
    (tid : List ℕ) (addr : SocketAddr)
    → IsAddr addr
    → (read : SocketAddr) × (parse_socket_addr (xored_bytes tid addr) ≡ ok read)
      × (read ≢ without_scope addr)
masked_address tid (v4 octets port) (hp, ho) =
    let masked = zip_xor octets magic_cookie in
    (
      v4 (take 4 masked) (bit_xor (port / 256 % 256) 0x21 * 256 + bit_xor (port % 256) 0x12),
      rw (le→ltb (length masked) 4 (omega (arith, length-zip_xor octets magic_cookie))) refl,
      λ same. zip_xor-changes octets (0x12 ∷ 0xa4 ∷ 0x42 ∷ []) 3 0x21 ho refl (octets_of same),
    )
  where
    octets_of : {a b : List ℕ} {p q : ℕ} → v4 a p ≡ v4 b q → a ≡ b
    octets_of e = cc
masked_address tid (v6 octets port flow scope) (hp, ho) =
    let masked = zip_xor octets (magic_cookie ++ tid) in
    (
      v6 (take 16 masked) (bit_xor (port / 256 % 256) 0x21 * 256 + bit_xor (port % 256) 0x12) 0 0,
      rw (le→ltb (length masked) 16 (omega (arith, length-zip_xor octets (magic_cookie ++ tid))))
          refl,
      λ same. zip_xor-changes octets (0x12 ∷ 0xa4 ∷ 0x42 ∷ tid) 15 0x21 ho refl (octets_of same),
    )
  where
    octets_of : {a b : List ℕ} {p q s t u v : ℕ} → v6 a p s t ≡ v6 b q u v → a ≡ b
    octets_of e = cc

module _ {B V S : Type 0} (slice : SliceBuf B) (vec : VecMut V)
    (egress : AsyncSender S (Message × SocketAddr)) where
  open egress use {send}

  -- An error response with XOR-MAPPED-ADDRESS is sent with the address in clear: what reads its
  -- attributes as they are finds the address, without V6 flow and scope. A client that unmasks
  -- them, as stunny's does, reads another address.
  pub send_error-misread :
      (r : Request) (addr : SocketAddr) (sink : S)
      → IsAddr addr
      → (message : Message) × (read : SocketAddr) × ((s : S)
          → send (message, r.source_addr) sink ≡ some s
          → send_error egress
              (with_attribute (xor_mapped_address slice vec) addr (build_response r))
              sink
            ≡ ok s)
        × (extract_attribute (xor_mapped_address slice vec) message.attributes
            ≡ (ok (without_scope addr), []))
        × ((extract_attribute
              (xor_mapped_address slice vec)
              (xor_socket_addr xor_mapped_address_id message).attributes).0
            ≡ ok read)
        × (read ≢ without_scope addr)
  unfolding send_error with_attribute build_response append_attribute xor_socket_addr new_error
      xor_tlv
  send_error-misread r addr sink h =
      let (read, p, differs) = masked_address r.transaction_id addr h in
      let tlv : Tlv = record {
        attribute_type = xor_mapped_address_id;
        value = encode_socket_addr vec addr;
      } in
      let masked : Tlv = record tlv {
        value = xor_value r.transaction_id (encode_socket_addr vec addr);
      } in
      let clear : decode_socket_addr slice tlv.value ≡ ok (without_scope addr) =
        decode-encode_socket_addr vec slice addr h in
      let decoded : decode_socket_addr slice masked.value ≡ ok read =
        decode_socket_addr-parse_socket_addr slice masked.value
        ∙ ap parse_socket_addr (xor_value-encode_socket_addr vec r.transaction_id addr h)
        ∙ p in
      let extracted : extract_attribute (xor_mapped_address slice vec) (masked ∷ [])
          ≡ (ok read, []) =
        extract_attribute-found (xor_mapped_address slice vec) [] masked [] tt refl
        ∙ rw decoded refl in
      (
        new_error r.method r.transaction_id (tlv ∷ []),
        read,
        (λ s sent. rw (send_error, sent) refl),
        extract_attribute-found (xor_mapped_address slice vec) [] tlv [] tt refl ∙ rw clear refl,
        ap (λ x. x.0) extracted,
        differs,
      )
