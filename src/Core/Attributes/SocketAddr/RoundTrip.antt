-- ===== src/Core/Attributes/SocketAddr/RoundTrip.antt =====
-- Socket addresses in attribute values: what decoding accepts, and what survives the round trip.
use mstun.Base.{
  ℕ, ◌+◌, ◌*◌, ◌/◌, ◌%◌, ◌≡◌, refl, sym, ap, ◌∙◌, arith, false, List, [], ◌∷◌, ◌++◌, length,
  length-append, take, drop, take_exactly, drop_exactly, split_at, ltb, ltb→le, le→ltb, lt→ltb,
  ◌==◌, Bool-cases, inl, inr, if◌then◌else◌, Outcome, ok, err, expect, ◌>>=◌, bit_xor, append-nil,
  ◌<◌,
}
use mstun.Base.Words.{IsU16, be16, be16-value}
use mstun.Extern.Buf.{SliceBuf, copy_exactly}
use mstun.Extern.BufMut.{VecMut}
use mstun.Core.Message.{magic_cookie}
use mstun.Core.Message.Xor.{xor_value, zip_xor}
use mstun.Core.Message.Xor.Laws.{xor_value-cons}
use mstun.Core.Attributes.{
  ParseError, buffer_too_short, incorrect_prefix, not_enough_for_ipv4, not_enough_for_ipv6,
  unexpected_ip_version,
}
use mstun.Core.Attributes.SocketAddr.{
  SocketAddr, v4, v6, encode_socket_addr, decode_ip, decode_socket_addr,
}

-- Decoding described on the bytes: what follows the address is not looked at.
abbrev pub parse_ip : ℕ → ℕ → List ℕ → Outcome ParseError SocketAddr
parse_ip family port bytes =
    if family == 0x01
    then (if ltb (length bytes) 4 then err not_enough_for_ipv4 else ok (v4 (take 4 bytes) port))
    else if family == 0x02
    then (if ltb (length bytes) 16
        then err not_enough_for_ipv6
        else ok (v6 (take 16 bytes) port 0 0))
    else err (unexpected_ip_version family)

abbrev pub parse_socket_addr : List ℕ → Outcome ParseError SocketAddr
parse_socket_addr (prefix ∷ family ∷ hi ∷ lo ∷ bytes) =
    if prefix == 0 then parse_ip family (hi * 256 + lo) bytes else err incorrect_prefix
parse_socket_addr _ = err buffer_too_short

module _ {B : Type 0} (slice : SliceBuf B) where
  open slice use {buf, as_slice, bytes-as_slice}
  open buf use {bytes, remaining, remaining_lem, get_u8_lem, get_u16_lem}

  decode_ip-parse_ip :
      (family port : ℕ) (b : B) → decode_ip slice family port b ≡ parse_ip family port (bytes b)
  unfolding decode_ip
  decode_ip-parse_ip family port b = rw (remaining_lem b) (elim (Bool-cases (family == 0x01)) [
    | inl four ↦ rw four (octets 4 (λ o. v4 o port) not_enough_for_ipv4)
    | inr e ↦ elim (Bool-cases (family == 0x02)) [
      | inl six ↦ rw (e, six) (octets 16 (λ o. v6 o port 0 0) not_enough_for_ipv6)
      | inr f ↦ rw (e, f) refl
    ]
  ])
    where
      octets :
          (n : ℕ) (f : List ℕ → SocketAddr) (x : ParseError)
          → (if ltb (length (bytes b)) n
              then err x
              else (expect (buf.copy_to_slice n b) >>= λ (o, c). ok (f o)))
            ≡ (if ltb (length (bytes b)) n then err x else ok (f (take n (bytes b))))
      octets n f x = elim (Bool-cases (ltb (length (bytes b)) n)) [
        | inl short ↦ rw short refl
        | inr long ↦
            let (front, rest, e, size) = split_at n (bytes b) (ltb→le _ _ long) in
            let (c, p, _, _) = copy_exactly buf n b front rest size e in
            let t : take n (bytes b) ≡ front = ap (take n) e ∙ take_exactly n front rest size in
            rw (long, p, t) refl
      ]

  too_short :
      (value : List ℕ) → length value < 4 → decode_socket_addr slice value ≡ err buffer_too_short
  unfolding decode_socket_addr
  too_short value h =
      let b = as_slice value in
      rw (lt→ltb (remaining b) 4 (rw (remaining_lem b, bytes-as_slice value) h)) refl

  -- Decoding does what the description says on every input; in particular it never panics.
  pub decode_socket_addr-parse_socket_addr :
      (value : List ℕ) → decode_socket_addr slice value ≡ parse_socket_addr value
  unfolding decode_socket_addr
  decode_socket_addr-parse_socket_addr (x ∷ f ∷ hi ∷ lo ∷ bs) =
      let value = x ∷ f ∷ hi ∷ lo ∷ bs in
      let e = bytes-as_slice value in
      let (b1, p1, q1, _) = get_u8_lem (as_slice value) x _ e in
      let (b2, p2, q2, _) = get_u8_lem b1 f _ q1 in
      let (b3, p3, q3, _) = get_u16_lem b2 hi lo _ q2 in
      let long : ltb (remaining (as_slice value)) 4 ≡ false =
        le→ltb _ _ (rw (remaining_lem (as_slice value), e) (omega arith)) in
      elim (Bool-cases (x == 0)) [
        | inl z ↦
            rw (long, p1, z, p2, p3)
              (decode_ip-parse_ip f (hi * 256 + lo) b3 ∙ ap (parse_ip f (hi * 256 + lo)) q3)
        | inr nz ↦ rw (long, p1, nz) refl
      ]
  decode_socket_addr-parse_socket_addr [] = too_short [] (omega arith)
  decode_socket_addr-parse_socket_addr (x ∷ []) = too_short (x ∷ []) (omega arith)
  decode_socket_addr-parse_socket_addr (x ∷ f ∷ []) = too_short (x ∷ f ∷ []) (omega arith)
  decode_socket_addr-parse_socket_addr (x ∷ f ∷ hi ∷ []) = too_short (x ∷ f ∷ hi ∷ []) (omega arith)

-- The field ranges and octet counts of the type.
abbrev pub IsAddr : SocketAddr → Type 0
IsAddr (v4 octets port) = IsU16 port × (length octets ≡ 4)
IsAddr (v6 octets port flowinfo scope_id) = IsU16 port × (length octets ≡ 16)

-- What the value of an attribute can hold of an address.
abbrev pub without_scope : SocketAddr → SocketAddr
without_scope (v4 octets port) = v4 octets port
without_scope (v6 octets port flowinfo scope_id) = v6 octets port 0 0

-- The layout of RFC 8489, section 14.1.
abbrev pub addr_bytes : SocketAddr → List ℕ
addr_bytes (v4 octets port) = 0 ∷ 1 ∷ (be16 port ++ octets)
addr_bytes (v6 octets port flowinfo scope_id) = 0 ∷ 2 ∷ (be16 port ++ octets)

-- The layout of RFC 8489, section 14.2: the port and the address are xored with the cookie, and
-- an IPv6 address with the transaction id too.
abbrev pub xored_bytes : List ℕ → SocketAddr → List ℕ
xored_bytes tid (v4 octets port) =
    0
    ∷ 1
    ∷ bit_xor (port / 256 % 256) 0x21
    ∷ bit_xor (port % 256) 0x12
    ∷ zip_xor octets magic_cookie
xored_bytes tid (v6 octets port flowinfo scope_id) =
    0
    ∷ 2
    ∷ bit_xor (port / 256 % 256) 0x21
    ∷ bit_xor (port % 256) 0x12
    ∷ zip_xor octets (magic_cookie ++ tid)

pub parse-addr_bytes :
    (addr : SocketAddr) (more : List ℕ)
    → IsAddr addr
    → parse_socket_addr (addr_bytes addr ++ more) ≡ ok (without_scope addr)
parse-addr_bytes (v4 octets port) more (hp, ho) =
    rw
      (
        be16-value port hp,
        le→ltb (length (octets ++ more)) 4 (omega (arith, length-append octets more)),
        take_exactly 4 octets more ho,
      )
      refl
parse-addr_bytes (v6 octets port flowinfo scope_id) more (hp, ho) =
    rw
      (
        be16-value port hp,
        le→ltb (length (octets ++ more)) 16 (omega (arith, length-append octets more)),
        take_exactly 16 octets more ho,
      )
      refl

whole_front :
    (n : ℕ) (key octets : List ℕ)
    → length octets ≡ n
    → (if ltb (length octets) n then octets else zip_xor (take n octets) key ++ drop n octets)
      ≡ zip_xor octets key
whole_front n key octets h =
    let all : take n octets ≡ octets =
      ap (take n) (sym (append-nil octets)) ∙ take_exactly n octets [] h in
    let none_left : drop n octets ≡ [] =
      ap (drop n) (sym (append-nil octets)) ∙ drop_exactly n octets [] h in
    rw (le→ltb (length octets) n (omega arith), all, none_left) (append-nil (zip_xor octets key))

module _ {V : Type 0} (vec : VecMut V) where
  open vec use {contents-with_capacity, contents-put_u8, contents-put_u16, contents-put_slice}

  pub encode_socket_addr-addr_bytes :
      (addr : SocketAddr) → encode_socket_addr vec addr ≡ addr_bytes addr
  unfolding encode_socket_addr
  encode_socket_addr-addr_bytes (v4 octets port) =
      rw
        (
          contents-put_slice, contents-put_u16, contents-put_u8, contents-put_u8,
          contents-with_capacity,
        )
        refl
  encode_socket_addr-addr_bytes (v6 octets port flowinfo scope_id) =
      rw
        (
          contents-put_slice, contents-put_u16, contents-put_u8, contents-put_u8,
          contents-with_capacity,
        )
        refl

  -- What `xor_socket_addr` makes of an encoded address is the layout of XOR-MAPPED-ADDRESS.
  pub xor_value-encode_socket_addr :
      (tid : List ℕ) (addr : SocketAddr)
      → IsAddr addr
      → xor_value tid (encode_socket_addr vec addr) ≡ xored_bytes tid addr
  xor_value-encode_socket_addr tid (v4 octets port) (hp, ho) =
      ap (xor_value tid) (encode_socket_addr-addr_bytes (v4 octets port))
      ∙ xor_value-cons tid 0 1 (port / 256 % 256) (port % 256) octets
      ∙ ap (λ t. 0 ∷ 1 ∷ bit_xor (port / 256 % 256) 0x21 ∷ bit_xor (port % 256) 0x12 ∷ t)
          (whole_front 4 magic_cookie octets ho)
  xor_value-encode_socket_addr tid (v6 octets port flowinfo scope_id) (hp, ho) =
      ap (xor_value tid) (encode_socket_addr-addr_bytes (v6 octets port flowinfo scope_id))
      ∙ xor_value-cons tid 0 2 (port / 256 % 256) (port % 256) octets
      ∙ ap (λ t. 0 ∷ 2 ∷ bit_xor (port / 256 % 256) 0x21 ∷ bit_xor (port % 256) 0x12 ∷ t)
          (whole_front 16 (magic_cookie ++ tid) octets ho)

  module _ {B : Type 0} (slice : SliceBuf B) where
    -- Decoding gives back the address that was encoded, but for flow information and scope.
    pub decode-encode_socket_addr :
        (addr : SocketAddr)
        → IsAddr addr
        → decode_socket_addr slice (encode_socket_addr vec addr) ≡ ok (without_scope addr)
    decode-encode_socket_addr addr h =
        ap (decode_socket_addr slice)
          (encode_socket_addr-addr_bytes addr ∙ sym (append-nil (addr_bytes addr)))
        ∙ decode_socket_addr-parse_socket_addr slice (addr_bytes addr ++ [])
        ∙ parse-addr_bytes addr [] h
