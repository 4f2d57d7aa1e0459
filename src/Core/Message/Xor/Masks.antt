-- ===== src/Core/Message/Xor/Masks.antt =====
-- stunny-core/src/message.rs: `Message::xor_socket_addr` against the layout of an address.
use mstun.Base.{
  ℕ, ◌<◌, ◌≤◌, ◌≡◌, ◌≢◌, refl, sym, ap, arith, false, List, [], ◌∷◌, ◌++◌, map, length,
  length-take_le, take, drop, ltb, ltb→lt, ltb→le, Bool-cases, ◌⊎◌, inl, inr, ◌==◌, ==_iff, bit_xor,
  take-append-drop,
}
use mstun.Core.Message.{Tlv, Message, magic_cookie}
use mstun.Core.Message.Xor.{zip_xor, xor_value, xor_tlv, xor_socket_addr}
use mstun.Core.Message.Xor.Laws.{
  xor_front, xor_family, xor_value-cons, xor_value_short, xor_socket_addr_twice,
}

-- What masking makes of the bytes of a value under a transaction's id: the port is masked by the front
-- of the cookie, a V4 address by the cookie, a V6 address by the cookie and the id, and nothing else.
pub data Masked (tid before after : List ℕ) : Type 0 where
  short : length before < 4 → after ≡ before → Masked tid before after
  v4 :
      (x p q a b c d : ℕ) (rest : List ℕ)
      → before ≡ x ∷ 1 ∷ p ∷ q ∷ a ∷ b ∷ c ∷ d ∷ rest
      → after
        ≡ x
          ∷ 1
          ∷ bit_xor p 0x21
          ∷ bit_xor q 0x12
          ∷ bit_xor a 0x21
          ∷ bit_xor b 0x12
          ∷ bit_xor c 0xa4
          ∷ bit_xor d 0x42
          ∷ rest
      → Masked tid before after
  v6 :
      (x p q : ℕ) (octets rest : List ℕ)
      → length octets ≡ 16
      → before ≡ x ∷ 2 ∷ p ∷ q ∷ octets ++ rest
      → after
        ≡ x ∷ 2 ∷ bit_xor p 0x21 ∷ bit_xor q 0x12 ∷ zip_xor octets (magic_cookie ++ tid) ++ rest
      → Masked tid before after
  -- a family that is not known, or an address that is cut off
  port_only :
      (x f p q : ℕ) (rest : List ℕ)
      → (f ≡ 1 → length rest < 4)
      → (f ≡ 2 → length rest < 16)
      → before ≡ x ∷ f ∷ p ∷ q ∷ rest
      → after ≡ x ∷ f ∷ bit_xor p 0x21 ∷ bit_xor q 0x12 ∷ rest
      → Masked tid before after

-- An attribute of the given type is masked, and any other stays.
abbrev pub MasksTlv : ℕ → List ℕ → Tlv → Tlv → Type 0
MasksTlv id tid before after =
    (before.attribute_type ≡ id) × (after.attribute_type ≡ id) × Masked tid before.value after.value
    ⊎ (before.attribute_type ≢ id) × (after ≡ before)

abbrev pub MasksEach : ℕ → List ℕ → List Tlv → List Tlv → Type 0
MasksEach id tid [] after = after ≡ []
MasksEach id tid (t ∷ ts) [] = ⊥
MasksEach id tid (t ∷ ts) (t' ∷ ts') = MasksTlv id tid t t' × MasksEach id tid ts ts'

not_eq : (a b : ℕ) → (a == b) ≡ false → a ≢ b
not_eq a b h e = ground (arith, h, e)

-- The port, and the rest as it stands.
only_port :
    (tid : List ℕ) (x f p q : ℕ) (v : List ℕ)
    → (f ≡ 1 → length v < 4)
    → (f ≡ 2 → length v < 16)
    → Masked tid (x ∷ f ∷ p ∷ q ∷ v) (x ∷ f ∷ bit_xor p 0x21 ∷ bit_xor q 0x12 ∷ v)
only_port tid x f p q v cut cut' = port_only x f p q v cut cut' refl refl

v4_family :
    (tid : List ℕ) (x p q : ℕ) (v : List ℕ)
    → Masked tid
        (x ∷ 1 ∷ p ∷ q ∷ v)
        (x ∷ 1 ∷ bit_xor p 0x21 ∷ bit_xor q 0x12 ∷ xor_front 4 magic_cookie v)
unfolding zip_xor
v4_family tid x p q v = elim (Bool-cases (ltb (length v) 4)) [
  | inl cut ↦
      rw cut (only_port tid x 1 p q v (λ e. ltb→lt _ _ cut) (λ e. absurd (omega (arith, e))))
  | inr whole ↦ rw whole (by_octets v (ltb→le _ _ whole))
]
  where
    by_octets :
        (v : List ℕ)
        → 4 ≤ length v
        → Masked tid
            (x ∷ 1 ∷ p ∷ q ∷ v)
            (x ∷ 1 ∷ bit_xor p 0x21 ∷ bit_xor q 0x12 ∷ zip_xor (take 4 v) magic_cookie ++ drop 4 v)
    by_octets (a ∷ b ∷ c ∷ d ∷ v) h = v4 x p q a b c d v refl refl
    by_octets [] h = absurd (omega arith)
    by_octets (a ∷ []) h = absurd (omega arith)
    by_octets (a ∷ b ∷ []) h = absurd (omega arith)
    by_octets (a ∷ b ∷ c ∷ []) h = absurd (omega arith)

v6_family :
    (tid : List ℕ) (x p q : ℕ) (v : List ℕ)
    → Masked tid
        (x ∷ 2 ∷ p ∷ q ∷ v)
        (x ∷ 2 ∷ bit_xor p 0x21 ∷ bit_xor q 0x12 ∷ xor_front 16 (magic_cookie ++ tid) v)
v6_family tid x p q v = elim (Bool-cases (ltb (length v) 16)) [
  | inl cut ↦
      rw cut (only_port tid x 2 p q v (λ e. absurd (omega (arith, e))) (λ e. ltb→lt _ _ cut))
  | inr whole ↦ rw whole (
      v6 x p q (take 16 v) (drop 16 v) (length-take_le 16 v (ltb→le _ _ whole))
        (ap (λ r. x ∷ 2 ∷ p ∷ q ∷ r) (sym (take-append-drop 16 v))) refl)
]

family-Masked :
    (tid : List ℕ) (x f p q : ℕ) (v : List ℕ)
    → Masked tid (x ∷ f ∷ p ∷ q ∷ v) (x ∷ f ∷ bit_xor p 0x21 ∷ bit_xor q 0x12 ∷ xor_family f tid v)
family-Masked tid x f p q v = elim (Bool-cases (f == 0x01)) [
  | inl one ↦ let e : f ≡ 1 = (==_iff f 1).0 one in rw e (v4_family tid x p q v)
  | inr not_one ↦ elim (Bool-cases (f == 0x02)) [
    | inl two ↦ let e : f ≡ 2 = (==_iff f 2).0 two in rw e (v6_family tid x p q v)
    | inr not_two ↦
        rw (not_one, not_two)
          (only_port tid x f p q v (λ e. absurd (not_eq f 1 not_one e))
            (λ e. absurd (not_eq f 2 not_two e)))
  ]
]

xor_value-Masked : (tid v : List ℕ) → Masked tid v (xor_value tid v)
xor_value-Masked tid (x ∷ f ∷ p ∷ q ∷ v) =
    rw (xor_value-cons tid x f p q v) (family-Masked tid x f p q v)
xor_value-Masked tid [] = short (omega arith) (xor_value_short tid [] (omega arith))
xor_value-Masked tid v = short (omega arith) (xor_value_short tid v (omega arith))

xor_tlv-MasksTlv : (id : ℕ) (tid : List ℕ) (t : Tlv) → MasksTlv id tid t (xor_tlv id tid t)
unfolding xor_tlv
xor_tlv-MasksTlv id tid t = elim (Bool-cases (t.attribute_type == id)) [
  | inl hit ↦
      let e : t.attribute_type ≡ id = (==_iff t.attribute_type id).0 hit in
      rw hit (inl (e, e, xor_value-Masked tid t.value))
  | inr miss ↦ rw miss (inr (not_eq t.attribute_type id miss, refl))
]

map-MasksEach :
    (id : ℕ) (tid : List ℕ) (ts : List Tlv) → MasksEach id tid ts (map (xor_tlv id tid) ts)
map-MasksEach id tid [] = refl
map-MasksEach id tid (t ∷ ts) = (xor_tlv-MasksTlv id tid t, map-MasksEach id tid ts)

-- It masks the value of each attribute of the given type, by the id of the message's transaction,
-- as the layout of an address has it, whatever bytes the value holds; other attributes and the
-- header stay. Applied twice it gives the message back.
pub xor_socket_addr-MasksEach :
    (id : ℕ) (m : Message)
    → ((xor_socket_addr id m).header ≡ m.header)
      × MasksEach id m.header.transaction_id m.attributes (xor_socket_addr id m).attributes
      × (xor_socket_addr id (xor_socket_addr id m) ≡ m)
unfolding xor_socket_addr
xor_socket_addr-MasksEach id m =
    (refl, map-MasksEach id m.header.transaction_id m.attributes, xor_socket_addr_twice id m)
