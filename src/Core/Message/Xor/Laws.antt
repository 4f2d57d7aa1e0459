-- ===== src/Core/Message/Xor/Laws.antt =====
-- `xor_socket_addr` undoes itself, and changes no length.
use mstun.Base.{
  ℕ, suc, ◌+◌, ◌%◌, ◌<◌, ◌≡◌, refl, ap, ◌∙◌, arith, false, List, [], ◌∷◌, ◌++◌, map, length,
  length-append, length-take, length-take_le, length-drop, take, drop, ltb, ltb→le, le→ltb,
  Bool-cases, inl, inr, ◌==◌, if◌then◌else◌, bit_xor, take_exactly, drop_exactly, take-append-drop,
}
use mstun.Base.Words.{usize_mod}
use mstun.Base.Bits.{bit_xor_twice}
use mstun.Core.Message.{Tlv, Message, magic_cookie, calculate_len, sum_from, ceil_mul_4}
use mstun.Core.Message.Xor.{zip_xor, xor_value, xor_tlv, xor_socket_addr}

zip_xor_twice : (xs key : List ℕ) → zip_xor (zip_xor xs key) key ≡ xs
unfolding zip_xor
zip_xor_twice [] [] = refl
zip_xor_twice [] (k ∷ ks) = refl
zip_xor_twice (x ∷ xs) [] = refl
zip_xor_twice (x ∷ xs) (k ∷ ks) = rw (bit_xor_twice x k, zip_xor_twice xs ks) refl

pub length-zip_xor : (xs key : List ℕ) → length (zip_xor xs key) ≡ length xs
unfolding zip_xor
length-zip_xor [] [] = refl
length-zip_xor [] (k ∷ ks) = refl
length-zip_xor (x ∷ xs) [] = refl
length-zip_xor (x ∷ xs) (k ∷ ks) = ap suc (length-zip_xor xs ks)

-- A range of `n` bytes at the front.
abbrev pub xor_front : ℕ → List ℕ → List ℕ → List ℕ
xor_front n key v = if ltb (length v) n then v else zip_xor (take n v) key ++ drop n v

length-xor_front : (n : ℕ) (key v : List ℕ) → length (xor_front n key v) ≡ length v
length-xor_front n key v = elim (Bool-cases (ltb (length v) n)) [
  | inl short ↦ rw short refl
  | inr long ↦ rw long (
      omega (
        arith,
        ltb→le (length v) n long,
        length-append (zip_xor (take n v) key) (drop n v),
        length-zip_xor (take n v) key,
        length-take n v,
        length-drop n v,
      ))
]

xor_front_twice : (n : ℕ) (key v : List ℕ) → xor_front n key (xor_front n key v) ≡ v
xor_front_twice n key v = elim (Bool-cases (ltb (length v) n)) [
  | inl short ↦ rw (short, short) refl
  | inr long ↦
      let front = zip_xor (take n v) key in
      let size : length front ≡ n =
        length-zip_xor (take n v) key ∙ length-take_le n v (ltb→le (length v) n long) in
      let still : ltb (length (front ++ drop n v)) n ≡ false =
        le→ltb _ n (omega (arith, size, length-append front (drop n v))) in
      rw
        (
          long,
          still,
          take_exactly n front (drop n v) size,
          drop_exactly n front (drop n v) size,
          zip_xor_twice (take n v) key,
        )
        (take-append-drop n v)
]

-- The address, by its family.
abbrev pub xor_family : ℕ → List ℕ → List ℕ → List ℕ
xor_family family tid v =
    if family == 0x01
    then xor_front 4 magic_cookie v
    else if family == 0x02
    then xor_front 16 (magic_cookie ++ tid) v
    else v

xor_family_twice :
    (family : ℕ) (tid v : List ℕ) → xor_family family tid (xor_family family tid v) ≡ v
xor_family_twice family tid v =
    ground (arith, xor_front_twice 4 magic_cookie v, xor_front_twice 16 (magic_cookie ++ tid) v)

length-xor_family : (family : ℕ) (tid v : List ℕ) → length (xor_family family tid v) ≡ length v
length-xor_family family tid v =
    ground (arith, length-xor_front 4 magic_cookie v, length-xor_front 16 (magic_cookie ++ tid) v)

drop_head_test :
    (n : ℕ) (v : List ℕ) → ltb (suc (suc (suc (suc (length v))))) (n + 4) ≡ ltb (length v) n
drop_head_test n v = ground arith

-- On a value of four bytes or more: the port, then the address by the family.
pub xor_value-cons :
    (tid : List ℕ) (x f p q : ℕ) (v : List ℕ)
    → xor_value tid (x ∷ f ∷ p ∷ q ∷ v)
      ≡ x ∷ f ∷ bit_xor p 0x21 ∷ bit_xor q 0x12 ∷ xor_family f tid v
unfolding xor_value
xor_value-cons tid x f p q v =
    let long : ltb (suc (suc (suc (suc (length v))))) 4 ≡ false = le→ltb _ 4 (omega arith) in
    rw long (ground (arith, drop_head_test 4 v, drop_head_test 16 v))

pub xor_value_short : (tid v : List ℕ) → length v < 4 → xor_value tid v ≡ v
unfolding xor_value
xor_value_short tid [] h = refl
xor_value_short tid (x ∷ []) h = refl
xor_value_short tid (x ∷ f ∷ []) h = ground arith
xor_value_short tid (x ∷ f ∷ p ∷ []) h = ground arith
xor_value_short tid (x ∷ f ∷ p ∷ q ∷ v) h = absurd (omega arith)

xor_value_twice : (tid v : List ℕ) → xor_value tid (xor_value tid v) ≡ v
xor_value_twice tid (x ∷ f ∷ p ∷ q ∷ v) =
    rw
      (
        xor_value-cons tid x f p q v,
        xor_value-cons tid x f (bit_xor p 0x21) (bit_xor q 0x12) (xor_family f tid v),
        bit_xor_twice p 0x21,
        bit_xor_twice q 0x12,
        xor_family_twice f tid v,
      )
      refl
xor_value_twice tid [] =
    rw (xor_value_short tid [] (omega arith)) (xor_value_short tid [] (omega arith))
xor_value_twice tid v =
    rw (xor_value_short tid v (omega arith)) (xor_value_short tid v (omega arith))

length-xor_value : (tid v : List ℕ) → length (xor_value tid v) ≡ length v
length-xor_value tid (x ∷ f ∷ p ∷ q ∷ v) =
    rw (xor_value-cons tid x f p q v, length-xor_family f tid v) refl
length-xor_value tid [] = rw (xor_value_short tid [] (omega arith)) refl
length-xor_value tid v = rw (xor_value_short tid v (omega arith)) refl

module _ (id : ℕ) (tid : List ℕ) where
  xor_tlv_twice : (t : Tlv) → xor_tlv id tid (xor_tlv id tid t) ≡ t
  unfolding xor_tlv
  xor_tlv_twice t = elim (Bool-cases (t.attribute_type == id)) [
    | inl hit ↦
        rw (hit, hit)
          (ap (λ v. record { attribute_type = t.attribute_type; value = v })
            (xor_value_twice tid t.value))
    | inr miss ↦ rw (miss, miss) refl
  ]

  pub length-xor_tlv : (t : Tlv) → length (xor_tlv id tid t).value ≡ length t.value
  unfolding xor_tlv
  length-xor_tlv t = elim (Bool-cases (t.attribute_type == id)) [
    | inl hit ↦ rw hit (length-xor_value tid t.value)
    | inr miss ↦ rw miss refl
  ]

  map-xor_tlv_twice : (ts : List Tlv) → map (xor_tlv id tid) (map (xor_tlv id tid) ts) ≡ ts
  map-xor_tlv_twice [] = refl
  map-xor_tlv_twice (t ∷ ts) = rw (xor_tlv_twice t, map-xor_tlv_twice ts) refl

  sum_from-xor_tlv :
      (len : ℕ) (ts : List Tlv) → sum_from len (map (xor_tlv id tid) ts) ≡ sum_from len ts
  unfolding sum_from
  sum_from-xor_tlv len [] = refl
  sum_from-xor_tlv len (t ∷ ts) =
      ap (λ (n : ℕ). sum_from ((len + (ceil_mul_4 n + 4)) % usize_mod) (map (xor_tlv id tid) ts))
        (length-xor_tlv t)
      ∙ sum_from-xor_tlv ((len + (ceil_mul_4 (length t.value) + 4)) % usize_mod) ts

-- Applied twice under the same id, it gives the message back, whatever its attributes hold.
pub xor_socket_addr_twice : (id : ℕ) (m : Message) → xor_socket_addr id (xor_socket_addr id m) ≡ m
unfolding xor_socket_addr
xor_socket_addr_twice id m =
    ap (λ ts. record { header = m.header; attributes = ts })
      (map-xor_tlv_twice id m.header.transaction_id m.attributes)

-- It keeps the header, and the length that the header announces stays the right one.
pub xor_socket_addr-length :
    (id : ℕ) (m : Message)
    → ((xor_socket_addr id m).header ≡ m.header)
      × (calculate_len (xor_socket_addr id m).attributes ≡ calculate_len m.attributes)
unfolding xor_socket_addr calculate_len
xor_socket_addr-length id m =
    (refl, ap (λ (n : ℕ). n % 65536) (sum_from-xor_tlv id m.header.transaction_id 0 m.attributes))
