-- ===== src/Core/Attributes/ErrorCode/Laws.antt =====
-- Error codes in attribute values: what decoding accepts, and the round trip.
use mstun.Base.{
  ℕ, ◌+◌, ◌*◌, ◌/◌, ◌%◌, ◌≡◌, ◌<◌, refl, ap, ◌∙◌, arith, true, false, not, ◌&&◌, List, [], ◌∷◌,
  length, ltb, leb, le→ltb, lt→ltb, ◌==◌, if◌then◌else◌, Bool-cases, inl, inr, Outcome, ok, err,
}
use mstun.Extern.Buf.{SliceBuf}
use mstun.Extern.BufMut.{VecMut}
use mstun.Core.Attributes.{
  ParseError, buffer_too_short, nonzero_prefix, invalid_utf8, invalid_error_class,
  invalid_error_number,
}
use mstun.Core.Attributes.ErrorCode.{ErrorCode, encode_error_code, decode_error_code, from_utf8}
use mstun.Core.Attributes.ErrorCode.Utf8.{is_utf8}

-- The checks on the bytes of a value, in the order in which decoding makes them.
abbrev pub parse_error_code : List ℕ → Outcome ParseError ErrorCode
parse_error_code (p ∷ q ∷ class ∷ number ∷ bytes) =
    if not (p * 256 + q == 0)
    then err nonzero_prefix
    else if not (leb 3 class && leb class 6)
    then err (invalid_error_class class)
    else if not (ltb number 100)
    then err (invalid_error_number number)
    else if is_utf8 bytes
    then ok (record { code = class * 100 + number; reason = bytes })
    else err invalid_utf8
parse_error_code _ = err buffer_too_short

by_class :
    (code : ℕ) (reason : List ℕ)
    → is_utf8 reason ≡ true
    → code < 25600
    → parse_error_code (0 ∷ 0 ∷ (code / 100 % 256) ∷ (code % 100 % 256) ∷ reason) ≡ (
        if leb 300 code && ltb code 700
        then ok (record { code = code; reason = reason })
        else err (invalid_error_class (code / 100)))
by_class code reason text small =
    let class : code / 100 % 256 ≡ code / 100 = omega arith in
    let number : code % 100 % 256 ≡ code % 100 = omega arith in
    let whole : code / 100 * 100 + code % 100 ≡ code = omega arith in
    let below : ltb (code % 100) 100 ≡ true = lt→ltb _ _ (omega arith) in
    let range : (leb 3 (code / 100) && leb (code / 100) 6) ≡ (leb 300 code && ltb code 700) =
      ground arith in
    rw (class, number, range, below, text, whole)
      (elim (Bool-cases (leb 300 code && ltb code 700)) [
        | inl in_range ↦ rw in_range refl
        | inr out ↦ rw out refl
      ])

module _ {B : Type 0} (slice : SliceBuf B) where
  open slice use {buf, as_slice, chunk, bytes-as_slice, chunk_lem}
  open buf use {bytes, remaining, remaining_lem, get_u8_lem, get_u16_lem}

  too_short :
      (value : List ℕ) → length value < 4 → decode_error_code slice value ≡ err buffer_too_short
  unfolding decode_error_code
  too_short value h =
      let b = as_slice value in
      rw (lt→ltb (remaining b) 4 (rw (remaining_lem b, bytes-as_slice value) h)) refl

  -- Decoding makes these checks and no others, on every input; in particular it never panics.
  pub decode_error_code-parse_error_code :
      (value : List ℕ) → decode_error_code slice value ≡ parse_error_code value
  unfolding decode_error_code from_utf8
  decode_error_code-parse_error_code (x ∷ y ∷ class ∷ number ∷ bs) =
      let value = x ∷ y ∷ class ∷ number ∷ bs in
      let e = bytes-as_slice value in
      let (b1, p1, q1, _) = get_u16_lem (as_slice value) x y _ e in
      let (b2, p2, q2, _) = get_u8_lem b1 class _ q1 in
      let (b3, p3, q3, _) = get_u8_lem b2 number _ q2 in
      let long : ltb (remaining (as_slice value)) 4 ≡ false =
        le→ltb _ _ (rw (remaining_lem (as_slice value), e) (omega arith)) in
      let text : chunk b3 ≡ bs = chunk_lem b3 ∙ q3 in
      elim (Bool-cases (x * 256 + y == 0)) [
        | inl z ↦ elim (Bool-cases (leb 3 class && leb class 6)) [
          | inl known ↦ elim (Bool-cases (ltb number 100)) [
            | inl small ↦ elim (Bool-cases (is_utf8 bs)) [
              | inl good ↦ rw (long, p1, z, p2, known, p3, small, text, good) refl
              | inr bad ↦ rw (long, p1, z, p2, known, p3, small, text, bad) refl
            ]
            | inr large ↦ rw (long, p1, z, p2, known, p3, large) refl
          ]
          | inr other ↦ rw (long, p1, z, p2, other) refl
        ]
        | inr nz ↦ rw (long, p1, nz) refl
      ]
  decode_error_code-parse_error_code [] = too_short [] (omega arith)
  decode_error_code-parse_error_code (x ∷ []) = too_short (x ∷ []) (omega arith)
  decode_error_code-parse_error_code (x ∷ f ∷ []) = too_short (x ∷ f ∷ []) (omega arith)
  decode_error_code-parse_error_code (x ∷ f ∷ hi ∷ []) = too_short (x ∷ f ∷ hi ∷ []) (omega arith)

  module _ {V : Type 0} (vec : VecMut V) where
    open vec use {contents-with_capacity, contents-put_u8, contents-put_bytes, contents-put_slice}

    encode_error_code_bytes :
        (e : ErrorCode)
        → encode_error_code vec e ≡ 0 ∷ 0 ∷ (e.code / 100 % 256) ∷ (e.code % 100 % 256) ∷ e.reason
    unfolding encode_error_code
    encode_error_code_bytes e =
        rw
          (
            contents-put_slice, contents-put_u8, contents-put_u8, contents-put_bytes,
            contents-with_capacity,
          )
          refl

    -- A code whose hundreds fit a byte comes back exactly when it is one of 300 to 699; any other
    -- is written and refused by the reader.
    pub decode-encode_error_code :
        (e : ErrorCode)
        → is_utf8 e.reason ≡ true
        → e.code < 25600
        → decode_error_code slice (encode_error_code vec e) ≡ (
            if leb 300 e.code && ltb e.code 700
            then ok e
            else err (invalid_error_class (e.code / 100)))
    decode-encode_error_code e text small =
        ap (decode_error_code slice) (encode_error_code_bytes e)
        ∙ decode_error_code-parse_error_code
            (0 ∷ 0 ∷ (e.code / 100 % 256) ∷ (e.code % 100 % 256) ∷ e.reason)
        ∙ by_class e.code e.reason text small
