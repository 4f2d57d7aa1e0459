-- ===== src/Core/Message/TlvCodec/Decode.antt =====
-- What decoding attributes returns, on every input.
use mstun.Base.{
  ℕ, ◌+◌, ◌-◌, ◌*◌, ◌/◌, ◌%◌, ◌≤◌, ◌<◌, ◌≡◌, refl, sym, ap, ◌∙◌, ◌⊎◌, inl, inr, arith, List, [],
  ◌∷◌, ◌++◌, length, length-append, append_assoc, All, le→ltb, lt→ltb, ltb, Bool-cases, ok, err,
  ltb→lt, ltb→le, split_at, false,
}
use mstun.Base.Words.{IsByte, be16-value, value-be16}
use mstun.Extern.Buf.{Buf, copy_exactly, advance_exactly}
use mstun.Core.Message.{Tlv, ParseError, tlv_header_too_short, tlv_exceeds_buffer}
use mstun.Core.Message.TlvCodec.{decode_tlv}
use mstun.Core.Message.TlvCodec.Spelling.{IsValid, ceil_mul_4_lem, pad_length, tlv_bytes}

module _ {B : Type 0} (buf : Buf B) where
  open buf use {bytes, remaining, remaining_lem, get_u16_lem}

  decode_tlv_short : (b : B) → length (bytes b) < 4 → decode_tlv buf b ≡ err tlv_header_too_short
  unfolding decode_tlv
  decode_tlv_short b h = rw (lt→ltb (remaining b) 4 (rw (remaining_lem b) h)) refl

  module _ (b : B) (x y l k : ℕ) where
    decode_tlv_exceeds :
        (left : List ℕ)
        → bytes b ≡ x ∷ y ∷ l ∷ k ∷ left
        → l * 256 + k < 65536
        → length left < (l * 256 + k + 3) / 4 * 4
        → decode_tlv buf b ≡ err (tlv_exceeds_buffer ((l * 256 + k + 3) / 4 * 4) (length left))
    unfolding decode_tlv
    decode_tlv_exceeds left e small over =
        let (b1, p1, q1, s1) = get_u16_lem b x y _ e in
        let (b2, p2, q2, s2) = get_u16_lem b1 l k _ q1 in
        let long : ltb (remaining b) 4 ≡ false =
          le→ltb _ _ (rw (remaining_lem b, e) (omega arith)) in
        let r : remaining b2 ≡ length left = remaining_lem b2 ∙ ap length q2 in
        rw
          (
            long,
            p1,
            p2,
            ceil_mul_4_lem (l * 256 + k) (omega arith),
            r,
            lt→ltb (length left) ((l * 256 + k + 3) / 4 * 4) over,
          )
          refl

    -- An attribute that is there in full is read, and the cursor stands behind its padding.
    pub decode_tlv-parts :
        (value pad rest : List ℕ)
        → bytes b ≡ x ∷ y ∷ l ∷ k ∷ (value ++ (pad ++ rest))
        → l * 256 + k < 65536
        → length value ≡ l * 256 + k
        → length pad ≡ pad_length (l * 256 + k)
        → (c : B) × (decode_tlv buf b
            ≡ ok (record { attribute_type = x * 256 + y; value = value }, c))
          × (bytes c ≡ rest)
    unfolding decode_tlv
    decode_tlv-parts value pad rest e small hv hp =
        let n = l * 256 + k in
        let (b1, p1, q1, s1) = get_u16_lem b x y _ e in
        let (b2, p2, q2, s2) = get_u16_lem b1 l k _ q1 in
        let (b3, p3, q3, s3) = copy_exactly buf n b2 value (pad ++ rest) hv q2 in
        let (b4, p4, q4, s4) = advance_exactly buf ((n + 3) / 4 * 4 - n) b3 pad rest hp q3 in
        let long : ltb (remaining b) 4 ≡ false =
          le→ltb _ _ (rw (remaining_lem b, e) (omega arith)) in
        let r : remaining b2 ≡ length (value ++ (pad ++ rest)) = remaining_lem b2 ∙ ap length q2 in
        let fits : ltb (remaining b2) ((n + 3) / 4 * 4) ≡ false =
          le→ltb _ _
            (omega (arith, r, length-append value (pad ++ rest), length-append pad rest)) in
        (b4, rw (long, p1, p2, ceil_mul_4_lem n (omega arith), fits, p3, p4) refl, q4)

  -- What a successful `Tlv::decode_from` took from the buffer.
  pub record Taken (b : B) : Type 0 where
    pub tlv : Tlv
    pub pad : List ℕ
    pub left : B
    pub result : decode_tlv buf b ≡ ok (tlv, left)
    pub valid : IsValid tlv
    pub padded : length pad ≡ pad_length (length tlv.value)
    pub split : bytes b ≡ tlv_bytes tlv pad ++ bytes left

  take_parts :
      (b : B) (x y l k : ℕ) (left : List ℕ)
      → IsByte x
      → IsByte y
      → IsByte l
      → IsByte k
      → bytes b ≡ x ∷ y ∷ l ∷ k ∷ left
      → (l * 256 + k + 3) / 4 * 4 ≤ length left
      → Taken b
  take_parts b x y l k left hx hy hl hk e fits =
      let n = l * 256 + k in
      let (value, more, e1, n1) = split_at n left (omega arith) in
      let (pad, rest, e2, n2) =
        split_at (pad_length n) more (omega (arith, ap length e1, length-append value more)) in
      let whole : bytes b ≡ x ∷ y ∷ l ∷ k ∷ (value ++ (pad ++ rest)) =
        e ∙ ap (λ t. x ∷ y ∷ l ∷ k ∷ t) (e1 ∙ ap (λ t. value ++ t) e2) in
      let (c, p, q) = decode_tlv-parts b x y l k value pad rest whole (omega arith) n1 n2 in
      record {
        tlv = record { attribute_type = x * 256 + y; value = value };
        pad = pad;
        left = c;
        result = p;
        valid = record { type_fits = omega arith; length_fits = omega (arith, n1) };
        padded = n2 ∙ ap pad_length (sym n1);
        split = whole ∙ layout b c x y l k value pad rest hx hy hl hk n1 q;
      }
    where
      layout :
          (b c : B) (x y l k : ℕ) (value pad rest : List ℕ)
          → IsByte x
          → IsByte y
          → IsByte l
          → IsByte k
          → length value ≡ l * 256 + k
          → bytes c ≡ rest
          → x ∷ y ∷ l ∷ k ∷ (value ++ (pad ++ rest))
            ≡ tlv_bytes (record { attribute_type = x * 256 + y; value = value }) pad ++ bytes c
      layout b c x y l k value pad rest hx hy hl hk n q =
          let (e0, e1) = value-be16 x y hx hy in
          let (e2, e3) = value-be16 l k hl hk in
          rw (n, e0, e1, e2, e3, q, append_assoc value pad rest) refl

  -- Decoding one attribute fails with an error, or takes a valid one off the front.
  pub decode_tlv_cases :
      (b : B) → All IsByte (bytes b) → Taken b ⊎ ((e : ParseError) × (decode_tlv buf b ≡ err e))
  decode_tlv_cases b hb = by_bytes (bytes b) refl hb
    where
      by_bytes :
          (bs : List ℕ)
          → bytes b ≡ bs
          → All IsByte bs
          → Taken b ⊎ ((e : ParseError) × (decode_tlv buf b ≡ err e))
      by_bytes (x ∷ y ∷ l ∷ k ∷ left) e h =
          let n = (l * 256 + k + 3) / 4 * 4 in
          elim (Bool-cases (ltb (length left) n)) [
            | inl over ↦ inr (
              tlv_exceeds_buffer n (length left),
              decode_tlv_exceeds b x y l k left e (omega (arith, h.1.1.0, h.1.1.1.0))
                  (ltb→lt _ _ over),
            )
            | inr fits ↦
                inl (take_parts b x y l k left h.0 h.1.0 h.1.1.0 h.1.1.1.0 e (ltb→le _ _ fits))
          ]
      by_bytes [] e h = inr (tlv_header_too_short, decode_tlv_short b (rw e (omega arith)))
      by_bytes _ e h = inr (tlv_header_too_short, decode_tlv_short b (rw e (omega arith)))

  -- Any spelling of a valid attribute decodes to it, whatever its padding and whatever follows.
  pub decode_tlv-tlv_bytes :
      (b : B) (t : Tlv) (pad rest : List ℕ)
      → IsValid t
      → length pad ≡ pad_length (length t.value)
      → bytes b ≡ tlv_bytes t pad ++ rest
      → (c : B) × (decode_tlv buf b ≡ ok (t, c)) × (bytes c ≡ rest)
  decode_tlv-tlv_bytes b t pad rest valid padded e =
      let n = length t.value in
      let a = t.attribute_type in
      let len = be16-value n valid.length_fits in
      let (c, p, q) =
        decode_tlv-parts b (a / 256 % 256) (a % 256) (n / 256 % 256) (n % 256) t.value pad rest
          (e ∙ rw (append_assoc t.value pad rest) refl) (omega (arith, valid.length_fits)) (sym len)
          (padded ∙ ap pad_length (sym len)) in
      (
        c,
        p
            ∙ ap (λ (k : ℕ). ok (record { attribute_type = k; value = t.value }, c))
                (be16-value a valid.type_fits),
        q,
      )
