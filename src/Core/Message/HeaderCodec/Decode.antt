-- ===== src/Core/Message/HeaderCodec/Decode.antt =====
-- What `Header::decode_from` returns, on every input.
use mstun.Base.{
  ℕ, ◌+◌, ◌*◌, ◌≡◌, refl, sym, ap, ◌∙◌, inl, inr, true, false, arith, ltb, le→ltb, lt→ltb, ltb→lt,
  append-nil, Bool-cases, Outcome, ok, err, List, [], ◌∷◌, ◌++◌, length, take_exactly, drop_exactly,
  length-append, append_assoc, if◌then◌else◌,
}
use mstun.Base.Words.{IsByte, IsU16}
use mstun.Base.Bytes.{bytes_eq}
use mstun.Extern.Buf.{Buf, copy_exactly}
use mstun.Extern.Bitvec.{Bitvec}
use mstun.Core.Message.{
  Header, ParseError, header_size, magic_cookie, incorrect_magic_cookie, nonzero_first_bits,
}
use mstun.Core.Message.HeaderCodec.{decode_header, decode_rest}
use mstun.Core.Message.HeaderCodec.Bits.{
  word_method, word_class, word-method_bits, bit-from_word_four, bit-from_word_eight, any-from_word,
}

-- The header that 20 bytes with the right cookie stand for.
abbrev pub header_of : ℕ → ℕ → List ℕ → Header
header_of w n tid = record {
  method = word_method w;
  class = word_class w;
  transaction_id = tid;
  length = n;
}

-- The outcome of decoding, by the parts of the first 20 bytes.
abbrev pub header_outcome {ℓ} :
    {B : Type ℓ} → ℕ → ℕ → List ℕ → List ℕ → B → Outcome ParseError (Header × B)
header_outcome w n cookie tid c =
    if bytes_eq cookie magic_cookie
    then (if ltb w 16384 then ok (header_of w n tid, c) else err nonzero_first_bits)
    else err incorrect_magic_cookie

module _ {A B : Type 0} (bits : Bitvec A) (buf : Buf B) where
  open bits use {from_word, any}
  open buf use {
    bytes, beyond, remaining, get_u16, take_first, inner, remaining_lem, get_u16_lem,
    bytes-take_first, beyond-take_first, bytes-inner,
  }

  decode_rest_lem :
      (w n : ℕ) (b : B) (tid rest : List ℕ)
      → IsU16 w
      → length tid ≡ 12
      → bytes b ≡ tid
      → beyond b ≡ rest
      → (c : B) × (decode_rest bits buf w n b
          ≡ (if ltb w 16384 then ok (header_of w n tid, c) else err nonzero_first_bits))
        × (bytes c ≡ rest)
  unfolding decode_rest
  decode_rest_lem w n b tid rest hw ht hb hr =
      let (c, p, q, s) = copy_exactly buf 12 b tid [] ht (hb ∙ sym (append-nil tid)) in
      (
        inner c,
        elim (Bool-cases (any (from_word w) 14 16)) [
          | inl set ↦ rw (set, not_small set) refl
          | inr clear ↦
              rw
                (
                  clear,
                  p,
                  lt→ltb w 16384 ((any-from_word bits w hw).0 clear),
                  word-method_bits bits w hw,
                  bit-from_word_eight bits w hw,
                  bit-from_word_four bits w hw,
                )
                refl
        ],
        bytes-inner c ∙ rw (q, s) hr,
      )
    where
      not_small : any (from_word w) 14 16 ≡ true → ltb w 16384 ≡ false
      not_small set = elim (Bool-cases (ltb w 16384)) [
        | inl small ↦ cc ((any-from_word bits w hw).1 (ltb→lt w 16384 small))
        | inr e ↦ e
      ]

  -- On 20 bytes or more, by their parts.
  pub decode_header-header_outcome :
      (b : B) (x y l k : ℕ) (cookie tid rest : List ℕ)
      → IsByte x
      → IsByte y
      → length cookie ≡ 4
      → length tid ≡ 12
      → bytes b ≡ x ∷ y ∷ l ∷ k ∷ (cookie ++ (tid ++ rest))
      → (c : B) × (decode_header bits buf b
          ≡ header_outcome (x * 256 + y) (l * 256 + k) cookie tid c)
        × (bytes c ≡ rest)
  unfolding decode_header
  decode_header-header_outcome b x y l k cookie tid rest hx hy hc ht e =
      let front : length (cookie ++ tid) ≡ 16 = omega (arith, length-append cookie tid) in
      let within : bytes (take_first 20 b) ≡ x ∷ y ∷ l ∷ k ∷ (cookie ++ tid) =
        bytes-take_first 20 b
        ∙ rw (e, ← append_assoc cookie tid rest)
            (ap (λ t. x ∷ y ∷ l ∷ k ∷ t) (take_exactly 16 (cookie ++ tid) rest front)) in
      let behind : beyond (take_first 20 b) ≡ rest =
        beyond-take_first 20 b
        ∙ rw (e, ← append_assoc cookie tid rest) (drop_exactly 16 (cookie ++ tid) rest front) in
      let (b1, p1, q1, s1) = get_u16_lem (take_first 20 b) x y _ within in
      let (b2, p2, q2, s2) = get_u16_lem b1 l k _ q1 in
      let (b3, p3, q3, s3) = copy_exactly buf 4 b2 cookie tid hc q2 in
      let (c, p4, q4) =
        decode_rest_lem (x * 256 + y) (l * 256 + k) b3 tid rest (omega arith) ht q3
          (s3 ∙ s2 ∙ s1 ∙ behind) in
      let long : ltb (remaining b) header_size ≡ false = le→ltb _ _ (
        rw (remaining_lem b, e)
          (omega (arith, length-append cookie (tid ++ rest), length-append tid rest))) in
      (
        c,
        elim (Bool-cases (bytes_eq cookie magic_cookie)) [
          | inl same ↦ rw (long, p1, p2, p3, same) p4
          | inr other ↦ rw (long, p1, p2, p3, other) refl
        ],
        q4,
      )
