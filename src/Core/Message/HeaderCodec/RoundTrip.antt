-- ===== src/Core/Message/HeaderCodec/RoundTrip.antt =====
-- Decoding a header against its layout, in both directions.
use mstun.Base.{
  ℕ, ◌+◌, ◌*◌, ◌/◌, ◌%◌, ◌≤◌, ◌<◌, ◌≡◌, refl, sym, ap, ◌∙◌, inl, inr, arith, ltb, lt→ltb, ltb→le,
  ltb→lt, Bool-cases, ok, err, Returns, List, ◌∷◌, ◌++◌, length, split_at, length-append, All,
  All-left, All-right,
}
use mstun.Base.Words.{IsByte, IsU16, be16-value, value-be16}
use mstun.Base.Bytes.{bytes_eq, bytes_eq-eq}
use mstun.Extern.Buf.{Buf}
use mstun.Extern.Bitvec.{Bitvec}
use mstun.Core.Message.{Header, header_size, magic_cookie, incorrect_header_length}
use mstun.Core.Message.HeaderCodec.{decode_header}
use mstun.Core.Message.HeaderCodec.Bits.{
  method_word, method_word-lt, word_method-method_word, word_class-method_word,
  method_word-word_method,
}
use mstun.Core.Message.HeaderCodec.Encode.{IsTyped, header_bytes}
use mstun.Core.Message.HeaderCodec.Decode.{header_of, header_outcome, decode_header-header_outcome}

-- A header that its layout can hold: the method has 12 bits.
pub record IsValid (h : Header) : Type 0 where
  pub typed : IsTyped h
  pub small : h.method < 4096

-- The parts of 20 bytes.
pub record Parts (bs : List ℕ) : Type 0 where
  pub x : ℕ
  pub y : ℕ
  pub l : ℕ
  pub k : ℕ
  pub cookie : List ℕ
  pub id : List ℕ
  pub rest : List ℕ
  pub whole : bs ≡ x ∷ y ∷ l ∷ k ∷ (cookie ++ (id ++ rest))
  pub cookie_length : length cookie ≡ 4
  pub id_length : length id ≡ 12

pub bytes-Parts : (bs : List ℕ) → 20 ≤ length bs → Parts bs
bytes-Parts (x ∷ y ∷ l ∷ k ∷ bs) h =
    let (cookie, left, e, n) = split_at 4 bs (omega arith) in
    let (id, rest, e', n') =
      split_at 12 left (omega (arith, ap length e, length-append cookie left)) in
    record {
      x = x;
      y = y;
      l = l;
      k = k;
      cookie = cookie;
      id = id;
      rest = rest;
      whole = ap (λ t. x ∷ y ∷ l ∷ k ∷ t) (e ∙ ap (λ t. cookie ++ t) e');
      cookie_length = n;
      id_length = n';
    }
bytes-Parts _ h = absurd (omega arith)

-- What a successful outcome says of the parts.
outcome-ok :
    {B : Type 0} (w n : ℕ) (cookie tid : List ℕ) (c d : B) (h : Header)
    → header_outcome w n cookie tid c ≡ ok (h, d)
    → (cookie ≡ magic_cookie) × (w < 16384) × (h ≡ header_of w n tid) × (d ≡ c)
outcome-ok w n cookie tid c d h e = elim (Bool-cases (bytes_eq cookie magic_cookie)) [
  | inl same ↦ ground (arith, bytes_eq-eq cookie magic_cookie)
  | inr other ↦ ground arith
]

outcome-Returns :
    {B : Type 0} (w n : ℕ) (cookie tid : List ℕ) (c : B) → Returns (header_outcome w n cookie tid c)
outcome-Returns w n cookie tid c = ground arith

outcome-header_bytes :
    {B : Type 0} (h : Header) (c : B)
    → IsValid h
    → let w = method_word h.method h.class in
      header_outcome
        (w / 256 % 256 * 256 + w % 256)
        (h.length / 256 % 256 * 256 + h.length % 256)
        magic_cookie
        h.transaction_id
        c
      ≡ ok (h, c)
outcome-header_bytes h c valid =
    let w = method_word h.method h.class in
    let small = method_word-lt h.method h.class in
    rw
      (
        be16-value w (omega arith),
        be16-value h.length valid.typed.is_length,
        lt→ltb w 16384 small,
        word_method-method_word h.method h.class valid.small,
        word_class-method_word h.method h.class,
      )
      refl

header_of-IsValid :
    (w n : ℕ) (tid : List ℕ)
    → w < 16384
    → IsU16 n
    → length tid ≡ 12
    → All IsByte tid
    → IsValid (header_of w n tid)
header_of-IsValid w n tid hw hn ht hb = record {
  typed = record { is_method = omega arith; is_length = hn; id_length = ht; id_bytes = hb };
  small = omega arith;
}

header_bytes-header_of :
    (x y l k : ℕ) (tid : List ℕ)
    → IsByte x
    → IsByte y
    → IsByte l
    → IsByte k
    → x * 256 + y < 16384
    → header_bytes (header_of (x * 256 + y) (l * 256 + k) tid)
      ≡ x ∷ y ∷ l ∷ k ∷ (magic_cookie ++ tid)
header_bytes-header_of x y l k tid hx hy hl hk small =
    let (e0, e1) = value-be16 x y hx hy in
    let (e2, e3) = value-be16 l k hl hk in
    rw (method_word-word_method (x * 256 + y) small, e0, e1, e2, e3) refl

module _ {A B : Type 0} (bits : Bitvec A) (buf : Buf B) where
  open buf use {bytes, remaining, remaining_lem}

  decode_header_short :
      (b : B) → length (bytes b) < 20 → decode_header bits buf b ≡ err incorrect_header_length
  unfolding decode_header
  decode_header_short b h = rw (lt→ltb (remaining b) header_size (rw (remaining_lem b) h)) refl

  -- Decoding returns on every input: it never reads past the end, which would be a panic.
  pub decode_header-Returns : (b : B) → All IsByte (bytes b) → Returns (decode_header bits buf b)
  decode_header-Returns b hb = elim (Bool-cases (ltb (length (bytes b)) 20)) [
    | inl short ↦ rw (decode_header_short b (ltb→lt _ _ short)) tt
    | inr long ↦
        let p = bytes-Parts (bytes b) (ltb→le _ _ long) in
        let hb' : All IsByte (p.x ∷ p.y ∷ p.l ∷ p.k ∷ (p.cookie ++ (p.id ++ p.rest))) =
          rw p.whole at hb in
        let (c, e, _) =
          decode_header-header_outcome bits buf b p.x p.y p.l p.k p.cookie p.id p.rest hb'.0 hb'.1.0
            p.cookie_length p.id_length p.whole in
        rw e (outcome-Returns (p.x * 256 + p.y) (p.l * 256 + p.k) p.cookie p.id c)
  ]

  -- A header that decodes is valid, and the bytes taken are its layout.
  pub decode_header_sound :
      (b c : B) (h : Header)
      → All IsByte (bytes b)
      → decode_header bits buf b ≡ ok (h, c)
      → IsValid h × (bytes b ≡ header_bytes h ++ bytes c)
  decode_header_sound b c h hb ok_h = elim (Bool-cases (ltb (length (bytes b)) 20)) [
    | inl short ↦ cc (decode_header_short b (ltb→lt _ _ short))
    | inr long ↦
        let p = bytes-Parts (bytes b) (ltb→le _ _ long) in
        let hb' : All IsByte (p.x ∷ p.y ∷ p.l ∷ p.k ∷ (p.cookie ++ (p.id ++ p.rest))) =
          rw p.whole at hb in
        let (hx, hy, hl, hk) : IsByte p.x × IsByte p.y × IsByte p.l × IsByte p.k =
          (hb'.0, hb'.1.0, hb'.1.1.0, hb'.1.1.1.0) in
        let tail = hb'.1.1.1.1 in
        let (d, e, q) =
          decode_header-header_outcome bits buf b p.x p.y p.l p.k p.cookie p.id p.rest hx hy
            p.cookie_length p.id_length p.whole in
        let (cookie_eq, small, h_eq, c_eq) =
          outcome-ok (p.x * 256 + p.y) (p.l * 256 + p.k) p.cookie p.id d c h (sym e ∙ ok_h) in
        (
          rw h_eq (
              header_of-IsValid (p.x * 256 + p.y) (p.l * 256 + p.k) p.id small (omega arith)
                p.id_length
                (All-left IsByte p.id p.rest (All-right IsByte p.cookie (p.id ++ p.rest) tail))),
          p.whole
              ∙ ap (λ t. p.x ∷ p.y ∷ p.l ∷ p.k ∷ (t ++ (p.id ++ p.rest))) cookie_eq
              ∙ sym (
                  ap (λ t. t ++ p.rest)
                    (header_bytes-header_of p.x p.y p.l p.k p.id hx hy hl hk small))
              ∙ sym (ap (λ u. header_bytes u ++ p.rest) h_eq)
              ∙ sym (ap (λ t. header_bytes h ++ t) (ap bytes c_eq ∙ q)),
        )
  ]

  -- The layout of a valid header decodes to it, whatever follows, which is left to read.
  pub decode_header-header_bytes :
      (b : B) (h : Header) (rest : List ℕ)
      → IsValid h
      → bytes b ≡ header_bytes h ++ rest
      → (c : B) × (decode_header bits buf b ≡ ok (h, c)) × (bytes c ≡ rest)
  decode_header-header_bytes b h rest valid e =
      let w = method_word h.method h.class in
      let (c, p, q) =
        decode_header-header_outcome bits buf b (w / 256 % 256) (w % 256) (h.length / 256 % 256)
          (h.length % 256) magic_cookie h.transaction_id rest (omega arith) (omega arith) refl
          valid.typed.id_length e in
      (c, p ∙ outcome-header_bytes h c valid, q)
