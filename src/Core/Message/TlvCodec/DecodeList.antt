-- ===== src/Core/Message/TlvCodec/DecodeList.antt =====
-- `Vec::<Tlv>::decode_from` against the spelling of attribute lists.
use mstun.Base.{
  ℕ, zero, suc, ◌≤◌, ◌<◌, ◌≡◌, refl, sym, ap, ◌∙◌, inl, inr, arith, List, [], ◌∷◌, ◌++◌, length,
  length-append, append_assoc, append-nil, All, All-right, le→ltb, lt→ltb, ltb, Bool-cases, Outcome,
  ok, err, stuck, ltb→le, Returns, true, false, subst, replicate, length-replicate,
}
use mstun.Base.Words.{IsByte}
use mstun.Extern.Buf.{Buf}
use mstun.Core.Message.{Tlv, ParseError}
use mstun.Core.Message.TlvCodec.{decode_tlv, decode_loop, decode_tlvs}
use mstun.Core.Message.TlvCodec.Spelling.{
  IsValid, Spells, done, next, pad_length, tlv_bytes, length-tlv_bytes, all_bytes,
}
use mstun.Core.Message.TlvCodec.Decode.{Taken, decode_tlv_cases, decode_tlv-tlv_bytes}

module _ {B : Type 0} (buf : Buf B) where
  open buf use {bytes, remaining, remaining_lem}

  nothing_left : (b : B) → bytes b ≡ [] → ltb 0 (remaining b) ≡ false
  nothing_left b e = rw (remaining_lem b, e) refl

  something_left : (b : B) {n : ℕ} → length (bytes b) ≡ suc n → ltb 0 (remaining b) ≡ true
  something_left b e = lt→ltb _ _ (omega (arith, remaining_lem b))

  all_read : (b : B) → ltb 0 (remaining b) ≡ false → bytes b ≡ []
  all_read b e = empty (bytes b) (omega (arith, remaining_lem b, ltb→le _ _ e))
    where
      empty : (bs : List ℕ) → length bs ≤ 0 → bs ≡ []
      empty [] h = refl
      empty (x ∷ bs) h = absurd (omega arith)

  module _ (b : B) (ret : List Tlv) where
    loop_end : (fuel : ℕ) → ltb 0 (remaining b) ≡ false → decode_loop buf fuel b ret ≡ ok (ret, b)
    unfolding decode_loop
    loop_end zero e = rw e refl
    loop_end (suc fuel) e = rw (e, decode_loop) refl

    loop_stuck : ltb 0 (remaining b) ≡ true → decode_loop buf zero b ret ≡ stuck
    unfolding decode_loop
    loop_stuck e = rw e refl

    loop_error :
        (fuel : ℕ) (x : ParseError)
        → ltb 0 (remaining b) ≡ true
        → decode_tlv buf b ≡ err x
        → decode_loop buf (suc fuel) b ret ≡ err x
    unfolding decode_loop
    loop_error fuel x e bad = rw (e, bad, decode_loop) refl

    loop_step :
        (fuel : ℕ) (t : Tlv) (c : B)
        → ltb 0 (remaining b) ≡ true
        → decode_tlv buf b ≡ ok (t, c)
        → decode_loop buf (suc fuel) b ret ≡ decode_loop buf fuel c (ret ++ t ∷ [])
    unfolding decode_loop
    loop_step fuel t c e good = rw (e, good, decode_loop) refl

  decode_loop-Spells :
      (fuel : ℕ) (b : B) (ret : List Tlv) {ts : List Tlv} {bs : List ℕ}
      → Spells ts bs
      → bytes b ≡ bs
      → length bs ≤ fuel
      → (c : B) × (decode_loop buf fuel b ret ≡ ok (ret ++ ts, c)) × (bytes c ≡ [])
  decode_loop-Spells fuel b ret done e h =
      (b, loop_end b ret fuel (nothing_left b e) ∙ ap (λ l. ok (l, b)) (sym (append-nil ret)), e)
  decode_loop-Spells zero b ret (next t pad {bs = bs} valid padded s) e h =
      absurd (omega (arith, length-append (tlv_bytes t pad) bs, length-tlv_bytes t pad padded))
  decode_loop-Spells (suc fuel) b ret (next t pad {ts = ts} {bs = bs} valid padded s) e h =
      let (c, p, q) = decode_tlv-tlv_bytes buf b t pad bs valid padded e in
      let size = length-append (tlv_bytes t pad) bs in
      let (d, p', q') =
        decode_loop-Spells fuel c (ret ++ t ∷ []) s q
          (omega (arith, size, length-tlv_bytes t pad padded)) in
      (
        d,
        loop_step b ret fuel t c (something_left b (ap length e)) p
            ∙ p'
            ∙ ap (λ l. ok (l, d)) (append_assoc ret (t ∷ []) ts),
        q',
      )

  pub record Read (b : B) (ret out : List Tlv) (c : B) : Type 0 where
    pub more : List Tlv
    pub grown : out ≡ ret ++ more
    pub spelled : Spells more (bytes b)
    pub finished : bytes c ≡ []

  rest_of_Taken : (b : B) → All IsByte (bytes b) → (t : Taken buf b) → All IsByte (bytes t.left)
  rest_of_Taken b hb t =
      All-right IsByte (tlv_bytes t.tlv t.pad) (bytes t.left) (subst (All IsByte) t.split hb)

  shorter : (b : B) (t : Taken buf b) → length (bytes t.left) < length (bytes b)
  shorter b t = omega (
    arith,
    ap length t.split,
    length-append (tlv_bytes t.tlv t.pad) (bytes t.left),
    length-tlv_bytes t.tlv t.pad t.padded,
  )

  Read-nothing :
      (b c : B) (ret out : List Tlv)
      → ltb 0 (remaining b) ≡ false
      → ◌≡◌ {A = Outcome ParseError (List Tlv × B)} (ok (ret, b)) (ok (out, c))
      → Read b ret out c
  Read-nothing b c ret out over same =
      let e : b ≡ c = ground arith in
      record {
        more = [];
        grown = ground (arith, append-nil ret);
        spelled = rw (all_read b over) done;
        finished = rw (← e) (all_read b over);
      }

  Read-one :
      (b c : B) (ret out : List Tlv) (t : Taken buf b)
      → Read t.left (ret ++ t.tlv ∷ []) out c
      → Read b ret out c
  Read-one b c ret out t r = record {
    more = t.tlv ∷ r.more;
    grown = r.grown ∙ append_assoc ret (t.tlv ∷ []) r.more;
    spelled =
        subst (Spells (t.tlv ∷ r.more)) (sym t.split) (next t.tlv t.pad t.valid t.padded r.spelled);
    finished = r.finished;
  }

  decode_loop-Read :
      (fuel : ℕ) (b c : B) (ret out : List Tlv)
      → All IsByte (bytes b)
      → decode_loop buf fuel b ret ≡ ok (out, c)
      → Read b ret out c
  decode_loop-Read zero b c ret out hb e = elim (Bool-cases (ltb 0 (remaining b))) [
    | inl more ↦ cc (loop_stuck b ret more)
    | inr over ↦ Read-nothing b c ret out over (sym (loop_end b ret zero over) ∙ e)
  ]
  decode_loop-Read (suc fuel) b c ret out hb e = elim (Bool-cases (ltb 0 (remaining b))) [
    | inl more ↦ elim (decode_tlv_cases buf b hb) [
      | inl t ↦ Read-one b c ret out t (
          decode_loop-Read fuel t.left c (ret ++ t.tlv ∷ []) out (rest_of_Taken b hb t)
            (sym (loop_step b ret fuel t.tlv t.left more t.result) ∙ e))
      | inr (x, bad) ↦ cc (loop_error b ret fuel x more bad)
    ]
    | inr over ↦ Read-nothing b c ret out over (sym (loop_end b ret (suc fuel) over) ∙ e)
  ]

  decode_loop-Returns :
      (fuel : ℕ) (b : B) (ret : List Tlv)
      → All IsByte (bytes b)
      → length (bytes b) ≤ fuel
      → Returns (decode_loop buf fuel b ret)
  decode_loop-Returns zero b ret hb h =
      rw (loop_end b ret zero (le→ltb 0 (remaining b) (omega (arith, remaining_lem b)))) tt
  decode_loop-Returns (suc fuel) b ret hb h = elim (Bool-cases (ltb 0 (remaining b))) [
    | inl more ↦ elim (decode_tlv_cases buf b hb) [
      | inl t ↦ rw (loop_step b ret fuel t.tlv t.left more t.result) (
          decode_loop-Returns fuel t.left (ret ++ t.tlv ∷ []) (rest_of_Taken b hb t)
            (omega (arith, shorter b t)))
      | inr (x, bad) ↦ rw (loop_error b ret fuel x more bad) tt
    ]
    | inr over ↦ rw (loop_end b ret (suc fuel) over) tt
  ]

  -- Any spelling of a list of attributes decodes to the list, and nothing is left to read.
  pub decode_tlvs-Spells :
      (b : B) {ts : List Tlv}
      → Spells ts (bytes b)
      → (c : B) × (decode_tlvs buf b ≡ ok (ts, c)) × (bytes c ≡ [])
  unfolding decode_tlvs
  decode_tlvs-Spells b s =
      decode_loop-Spells (remaining b) b [] s refl (omega (arith, remaining_lem b))

  -- Attributes that decode are spelled by the bytes of the buffer, all of which were read.
  pub decode_tlvs_sound :
      (b c : B) (ts : List Tlv)
      → All IsByte (bytes b)
      → decode_tlvs buf b ≡ ok (ts, c)
      → Spells ts (bytes b) × (bytes c ≡ [])
  unfolding decode_tlvs
  decode_tlvs_sound b c ts hb e =
      let r = decode_loop-Read (remaining b) b c [] ts hb e in
      (subst (λ l. Spells l (bytes b)) (sym r.grown) r.spelled, r.finished)

  -- Decoding attributes returns on every input: no read past the end, and the loop ends.
  pub decode_tlvs-Returns : (b : B) → All IsByte (bytes b) → Returns (decode_tlvs buf b)
  unfolding decode_tlvs
  decode_tlvs-Returns b hb =
      decode_loop-Returns (remaining b) b [] hb (omega (arith, remaining_lem b))

pub all_bytes-Spells : (ts : List Tlv) → All IsValid ts → Spells ts (all_bytes ts)
all_bytes-Spells [] h = done
all_bytes-Spells (t ∷ ts) h =
    next t (replicate (pad_length (length t.value)) 0) h.0
      (length-replicate (pad_length (length t.value)) 0) (all_bytes-Spells ts h.1)
