-- ===== src/Core/Attributes/Collection.antt =====
-- stunny-core/src/attributes.rs: `impl AttributeCollection for Vec<Tlv>`.
use mstun.Base.{
  ◌≡◌, ◌≢◌, refl, ◌∙◌, arith, List, [], ◌∷◌, ◌++◌, ◌==◌, ==_iff, if◌then◌else◌, Outcome, ok, err,
  map_err, All, append_assoc, append-nil,
}
use mstun.Core.Message.{Tlv}
use mstun.Core.Attributes.{Attribute, LookupError, not_found, malformed}

module _ {A : Type 0} (attribute : Attribute A) where
  open attribute use {id, encode_value, decode_value}

  -- `append_attribute`
  unfoldable pub append_attribute : List Tlv → A → List Tlv
  append_attribute tlvs a = tlvs ++ record { attribute_type = id; value = encode_value a } ∷ []

  -- The loop of `extract_attribute`: `before` holds the `i` elements passed over, and the list
  -- that is left is returned beside the result.
  unfoldable pub extract_from : List Tlv → List Tlv → Outcome LookupError A × List Tlv
  extract_from before [] = (err (not_found id), before)
  extract_from before (tlv ∷ tlvs) =
      let later = extract_from (before ++ tlv ∷ []) tlvs in
      if tlv.attribute_type == id
      then (map_err malformed (decode_value tlv.value), before ++ tlvs)
      else later

  unfoldable pub extract_attribute : List Tlv → Outcome LookupError A × List Tlv
  unfolding extract_from
  extract_attribute tlvs = extract_from [] tlvs

  -- No attribute of this id.
  abbrev pub Lacks : List Tlv → Type 0
  Lacks = All (λ tlv. tlv.attribute_type ≢ id)

  extract_from-found :
      (before skipped : List Tlv) (tlv : Tlv) (after : List Tlv)
      → Lacks skipped
      → tlv.attribute_type ≡ id
      → extract_from before (skipped ++ tlv ∷ after)
        ≡ (map_err malformed (decode_value tlv.value), before ++ (skipped ++ after))
  unfolding extract_from
  extract_from-found before [] tlv after h e = ground (arith, ==_iff tlv.attribute_type id)
  extract_from-found before (t ∷ ts) tlv after h e = ground (
    arith,
    extract_from-found (before ++ t ∷ []) ts tlv after,
    append_assoc before (t ∷ []) (ts ++ after),
  )

  extract_from-missing :
      (before tlvs : List Tlv)
      → Lacks tlvs
      → extract_from before tlvs ≡ (err (not_found id), before ++ tlvs)
  unfolding extract_from
  extract_from-missing before [] h = ground (arith, append-nil before)
  extract_from-missing before (t ∷ ts) h =
      ground (arith, extract_from-missing (before ++ t ∷ []) ts, append_assoc before (t ∷ []) ts)

  -- The first attribute of the id is decoded and removed, well formed or not; the others stay in
  -- their order.
  pub extract_attribute-found :
      (skipped : List Tlv) (tlv : Tlv) (after : List Tlv)
      → Lacks skipped
      → tlv.attribute_type ≡ id
      → extract_attribute (skipped ++ tlv ∷ after)
        ≡ (map_err malformed (decode_value tlv.value), skipped ++ after)
  unfolding extract_attribute
  extract_attribute-found = extract_from-found []

  -- Without one the list is unchanged, and the error names the id.
  pub extract_attribute-missing :
      (tlvs : List Tlv) → Lacks tlvs → extract_attribute tlvs ≡ (err (not_found id), tlvs)
  unfolding extract_attribute
  extract_attribute-missing = extract_from-missing []

  -- What was appended to a list without the id is extracted, if its value decodes to it, and the
  -- list is as it was before.
  pub extract-append_attribute :
      (tlvs : List Tlv) (a b : A)
      → Lacks tlvs
      → decode_value (encode_value a) ≡ ok b
      → extract_attribute (append_attribute tlvs a) ≡ (ok b, tlvs)
  unfolding append_attribute
  extract-append_attribute tlvs a b h e =
      extract_attribute-found tlvs (record { attribute_type = id; value = encode_value a }) [] h
        refl
      ∙ rw (e, append-nil tlvs) refl
