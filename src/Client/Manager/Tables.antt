-- ===== src/Client/Manager/Tables.antt =====
-- The heap and the map of the manager, by what they hold for an id.
use mstun.Base.{
  ℕ, ◌+◌, ◌≤◌, ◌≡◌, refl, sym, ap, subst, ◌∙◌, arith, Bool, true, false, not, Option, none, some,
  List, [], ◌∷◌, ltb, ltb→le, Bool-cases, ◌⊎◌, inl, inr, All,
}
use mstun.Base.Bytes.{bytes_eq, bytes_eq-eq, bytes_eq_refl}
use mstun.Base.Tally.{bit, filter, total, total-filter_all, total-filter_none, total-filter_absent}
use mstun.Client.Manager.{Request, PendingTimeout, Requests, lookup, remove, earlier, pop_earliest}

abbrev pub has_key : List ℕ → List ℕ × Request → ℕ
has_key tid entry = bit (bytes_eq entry.0 tid)

abbrev pub has_tid : List ℕ → PendingTimeout → ℕ
has_tid tid pt = bit (bytes_eq pt.tid tid)

-- What `pop_earliest` says of the list: it is empty, or the element and the others make it up, and
-- none of these comes earlier.
abbrev pub Popped : List PendingTimeout → Option (PendingTimeout × List PendingTimeout) → Type 0
Popped pts none = pts ≡ []
Popped pts (some (first, others)) =
    ((w : PendingTimeout → ℕ) → total w pts ≡ w first + total w others)
    × All (λ pt. first.timeout_at ≤ pt.timeout_at) others

All-later :
    (a b : ℕ) (pts : List PendingTimeout)
    → a ≤ b
    → All (λ pt. b ≤ pt.timeout_at) pts
    → All (λ pt. a ≤ pt.timeout_at) pts
All-later a b [] h k = tt
All-later a b (pt ∷ pts) h k = (omega (arith, k.0), All-later a b pts h k.1)

earlier-Popped :
    (pt : PendingTimeout) (pts : List PendingTimeout)
    (popped : Option (PendingTimeout × List PendingTimeout))
    → Popped pts popped
    → Popped (pt ∷ pts) (earlier pt popped)
earlier-Popped pt pts none h = ((λ w. ap (λ (l : List PendingTimeout). w pt + total w l) h), tt)
earlier-Popped pt pts (some (first, others)) h =
    elim (Bool-cases (ltb first.timeout_at pt.timeout_at)) [
      | inl before ↦ rw before ((λ w. omega (arith, h.0 w)), (ground arith, h.1))
      | inr behind ↦
          let order : pt.timeout_at ≤ first.timeout_at = ltb→le _ _ behind in
          rw behind (
            (λ w. omega (arith, h.0 w)),
            (order, All-later pt.timeout_at first.timeout_at others order h.1),
          )
    ]

pub pop_earliest-Popped : (pts : List PendingTimeout) → Popped pts (pop_earliest pts)
pop_earliest-Popped [] = refl
pop_earliest-Popped (pt ∷ pts) = earlier-Popped pt pts (pop_earliest pts) (pop_earliest-Popped pts)

pub lookup-none :
    (tid : List ℕ) (entries : Requests)
    → lookup tid entries ≡ none
    → total (has_key tid) entries ≡ 0
lookup-none tid [] e = refl
lookup-none tid (entry ∷ entries) e = ground (arith, lookup-none tid entries)

pub lookup-some :
    (tid : List ℕ) (entries : Requests) (request : Request)
    → lookup tid entries ≡ some request
    → 1 ≤ total (has_key tid) entries
lookup-some tid [] request e = cc
lookup-some tid (entry ∷ entries) request e = ground (arith, lookup-some tid entries request)

pub lookup-All {κ} :
    (P : List ℕ × Request → Type κ) (tid : List ℕ) (entries : Requests) (request : Request)
    → All P entries
    → lookup tid entries ≡ some request
    → P (tid, request)
lookup-All P tid [] request h e = absurd (never e)
  where
    never : {A : Type 0} {a : A} → none ≡ some a → ⊥
    never p = cc
lookup-All P tid ((key, first) ∷ entries) request h e = elim (Bool-cases (bytes_eq key tid)) [
  | inl hit ↦
      let same : first ≡ request = some_inj (rw hit at e) in
      subst (λ r. P (tid, r)) same (subst (λ k. P (k, first)) (bytes_eq-eq key tid hit) h.0)
  | inr miss ↦ lookup-All P tid entries request h.1 (rw miss at e)
]
  where
    some_inj : {a b : Request} → some a ≡ some b → a ≡ b
    some_inj p = cc

pub total-remove :
    (w : Request → ℕ) (tid : List ℕ) (entries : Requests) (request : Request)
    → lookup tid entries ≡ some request
    → total (has_key tid) entries ≤ 1
    → total (λ entry. w entry.1) (remove tid entries) + w request
      ≡ total (λ entry. w entry.1) entries
total-remove w tid [] request e h = cc
total-remove w tid (entry ∷ entries) request e h = grind (
  arith,
  total-remove w tid entries request,
  total-filter_absent (λ entry. w entry.1) (λ entry. bytes_eq entry.0 tid) entries,
)

clash : {b : Bool} → b ≡ true → b ≡ false → ⊥
clash p q = cc

-- Two ids are equal, or the test fails in both orders.
pub tid_cases : (a b : List ℕ) → (a ≡ b) ⊎ ((bytes_eq a b ≡ false) × (bytes_eq b a ≡ false))
tid_cases a b = elim (Bool-cases (bytes_eq a b)) [
  | inl p ↦ inl (bytes_eq-eq a b p)
  | inr p ↦ elim (Bool-cases (bytes_eq b a)) [
    | inl q ↦ inl (sym (bytes_eq-eq b a q))
    | inr q ↦ inr (p, q)
  ]
]

module _ {A : Type 0} (id : A → List ℕ) (removed : List ℕ) (xs : List A) where
  abbrev kept : List A
  kept = filter (λ x. not (bytes_eq (id x) removed)) xs

  pub removed-absent : total (λ x. bit (bytes_eq (id x) removed)) kept ≡ 0
  removed-absent = total-filter_none _ _ xs (λ x h. ground arith)

  pub removed-others :
      (tid : List ℕ)
      → bytes_eq tid removed ≡ false
      → total (λ x. bit (bytes_eq (id x) tid)) kept ≡ total (λ x. bit (bytes_eq (id x) tid)) xs
  removed-others tid different =
      total-filter_all _ _ xs (λ x gone. only x (not_false (bytes_eq (id x) removed) gone))
    where
      not_false : (b : Bool) → not b ≡ false → b ≡ true
      not_false true p = refl
      not_false false p = cc

      only : (x : A) → bytes_eq (id x) removed ≡ true → bit (bytes_eq (id x) tid) ≡ 0
      only x here = elim (Bool-cases (bytes_eq (id x) tid)) [
        | inl same ↦
            let e : tid ≡ removed =
              sym (bytes_eq-eq (id x) tid same) ∙ bytes_eq-eq (id x) removed here in
            let f : bytes_eq tid removed ≡ true =
              subst (λ k. bytes_eq tid k ≡ true) e (bytes_eq_refl tid) in
            absurd (clash f different)
        | inr apart ↦ rw apart refl
      ]
