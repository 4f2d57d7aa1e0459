-- ===== src/Client/Dns/Numbers.antt =====
-- stunny-client/src/dns.rs: which names have a port, beside `has_port`.
use mstun.Base.{
  ℕ, ◌+◌, ◌-◌, ◌*◌, ◌≤◌, ◌<◌, ◌≡◌, ◌≢◌, refl, ap, ◌∙◌, arith, All, true, false, List, [], ◌∷◌, ◌++◌,
  none, some, ◌⊎◌, inl, inr, ◌==◌, ==_refl, ==_iff, Bool-cases, Option-cases,
}
use mstun.Client.Dns.{behind_last, parse_digits, parse_u16, is_some, has_port}

abbrev pub IsDigit : ℕ → Type 0
IsDigit c = (b'0' ≤ c) × (c ≤ b'9')

-- The number that digits stand for, behind those of `n`.
abbrev pub value : ℕ → List ℕ → ℕ
value n [] = n
value n (c ∷ digits) = value (n * 10 + (c - b'0')) digits

-- One decimal digit or more, for a number of 16 bits.
pub record IsNumber (text : List ℕ) : Type 0 where
  pub some_digits : text ≢ []
  pub digits : All IsDigit text
  pub fits : value 0 text < 65536

-- Such a number, or one behind a plus sign, as `str::parse` takes it.
abbrev pub IsPort : List ℕ → Type 0
IsPort text = IsNumber text ⊎ (number : List ℕ) × (text ≡ b'+' ∷ number) × IsNumber number

-- A colon and a port stand at the end.
abbrev pub EndsInPort : List ℕ → Type 0
EndsInPort name = (host : List ℕ) × (port : List ℕ) × (name ≡ host ++ b':' ∷ port) × IsPort port

le-value : (n : ℕ) (digits : List ℕ) → n ≤ value n digits
le-value n [] = omega arith
le-value n (c ∷ digits) = omega (arith, le-value (n * 10 + (c - b'0')) digits)

parse_digits-some :
    (n : ℕ) (digits : List ℕ)
    → n < 65536
    → is_some (parse_digits n digits) ≡ true
    → All IsDigit digits × (value n digits < 65536)
parse_digits-some n [] h e = (tt, h)
parse_digits-some n (c ∷ digits) h e =
    ground (arith, parse_digits-some (n * 10 + (c - b'0')) digits)

some-parse_digits :
    (n : ℕ) (digits : List ℕ)
    → All IsDigit digits
    → value n digits < 65536
    → is_some (parse_digits n digits) ≡ true
some-parse_digits n [] h fits = refl
some-parse_digits n (c ∷ digits) h fits =
    ground
      (arith, le-value (n * 10 + (c - b'0')) digits, some-parse_digits (n * 10 + (c - b'0')) digits)

digits-IsNumber :
    (c : ℕ) (text : List ℕ) → is_some (parse_digits 0 (c ∷ text)) ≡ true → IsNumber (c ∷ text)
digits-IsNumber c text e =
    let (digits, fits) = parse_digits-some 0 (c ∷ text) (omega arith) e in
    record { some_digits = λ empty. no_cons empty; digits = digits; fits = fits }
  where
    no_cons : {x : ℕ} {xs : List ℕ} → x ∷ xs ≡ [] → ⊥
    no_cons p = cc

IsNumber-digits :
    (c : ℕ) (text : List ℕ) → IsNumber (c ∷ text) → is_some (parse_digits 0 (c ∷ text)) ≡ true
IsNumber-digits c text h = some-parse_digits 0 (c ∷ text) h.digits h.fits

parse_u16-IsPort : (text : List ℕ) → is_some (parse_u16 text) ≡ true → IsPort text
parse_u16-IsPort [] e = cc
parse_u16-IsPort (c ∷ []) e = elim (Bool-cases (c == b'+')) [
  | inl sign ↦ ground (arith, sign, e)
  | inr digit ↦ inl (digits-IsNumber c [] (rw digit at e))
]
parse_u16-IsPort (c ∷ d ∷ text) e = elim (Bool-cases (c == b'+')) [
  | inl sign ↦ inr (
    d ∷ text,
    ap (λ (x : ℕ). x ∷ d ∷ text) ((==_iff c b'+').0 sign),
    digits-IsNumber d text (rw sign at e),
  )
  | inr digit ↦ inl (digits-IsNumber c (d ∷ text) (rw digit at e))
]

-- A digit is no plus sign.
not_sign : (c : ℕ) → IsDigit c → (c == b'+') ≡ false
not_sign c h = ground arith

number-parse_u16 : (text : List ℕ) → IsNumber text → is_some (parse_u16 text) ≡ true
number-parse_u16 [] h = absurd (h.some_digits refl)
number-parse_u16 (c ∷ []) h = rw (not_sign c h.digits.0) (IsNumber-digits c [] h)
number-parse_u16 (c ∷ d ∷ text) h = rw (not_sign c h.digits.0) (IsNumber-digits c (d ∷ text) h)

signed-parse_u16 : (text : List ℕ) → IsNumber text → is_some (parse_u16 (b'+' ∷ text)) ≡ true
signed-parse_u16 [] h = absurd (h.some_digits refl)
signed-parse_u16 (c ∷ text) h = IsNumber-digits c text h

IsPort-parse_u16 : (text : List ℕ) → IsPort text → is_some (parse_u16 text) ≡ true
IsPort-parse_u16 text (inl number) = number-parse_u16 text number
IsPort-parse_u16 text (inr (number, e, h)) = rw e (signed-parse_u16 number h)

-- No colon stands in a port.
digits_free : (text : List ℕ) → All IsDigit text → behind_last b':' text ≡ none
digits_free [] h = refl
digits_free (c ∷ text) h =
    let other : (c == b':') ≡ false = not_colon c h.0 in rw (digits_free text h.1, other) refl
  where
    not_colon : (c : ℕ) → IsDigit c → (c == b':') ≡ false
    not_colon c h = ground arith

port_free : (port : List ℕ) → IsPort port → behind_last b':' port ≡ none
port_free port (inl number) = digits_free port number.digits
port_free port (inr (number, e, h)) = rw (e, digits_free number h.digits) refl

pub behind_last-append :
    (mark : ℕ) (host port : List ℕ)
    → behind_last mark port ≡ none
    → behind_last mark (host ++ mark ∷ port) ≡ some port
behind_last-append mark [] port h = rw (h, ==_refl mark) refl
behind_last-append mark (c ∷ host) port h = rw (behind_last-append mark host port h) refl

behind_last-splits :
    (mark : ℕ) (text port : List ℕ)
    → behind_last mark text ≡ some port
    → (host : List ℕ) × (text ≡ host ++ mark ∷ port)
behind_last-splits mark [] port e = cc
behind_last-splits mark (c ∷ text) port e = elim (Option-cases (behind_last mark text)) [
  | inr (found, later) ↦
      let same : found ≡ port = ground (arith, e, later) in
      let (host, split) = behind_last-splits mark text port (later ∙ ap some same) in
      (c ∷ host, ap (λ t. c ∷ t) split)
  | inl nowhere ↦ elim (Bool-cases (c == mark)) [
    | inl here ↦
        let is_mark : c ≡ mark = (==_iff c mark).0 here in
        let same : text ≡ port = ground (arith, e, nowhere, here) in ([], rw (is_mark, same) refl)
    | inr other ↦ absurd (ground (arith, e, nowhere, other))
  ]
]

-- `has_port` holds of the names that end in a port, and of no others.
pub has_port-EndsInPort : (name : List ℕ) → has_port name ≡ true → EndsInPort name
unfolding has_port
has_port-EndsInPort name e = elim (Option-cases (behind_last b':' name)) [
  | inl nowhere ↦ absurd (ground (arith, e, nowhere))
  | inr (port, found) ↦
      let (host, split) = behind_last-splits b':' name port found in
      (host, port, split, parse_u16-IsPort port (rw found at e))
]

pub EndsInPort-has_port : (name : List ℕ) → EndsInPort name → has_port name ≡ true
unfolding has_port
EndsInPort-has_port name (host, port, split, h) =
    rw (split, behind_last-append b':' host port (port_free port h)) (IsPort-parse_u16 port h)
