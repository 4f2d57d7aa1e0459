-- ===== src/Core/Transport/Pool/Inactivity.antt =====
-- When an idle connection ends.
use mstun.Base.{
  ℕ, ◌+◌, ◌-◌, ◌≤◌, ◌≡◌, ◌↔◌, refl, arith, leb, some, List, [], ◌∷◌, ◌++◌, Bool-cases, inl, inr,
  ◌⊎◌,
}
use mstun.Core.Transport.{inactivity_timeout}
use mstun.Core.Transport.Pool.{detect_inactivity}

-- Some round finds the connection idle for as long as the limit.
abbrev pub FoundIdle : ℕ → List (ℕ × ℕ) → Type 0
FoundIdle timeout [] = ⊥
FoundIdle timeout ((last_active, now) ∷ readings) =
    (timeout ≤ now - last_active) ⊎ FoundIdle timeout readings

ends-FoundIdle :
    (timeout : ℕ) (readings : List (ℕ × ℕ))
    → (detect_inactivity timeout readings).0 ≡ some inactivity_timeout
    → FoundIdle timeout readings
unfolding detect_inactivity
ends-FoundIdle timeout [] h = cc
ends-FoundIdle timeout ((last_active, now) ∷ readings) h =
    elim (Bool-cases (leb timeout (now - last_active))) [
      | inl idle ↦ inl (ground arith)
      | inr active ↦ inr (ends-FoundIdle timeout readings (rw (detect_inactivity, active) at h))
    ]

FoundIdle-ends :
    (timeout : ℕ) (readings : List (ℕ × ℕ))
    → FoundIdle timeout readings
    → (detect_inactivity timeout readings).0 ≡ some inactivity_timeout
unfolding detect_inactivity
FoundIdle-ends timeout [] h = absurd h
FoundIdle-ends timeout ((last_active, now) ∷ readings) h =
    elim (Bool-cases (leb timeout (now - last_active))) [
      | inl idle ↦ rw (detect_inactivity, idle) refl
      | inr active ↦ elim h [
        | inl over ↦ absurd (ground arith)
        | inr later ↦ rw (detect_inactivity, active) (FoundIdle-ends timeout readings later)
      ]
    ]

-- The clock reads at least what it read at the last round and the sleep behind it.
abbrev pub Slept : ℕ → ℕ → ℕ → ℕ → Type 0
Slept timeout last_active now now' = now + (timeout - (now - last_active)) ≤ now'

quiet-FoundIdle :
    (timeout last_active now now' : ℕ) (before behind : List (ℕ × ℕ))
    → last_active ≤ now
    → Slept timeout last_active now now'
    → FoundIdle timeout (before ++ (last_active, now) ∷ (last_active, now') ∷ behind)
quiet-FoundIdle timeout last_active now now' [] behind past slept = inr (inl (omega arith))
quiet-FoundIdle timeout last_active now now' (reading ∷ before) behind past slept =
    inr (quiet-FoundIdle timeout last_active now now' before behind past slept)

-- A connection is ended for inactivity exactly when a round finds it idle for as long as the limit.
-- It is ended at the latest at the end of a sleep during which nothing was sent or received.
pub detect_inactivity-ends :
    (timeout last_active now now' : ℕ) (before behind readings : List (ℕ × ℕ))
    → last_active ≤ now
    → Slept timeout last_active now now'
    → (((detect_inactivity timeout readings).0 ≡ some inactivity_timeout)
        ↔ FoundIdle timeout readings)
      × ((detect_inactivity timeout (before ++ (last_active, now) ∷ (last_active, now') ∷ behind)).0
          ≡ some inactivity_timeout)
detect_inactivity-ends timeout last_active now now' before behind readings past slept = (
  (ends-FoundIdle timeout readings, FoundIdle-ends timeout readings),
  FoundIdle-ends timeout _ (quiet-FoundIdle timeout last_active now now' before behind past slept),
)

-- Each sleep ends on time, and activity between two rounds lies between them.
abbrev pub OnTime : ℕ → ℕ × ℕ → List (ℕ × ℕ) → Type 0
OnTime timeout (last_active, now) [] = Unit {0}
OnTime timeout (last_active, now) ((last_active', now') ∷ readings) =
    (now' ≡ now + (timeout - (now - last_active)))
    × (last_active ≤ last_active')
    × (last_active' ≤ now')
    × OnTime timeout (last_active', now') readings

-- Some round comes at the moment at which the connection has been idle for the limit.
abbrev pub FoundAt : ℕ → List (ℕ × ℕ) → Type 0
FoundAt timeout [] = ⊥
FoundAt timeout ((last_active, now) ∷ readings) =
    (now ≡ last_active + timeout) ⊎ FoundAt timeout readings

FoundAt-FoundIdle :
    (timeout : ℕ) (readings : List (ℕ × ℕ)) → FoundAt timeout readings → FoundIdle timeout readings
FoundAt-FoundIdle timeout [] h = absurd h
FoundAt-FoundIdle timeout ((last_active, now) ∷ readings) h = elim h [
  | inl at_limit ↦ inl (omega (arith, at_limit))
  | inr later ↦ inr (FoundAt-FoundIdle timeout readings later)
]

FoundIdle-FoundAt :
    (timeout last_active now : ℕ) (readings : List (ℕ × ℕ))
    → last_active ≤ now
    → now ≤ last_active + timeout
    → OnTime timeout (last_active, now) readings
    → FoundIdle timeout ((last_active, now) ∷ readings)
    → FoundAt timeout ((last_active, now) ∷ readings)
FoundIdle-FoundAt timeout last_active now [] past within on_time h = elim h [
  | inl idle ↦ inl (omega (arith, idle))
  | inr never ↦ absurd never
]
FoundIdle-FoundAt timeout last_active now ((last_active', now') ∷ readings) past within on_time h =
    elim h [
      | inl idle ↦ inl (omega (arith, idle))
      | inr later ↦ inr (
          FoundIdle-FoundAt timeout last_active' now' readings (on_time.2)
            (omega (arith, on_time.0, on_time.1)) (on_time.3) later)
    ]

-- While sleeps end on time, and from a round that finds the connection idle for no more than the
-- limit: it is ended for inactivity exactly when a round comes at the moment at which nothing has
-- been sent or received for as long as the limit.
detect_inactivity-exact :
    (timeout last_active now : ℕ) (readings : List (ℕ × ℕ))
    → last_active ≤ now
    → now ≤ last_active + timeout
    → OnTime timeout (last_active, now) readings
    → ((detect_inactivity timeout ((last_active, now) ∷ readings)).0 ≡ some inactivity_timeout)
      ↔ FoundAt timeout ((last_active, now) ∷ readings)
detect_inactivity-exact timeout last_active now readings past within on_time = (
  λ h.
      FoundIdle-FoundAt timeout last_active now readings past within on_time
        (ends-FoundIdle timeout ((last_active, now) ∷ readings) h),
  λ h.
      FoundIdle-ends timeout ((last_active, now) ∷ readings)
        (FoundAt-FoundIdle timeout ((last_active, now) ∷ readings) h),
)
