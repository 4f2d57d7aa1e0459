-- ===== src/Extern/Semaphore.antt =====
-- `tokio::sync::Semaphore`: `acquire().await` takes a permit once there is one, and dropping the
-- permit gives it back. The semaphore is never closed.
use mstun.Base.{ℕ, suc, ◌+◌, ◌-◌, ◌^◌, ◌≤◌, ◌<◌, ◌≡◌, Option, none, some}

-- `Semaphore::MAX_PERMITS`: `usize::MAX >> 3`
abbrev pub max_permits : ℕ
max_permits = 2 ^ 61 - 1

pub record Semaphore (P : Type 0) : Type 0 where
  pub available : P → ℕ
  -- none where it panics
  pub const_new : ℕ → Option P
  -- none where it has to wait
  pub acquire : P → Option P
  pub release : P → P
  pub const_new_some :
      (n : ℕ) → n ≤ max_permits → (p : P) × (const_new n ≡ some p) × (available p ≡ n)
  pub const_new_none : (n : ℕ) → max_permits < n → const_new n ≡ none
  pub acquire_none : (p : P) → available p ≡ 0 → acquire p ≡ none
  pub acquire_some :
      (p : P) (n : ℕ) → available p ≡ suc n → (q : P) × (acquire p ≡ some q) × (available q ≡ n)
  pub available-release : (p : P) → available (release p) ≡ available p + 1
