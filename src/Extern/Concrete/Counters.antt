-- ===== src/Extern/Concrete/Counters.antt =====
-- New queues, and a semaphore that is the number of its permits.
use mstun.Base.{
  ℕ, zero, suc, ◌+◌, ◌≤◌, ◌<◌, ◌≡◌, ltb, if◌then◌else◌, le→ltb, lt→ltb, refl, Option, none, some,
  List, [], ◌∷◌, ◌++◌, false, arith,
}
use mstun.Extern.Channel.{Mpsc, AsyncSender}
use mstun.Extern.Semaphore.{Semaphore, max_permits}
use mstun.Extern.Concrete.{Queue, queue_sender}

abbrev pub queue_channel : {M : Type 0} → ℕ → Option (Queue M)
queue_channel zero = none
queue_channel (suc n) = some ([], suc n, false)

abbrev pub queue_mpsc : {M : Type 0} → Mpsc (Queue M) M
queue_mpsc = record {
  sender = queue_sender;
  channel = queue_channel;
  channel-suc = λ n. (([], suc n, false), refl, refl, refl, refl);
}

abbrev pub take_permit : ℕ → Option ℕ
take_permit zero = none
take_permit (suc n) = some n

pub take_permit_zero : (p : ℕ) → p ≡ 0 → take_permit p ≡ none
take_permit_zero zero e = refl
take_permit_zero (suc n) e = absurd (omega arith)

pub take_permit-suc : (p n : ℕ) → p ≡ suc n → (q : ℕ) × (take_permit p ≡ some q) × (q ≡ n)
take_permit-suc zero n e = absurd (omega arith)
take_permit-suc (suc p) n e = (p, refl, omega arith)

abbrev pub new_counter : ℕ → Option ℕ
new_counter n = if ltb max_permits n then none else some n

pub new_counter-some : (n : ℕ) → n ≤ max_permits → (p : ℕ) × (new_counter n ≡ some p) × (p ≡ n)
new_counter-some n h = (n, rw (le→ltb max_permits n h) refl, refl)

pub new_counter-none : (n : ℕ) → max_permits < n → new_counter n ≡ none
new_counter-none n h = rw (lt→ltb max_permits n h) refl

abbrev pub counter : Semaphore ℕ
counter = record {
  available = λ p. p;
  const_new = new_counter;
  acquire = take_permit;
  release = λ p. p + 1;
  const_new_some = new_counter-some;
  const_new_none = new_counter-none;
  acquire_none = take_permit_zero;
  acquire_some = take_permit-suc;
  available-release = λ p. refl;
}

pub some_inj : {M : Type 0} {a b : M} → some a ≡ some b → b ≡ a
some_inj e = cc

-- A channel whose receiver is never dropped.
abbrev pub open_async : {M : Type 0} → AsyncSender (List M) M
open_async = record {
  queued = λ s. s;
  send = λ m s. some (s ++ m ∷ []);
  queued-send = λ m s t e. some_inj e;
}
