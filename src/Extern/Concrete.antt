-- ===== src/Extern/Concrete.antt =====
-- Values of the interfaces, which show that their laws can hold: a slice with its limit, a vector
-- with room, and a function from positions to bits.
pub mod Counters
use mstun.Base.{
  ℕ, zero, suc, ◌+◌, ◌-◌, ◌*◌, ◌≤◌, ◌<◌, ◌≡◌, refl, ◌↔◌, Bool, true, false, ◌&&◌, ◌||◌, Option,
  none, some, List, [], ◌∷◌, ◌++◌, arith, ltb, leb, ◌==◌, if◌then◌else◌, length, take, drop,
  take-append, drop-append, length-append, le→ltb, replicate, length-replicate,
}
use mstun.Base.Words.{be16}
use mstun.Extern.Buf.{Buf, SliceBuf}
use mstun.Extern.BufMut.{BufMut, VecMut, SliceMut}
use mstun.Extern.Channel.{TrySend, sent, full, closed, Sender, AsyncSender}
use mstun.Extern.Bitvec.{Bitvec, test_bit, value}

-- The bytes to read, and those behind the limit.
abbrev pub Slice : Type 0
Slice = List ℕ × List ℕ

abbrev pub slice_u8 : List ℕ → List ℕ → Option (ℕ × Slice)
slice_u8 [] hidden = none
slice_u8 (x ∷ xs) hidden = some (x, (xs, hidden))

abbrev pub slice_u16 : List ℕ → List ℕ → Option (ℕ × Slice)
slice_u16 (x ∷ y ∷ xs) hidden = some (x * 256 + y, (xs, hidden))
slice_u16 _ hidden = none

abbrev pub slice_copy : ℕ → Slice → Option (List ℕ × Slice)
slice_copy n s = if ltb (length s.0) n then none else some (take n s.0, (drop n s.0, s.1))

abbrev pub slice_advance : ℕ → Slice → Option Slice
slice_advance n s = if ltb (length s.0) n then none else some (drop n s.0, s.1)

enough : (front left : List ℕ) → ltb (length (front ++ left)) (length front) ≡ false
enough front left = le→ltb _ _ (omega (arith, length-append front left))

pub slice_u8_lem :
    (b : Slice) (x : ℕ) (left : List ℕ)
    → b.0 ≡ x ∷ left
    → (c : Slice) × (slice_u8 b.0 b.1 ≡ some (x, c)) × (c.0 ≡ left) × (c.1 ≡ b.1)
slice_u8_lem b x left e = ((left, b.1), rw e refl, refl, refl)

pub slice_u16_lem :
    (b : Slice) (x y : ℕ) (left : List ℕ)
    → b.0 ≡ x ∷ y ∷ left
    → (c : Slice) × (slice_u16 b.0 b.1 ≡ some (x * 256 + y, c)) × (c.0 ≡ left) × (c.1 ≡ b.1)
slice_u16_lem b x y left e = ((left, b.1), rw e refl, refl, refl)

pub slice_copy_lem :
    (b : Slice) (front left : List ℕ)
    → b.0 ≡ front ++ left
    → (c : Slice) × (slice_copy (length front) b ≡ some (front, c)) × (c.0 ≡ left) × (c.1 ≡ b.1)
slice_copy_lem b front left e = (
  (left, b.1),
  rw (e, enough front left, take-append front left, drop-append front left) refl,
  refl,
  refl,
)

pub slice_advance_lem :
    (b : Slice) (front left : List ℕ)
    → b.0 ≡ front ++ left
    → (c : Slice) × (slice_advance (length front) b ≡ some c) × (c.0 ≡ left) × (c.1 ≡ b.1)
slice_advance_lem b front left e =
    ((left, b.1), rw (e, enough front left, drop-append front left) refl, refl, refl)

abbrev pub slice_buf : Buf Slice
slice_buf = record {
  bytes = λ s. s.0;
  beyond = λ s. s.1;
  remaining = λ s. length s.0;
  get_u8 = λ s. slice_u8 s.0 s.1;
  get_u16 = λ s. slice_u16 s.0 s.1;
  copy_to_slice = slice_copy;
  advance = slice_advance;
  take_first = λ n s. (take n s.0, drop n s.0);
  inner = λ s. (s.0 ++ s.1, []);
  remaining_lem = λ s. refl;
  get_u8_lem = slice_u8_lem;
  get_u16_lem = slice_u16_lem;
  copy_to_slice_lem = slice_copy_lem;
  advance_lem = slice_advance_lem;
  bytes-take_first = λ n s. refl;
  beyond-take_first = λ n s. refl;
  bytes-inner = λ s. refl;
}

-- The bytes written, and the room that is left.
abbrev pub Room : Type 0
Room = List ℕ × ℕ

abbrev pub room_put : List ℕ → Room → Option Room
room_put xs w = if ltb w.1 (length xs) then none else some (w.0 ++ xs, w.1 - length xs)

pub room_put_lem :
    (w : Room) (xs : List ℕ) (n : ℕ)
    → length xs ≡ n
    → n ≤ w.1
    → (v : Room) × (room_put xs w ≡ some v) × (v.0 ≡ w.0 ++ xs) × (v.1 + n ≡ w.1)
room_put_lem w xs n e h = (
  (w.0 ++ xs, w.1 - length xs),
  rw (le→ltb w.1 (length xs) (omega arith)) refl,
  refl,
  omega arith,
)

abbrev pub room_buf : BufMut Room
room_buf = record {
  written = λ w. w.0;
  remaining_mut = λ w. w.1;
  put_u8 = λ x. room_put (x ∷ []);
  put_u16 = λ x. room_put (be16 x);
  put_slice = room_put;
  put_bytes = λ x n. room_put (replicate n x);
  put_u8_lem = λ w x p h. room_put_lem w (x ∷ []) 1 refl h;
  put_u16_lem = λ w x p h. room_put_lem w (be16 x) 2 refl h;
  put_slice_lem = λ w xs h. room_put_lem w xs (length xs) refl h;
  put_bytes_lem = λ w x n p h. room_put_lem w (replicate n x) n (length-replicate n x) h;
}

-- Sixteen bits by their positions.
abbrev pub Bits : Type 0
Bits = ℕ → Bool

-- Whether one of the `n` bits from `lo` on is set.
abbrev pub any_from : Bits → ℕ → ℕ → Bool
any_from f lo zero = false
any_from f lo (suc n) = f lo || any_from f (lo + 1) n

any_from-false :
    (f : Bits) (n lo : ℕ) → any_from f lo n ≡ false → (i : ℕ) → lo ≤ i → i < lo + n → f i ≡ false
any_from-false f zero lo e i p q = absurd (omega arith)
any_from-false f (suc n) lo e i p q = ground (arith, any_from-false f n (lo + 1) (ground arith) i)

false-any_from :
    (f : Bits) (n lo : ℕ) → ((i : ℕ) → lo ≤ i → i < lo + n → f i ≡ false) → any_from f lo n ≡ false
false-any_from f zero lo h = refl
false-any_from f (suc n) lo h = ground (
  arith,
  h lo (omega arith) (omega arith),
  false-any_from f n (lo + 1) (λ i p q. h i (omega arith) (omega arith)),
)

pub any_iff_lem :
    (f : Bits) (lo hi : ℕ)
    → hi ≤ 16
    → (any_from f lo (hi - lo) ≡ false) ↔ ((i : ℕ) → lo ≤ i → i < hi → f i ≡ false)
any_iff_lem f lo hi h = (
  (λ e i p q. any_from-false f (hi - lo) lo e i p (omega arith)),
  (λ k. false-any_from f (hi - lo) lo (λ i p q. k i p (omega arith))),
)

abbrev pub bits_bitvec : Bitvec Bits
bits_bitvec = record {
  from_word = test_bit;
  word = value 16;
  bit = λ f. f;
  any = λ f lo hi. any_from f lo (hi - lo);
  set = λ f i v j. if j == i then v else f j;
  fill = λ f lo hi v j. if leb lo j && ltb j hi then v else f j;
  copy_within =
      λ f lo hi dest j. if leb dest j && ltb j (dest + (hi - lo)) then f (j - dest + lo) else f j;
  copy_from_bitslice = λ f lo hi g from j. if leb lo j && ltb j hi then g (j - lo + from) else f j;
  bit-from_word = λ w i p q. refl;
  word-value = λ f. refl;
  any_iff = any_iff_lem;
  bit-set = λ f i v j p. refl;
  bit-fill = λ f lo hi v j p. refl;
  bit-copy_within = λ f lo hi dest j p. refl;
  bit-copy_from_bitslice = λ f lo hi g from j p. refl;
}

abbrev pub list_slice : SliceBuf Slice
list_slice = record {
  buf = slice_buf;
  as_slice = λ xs. (xs, []);
  chunk = λ s. s.0;
  bytes-as_slice = λ xs. refl;
  chunk_lem = λ s. refl;
}

abbrev pub list_vec : VecMut (List ℕ)
list_vec = record {
  contents = λ v. v;
  with_capacity = λ n. [];
  put_u8 = λ x v. v ++ x ∷ [];
  put_u16 = λ x v. v ++ be16 x;
  put_slice = λ xs v. v ++ xs;
  put_bytes = λ x n v. v ++ replicate n x;
  contents-with_capacity = λ n. refl;
  contents-put_u8 = λ x v. refl;
  contents-put_u16 = λ x v. refl;
  contents-put_slice = λ xs v. refl;
  contents-put_bytes = λ x n v. refl;
}

abbrev pub room_slice : SliceMut Room
room_slice = record {
  buf_mut = room_buf;
  as_mut_slice = λ n. ([], n);
  written-as_mut_slice = λ n. refl;
  remaining_mut-as_mut_slice = λ n. refl;
}

-- A channel: what waits, the room, and whether the receiver is gone.
abbrev pub Queue : Type 0 → Type 0
Queue M = List M × ℕ × Bool

abbrev pub queue_try_send : {M : Type 0} → M → Queue M → TrySend × Queue M
queue_try_send m (queued, n, true) = (closed, (queued, n, true))
queue_try_send m (queued, zero, false) = (full, (queued, zero, false))
queue_try_send m (queued, suc n, false) = (sent, (queued ++ m ∷ [], n, false))

abbrev pub queue_send : {M : Type 0} → M → Queue M → Option (Queue M)
queue_send m (queued, n, true) = none
queue_send m (queued, n, false) = some (queued ++ m ∷ [], n, false)

module _ {M : Type 0} where
  pub queue_closed : (m : M) (s : Queue M) → s.2 ≡ true → queue_try_send m s ≡ (closed, s)
  queue_closed m (queued, n, true) e = refl
  queue_closed m (queued, n, false) e = cc

  pub queue_full : (m : M) (s : Queue M) → s.2 ≡ false → s.1 ≡ 0 → queue_try_send m s ≡ (full, s)
  queue_full m (queued, n, true) e z = cc
  queue_full m (queued, zero, false) e z = refl
  queue_full m (queued, suc n, false) e z = absurd (omega arith)

  pub queue_sent :
      (m : M) (s : Queue M) (n : ℕ)
      → s.2 ≡ false
      → s.1 ≡ suc n
      → (t : Queue M) × (queue_try_send m s ≡ (sent, t))
        × (t.0 ≡ s.0 ++ m ∷ [])
        × (t.1 ≡ n)
        × (t.2 ≡ false)
  queue_sent m (queued, k, true) n e z = absurd (never e)
    where
      never : true ≡ false → ⊥
      never p = cc
  queue_sent m (queued, zero, false) n e z = absurd (omega arith)
  queue_sent m (queued, suc k, false) n e z =
      ((queued ++ m ∷ [], k, false), refl, refl, omega arith, refl)

  pub queued-queue_send : (m : M) (s t : Queue M) → queue_send m s ≡ some t → t.0 ≡ s.0 ++ m ∷ []
  queued-queue_send m (queued, n, true) t e = cc
  queued-queue_send m (queued, n, false) t e = by_queue e
    where
      by_queue : some (queued ++ m ∷ [], n, false) ≡ some t → t.0 ≡ queued ++ m ∷ []
      by_queue p = cc

  abbrev pub queue_sender : Sender (Queue M) M
  queue_sender = record {
    queued = λ s. s.0;
    room = λ s. s.1;
    is_closed = λ s. s.2;
    try_send = queue_try_send;
    try_send_closed = queue_closed;
    try_send_full = queue_full;
    try_send_sent = queue_sent;
  }

  abbrev pub queue_async : AsyncSender (Queue M) M
  queue_async = record { queued = λ s. s.0; send = queue_send; queued-send = queued-queue_send }
