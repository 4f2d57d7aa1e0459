-- ===== src/Core/Transport/Connection/Wire.antt =====
-- `process_egress` of stunny-core/src/transport/connection_pool.rs: a poll of it, and the bytes that
-- it still has to write.
use mstun.Base.{
  ℕ, zero, suc, ◌+◌, ◌-◌, ◌*◌, ◌≤◌, ◌<◌, ◌≡◌, refl, sym, ap, ◌∙◌, arith, Bool, true, false, leb,
  leb→le, leb→lt, List, [], ◌∷◌, ◌++◌, append_assoc, take-append-drop, length, Outcome, ok, err,
  panic, stuck, take, drop, All, Bool-cases, inl, inr, ◌⊎◌,
}
use mstun.Extern.BufMut.{SliceMut}
use mstun.Extern.Bitvec.{Bitvec}
use mstun.Core.Message.{Message}
use mstun.Core.Transport.{IoError, channel_closed, socket_failed, timed_out}
use mstun.Core.Transport.ConnectionPool.{buffer_len}
use mstun.Core.Transport.ConnectionPool.Streams.{encode_message-message_bytes}
use mstun.Core.Transport.Udp.Codec.{IsEncodable, message_bytes, message_size}
use mstun.Core.Transport.Connection.{io_timeout, Writing, idle, writing, Egress}
use mstun.Core.Transport.Connection.WriteLoop.{write_on, poll_process_egress}

-- A message that the buffer of 1500 bytes can take.
abbrev pub FitsBuffer : Message → Type 0
FitsBuffer message = IsEncodable message × (message_size message ≤ buffer_len)

abbrev pub queue_bytes : List Message → List ℕ
queue_bytes [] = []
queue_bytes (message ∷ queue) = message_bytes message ++ queue_bytes queue

abbrev pub left_bytes : Writing → List ℕ
left_bytes idle = []
left_bytes (writing bytes deadline) = bytes

-- All bytes, those on the wire, those of the message that is being written, and those of the
-- messages that wait.
abbrev pub all_bytes : Egress → List ℕ
all_bytes egress = egress.wire ++ (left_bytes egress.state ++ queue_bytes egress.queue)

-- A write that is not late at `now`, and was begun by then.
abbrev pub IsTimely : ℕ → Writing → Type 0
IsTimely now idle = Unit
IsTimely now (writing bytes deadline) = (now < deadline) × (deadline ≤ now + io_timeout)

-- One that was begun by then.
abbrev pub IsBegun : ℕ → Writing → Type 0
IsBegun now idle = Unit
IsBegun now (writing bytes deadline) = deadline ≤ now + io_timeout

abbrev pub IsLate : ℕ → Writing → Type 0
IsLate now idle = ⊥
IsLate now (writing bytes deadline) = deadline ≤ now

-- It waits for a message, or for the socket.
abbrev pub IsSpent : Writing → Egress → Type 0
IsSpent idle egress = (egress.queue ≡ []) × (egress.dropped ≡ false)
IsSpent (writing bytes deadline) egress = egress.room ≡ 0

-- The messages that were not written as a whole.
abbrev pub unwritten : Writing → Egress → ℕ
unwritten idle egress = length egress.queue
unwritten (writing bytes deadline) egress = suc (length egress.queue)

-- No message has been written to its end, or some were and the connection is active now.
abbrev pub Moves : ℕ → ℕ → ℕ → Egress → Egress → Type 0
Moves now last_active last_active' before after =
    (last_active' ≡ last_active) × (unwritten after.state after ≡ unwritten before.state before)
    ⊎ (last_active' ≡ now) × (unwritten after.state after < unwritten before.state before)

Moves-trans :
    (now a b c : ℕ) (x y z : Egress) → Moves now a b x y → Moves now b c y z → Moves now a c x z
Moves-trans now a b c x y z (inl (p, q)) (inl (p', q')) = inl (p' ∙ p, q' ∙ q)
Moves-trans now a b c x y z (inr (p, q)) (inl (p', q')) = inr (p' ∙ p, omega (arith, q, q'))
Moves-trans now a b c x y z (inl (p, q)) (inr (p', q')) = inr (p', omega (arith, q', q))
Moves-trans now a b c x y z (inr (p, q)) (inr (p', q')) = inr (p', omega (arith, q', q))

pub record Polled (now last_active : ℕ) (before after : Egress) (last_active' : ℕ) : Type 0 where
  pub same_bytes : all_bytes after ≡ all_bytes before
  pub same_sender : after.dropped ≡ before.dropped
  pub same_socket : after.socket_broken ≡ before.socket_broken
  pub queue_fits : All FitsBuffer after.queue
  pub spent : IsSpent after.state after
  pub timely : IsBegun now before.state → IsTimely now after.state
  pub activity : Moves now last_active last_active' before after

-- What a poll comes to: it goes on, or has an error for a reason.
abbrev pub Comes : ℕ → ℕ → Egress → Outcome IoError (Egress × ℕ) → Type 0
Comes now last_active before (ok (after, last_active')) =
    Polled now last_active before after last_active'
Comes now last_active before (err e) =
    ((e ≡ channel_closed) × (before.dropped ≡ true))
    ⊎ (e ≡ socket_failed) × (before.socket_broken ≡ true)
    ⊎ (e ≡ timed_out) × IsLate now before.state
Comes now last_active before panic = ⊥
Comes now last_active before stuck = ⊥

-- Rounds that a poll has from here, beside two for each message.
abbrev rounds : Writing → ℕ
rounds idle = 0
rounds (writing bytes deadline) = 1

pub rounds_lem :
    (state : Writing) (queue : List Message)
    → 2 * length queue + rounds state < 2 * length queue + 2
rounds_lem idle queue = omega arith
rounds_lem (writing bytes deadline) queue = omega arith

abbrev sends : Writing → List Message → Bool → ℕ → Bool → List ℕ → Egress
sends state queue dropped room socket_broken wire = record {
  state = state;
  queue = queue;
  dropped = dropped;
  room = room;
  socket_broken = socket_broken;
  wire = wire;
}

-- Bytes go from the front of the message to the wire.
bytes_taken :
    (wire taken left bytes waiting : List ℕ)
    → taken ++ left ≡ bytes
    → (wire ++ taken) ++ (left ++ waiting) ≡ wire ++ (bytes ++ waiting)
bytes_taken wire taken left bytes waiting split =
    append_assoc wire taken (left ++ waiting)
    ∙ ap (λ r. wire ++ r) (sym (append_assoc taken left waiting) ∙ ap (λ b. b ++ waiting) split)

-- A step to `now_at`, where nothing is late, and the rest of the poll from there.
Comes-behind :
    (now last_active last_active' : ℕ) (before now_at : Egress)
    (result : Outcome IoError (Egress × ℕ))
    → all_bytes now_at ≡ all_bytes before
    → now_at.dropped ≡ before.dropped
    → now_at.socket_broken ≡ before.socket_broken
    → IsBegun now now_at.state
    → ¬ IsLate now now_at.state
    → Moves now last_active last_active' before now_at
    → Comes now last_active' now_at result
    → Comes now last_active before result
Comes-behind now la la' before now_at (ok (after, end)) same d b begun timely moved p = record {
  same_bytes = p.same_bytes ∙ same;
  same_sender = p.same_sender ∙ d;
  same_socket = p.same_socket ∙ b;
  queue_fits = p.queue_fits;
  spent = p.spent;
  timely = λ h. p.timely begun;
  activity = Moves-trans now la la' end before now_at after moved p.activity;
}
Comes-behind now la la' before now_at (err e) same d b begun timely moved (inl (x, y)) =
    inl (x, sym d ∙ y)
Comes-behind now la la' before now_at (err e) same d b begun timely moved (inr (inl (x, y))) =
    inr (inl (x, sym b ∙ y))
Comes-behind now la la' before now_at (err e) same d b begun timely moved (inr (inr (x, y))) =
    absurd (timely y)
Comes-behind now la la' before now_at panic same d b begun timely moved p = absurd p
Comes-behind now la la' before now_at stuck same d b begun timely moved p = absurd p

module _ {A W : Type 0} (bits : Bitvec A) (slice : SliceMut W) (now last_active : ℕ)
    (queue : List Message) (dropped : Bool) (room : ℕ) (broken : Bool) (wire : List ℕ) where
  -- A write of which the socket takes `taken`.
  write_on-Comes :
      (rest : ℕ → Egress → Outcome IoError (Egress × ℕ)) (bytes taken left : List ℕ) (deadline : ℕ)
      → taken ++ left ≡ bytes
      → All FitsBuffer queue
      → ((room : ℕ)
          → Comes now now
              (sends idle queue dropped room broken (wire ++ taken))
              (rest now (sends idle queue dropped room broken (wire ++ taken))))
      → Comes now last_active (sends (writing bytes deadline) queue dropped room broken wire) (
          write_on bits slice now rest taken left deadline
            (sends (writing bytes deadline) queue dropped room broken wire)
            last_active)
  write_on-Comes rest bytes taken [] deadline split fits next =
      Comes-behind now last_active now _ _ _
        (bytes_taken wire taken [] bytes (queue_bytes queue) split) refl refl tt (λ x. x)
        (inr (refl, omega arith)) (next (room - length taken))
  write_on-Comes rest bytes taken (x ∷ left) deadline split fits next = elim (Bool-cases broken) [
    | inl is_broken ↦ rw is_broken (inr (inl (refl, refl)))
    | inr working ↦ elim (Bool-cases (leb deadline now)) [
      | inl late ↦ rw (working, late) (inr (inr (refl, leb→le _ _ late)))
      | inr on_time ↦
          rw (working, on_time)
            record {
              same_bytes = bytes_taken wire taken (x ∷ left) bytes (queue_bytes queue) split;
              same_sender = refl;
              same_socket = refl;
              queue_fits = fits;
              spent = refl;
              timely = λ begun. (leb→lt _ _ on_time, begun);
              activity = inl (refl, refl);
            }
    ]
  ]

module _ {A W : Type 0} (bits : Bitvec A) (slice : SliceMut W) (now : ℕ) where
  pub poll_process_egress-Comes :
      (fuel last_active : ℕ) (state : Writing) (queue : List Message) (dropped : Bool) (room : ℕ)
      (broken : Bool) (wire : List ℕ)
      → 2 * length queue + rounds state < fuel
      → All FitsBuffer queue
      → Comes now last_active (sends state queue dropped room broken wire) (
          poll_process_egress bits slice now fuel last_active
            (sends state queue dropped room broken wire))
  unfolding poll_process_egress
  poll_process_egress-Comes zero last_active state queue dropped room broken wire h fits =
      absurd (omega (arith, h))
  poll_process_egress-Comes (suc fuel) last_active idle [] true room broken wire h fits =
      inl (refl, refl)
  poll_process_egress-Comes (suc fuel) last_active idle [] false room broken wire h fits = record {
    same_bytes = refl;
    same_sender = refl;
    same_socket = refl;
    queue_fits = tt;
    spent = (refl, refl);
    timely = λ begun. tt;
    activity = inl (refl, refl);
  }
  poll_process_egress-Comes (suc fuel) last_active idle (message ∷ queue) dropped room broken wire h
        (fit, fits) =
      let bytes = message_bytes message in
      rw (Comes, poll_process_egress, encode_message-message_bytes bits slice message fit.0 fit.1)
        (Comes-behind now last_active last_active _
          (sends (writing bytes (now + io_timeout)) queue dropped room broken wire) _ refl refl refl
          (omega arith) (λ late. absurd (omega (arith, late))) (inl (refl, refl))
          (poll_process_egress-Comes fuel last_active (writing bytes (now + io_timeout)) queue
            dropped room broken wire (omega (arith, h)) fits))
  poll_process_egress-Comes (suc fuel) last_active (writing bytes deadline) queue dropped room
        broken wire h fits =
      write_on-Comes bits slice now last_active queue dropped room broken wire
        (poll_process_egress bits slice now fuel) bytes (take room bytes) (drop room bytes) deadline
        (take-append-drop room bytes) fits
        (λ room'.
          poll_process_egress-Comes fuel now idle queue dropped room' broken _ (omega (arith, h))
            fits)
