-- ===== src/Core/Transport/Connection/Lifetime.antt =====
-- stunny-core/src/transport/connection_pool.rs: how long `run_connection` goes on, by
-- `detect_inactivity` and the time limits of reads and writes.
use mstun.Base.{
  ℕ, ◌+◌, ◌-◌, ◌≤◌, ◌<◌, ◌≡◌, refl, sym, ◌∙◌, arith, true, ltb, ltb→lt, leb, leb→le, leb→lt,
  Outcome, ok, err, panic, stuck, ◌>>=◌, Bool-cases, inl, inr, ◌⊎◌,
}
use mstun.Extern.Buf.{SliceBuf}
use mstun.Extern.BufMut.{SliceMut}
use mstun.Extern.Bitvec.{Bitvec}
use mstun.Extern.Channel.{Sender}
use mstun.Core.Message.{Message}
use mstun.Core.Attributes.SocketAddr.{SocketAddr}
use mstun.Core.Transport.{
  IoError, channel_closed, socket_failed, timed_out, unexpected_eof, parse_failed, write_failed,
  inactivity_timeout,
}
use mstun.Core.Transport.Connection.{
  Reading, filling, in_header, in_tlvs, Writing, idle, writing, at_eof, broken, Connection, Ingress,
  Egress, First,
}
use mstun.Core.Transport.Connection.Join.{poll_connection, poll_detect_inactivity}
use mstun.Core.Transport.Connection.Activity.{Moves, read-Moves, write-Moves}
use mstun.Core.Transport.Connection.Deadlines
use mstun.Core.Transport.Connection.Deadlines.{poll_process_ingress-Comes}
use mstun.Core.Transport.Connection.Wire
use mstun.Core.Transport.Connection.Wire.{IsSpent, rounds_lem, poll_process_egress-Comes}
use mstun.Core.Transport.Connection.Polls.{Upholds, Upholds-map, Kept, poll_connection-Upholds}
use mstun.Core.Transport.Connection.Sound.{IsSound}

-- Behind a poll of `before` nothing is late: the timeout is not over, and no read or write has passed
-- its limit.
pub record IsAlive {S : Type 0} (timeout now : ℕ) (before c : Connection S) : Type 0 where
  pub sound : IsSound timeout now c
  pub activity : Moves now before c
  pub not_idle : now < c.last_active + timeout
  pub sleeps : now < c.wake
  pub reads : Deadlines.IsTimely now c.ingress.reading
  pub writes : Wire.IsTimely now c.egress.state
  pub spent : IsSpent c.egress.state c.egress

-- Why a poll of `before` at `now` ends the connection.
abbrev pub Ends : {S : Type 0} → ℕ → ℕ → Connection S → Outcome IoError (Connection S) → Type 0
Ends timeout now before (err inactivity_timeout) = before.last_active + timeout ≤ now
Ends timeout now before (err timed_out) =
    Deadlines.IsLate now before.ingress.reading ⊎ Wire.IsLate now before.egress.state
Ends timeout now before (err unexpected_eof) = before.ingress.stream_end ≡ at_eof
Ends timeout now before (err socket_failed) =
    (before.ingress.stream_end ≡ broken) ⊎ (before.egress.socket_broken ≡ true)
Ends timeout now before (err (write_failed e)) = ⊥
Ends timeout now before _ = Unit

-- The timeout is over, or the sleep goes on to its end at most.
poll_detect_inactivity-cases :
    (timeout now last_active wake : ℕ)
    → last_active ≤ now
    → wake ≤ last_active + timeout
    → ((wake' : ℕ) × (poll_detect_inactivity timeout now last_active wake ≡ ok wake')
        × (now < wake')
        × (wake' ≤ last_active + timeout))
      ⊎ (poll_detect_inactivity timeout now last_active wake ≡ err inactivity_timeout)
        × (last_active + timeout ≤ now)
unfolding poll_detect_inactivity
poll_detect_inactivity-cases timeout now last_active wake h k = elim (Bool-cases (ltb now wake)) [
  | inl asleep ↦ inl (wake, rw asleep refl, ltb→lt now wake asleep, k)
  | inr awake ↦ elim (Bool-cases (leb timeout (now - last_active))) [
    | inl over ↦ inr (rw (awake, over) refl, omega (arith, h, leb→le _ _ over))
    | inr busy ↦
        let early = leb→lt _ _ busy in
        inl (
          now + (timeout - (now - last_active)),
          rw (awake, busy) refl,
          omega (arith, h, early),
          omega (arith, h, early),
        )
  ]
]

reading_begun :
    (now : ℕ) (reading : Reading) → Deadlines.IsTimely now reading → Deadlines.IsBegun now reading
reading_begun now filling h = tt
reading_begun now (in_header deadline) h = h.1
reading_begun now (in_tlvs header deadline) h = h.1

reading_on_time :
    (now : ℕ) (reading : Reading) → Deadlines.IsTimely now reading → ¬ Deadlines.IsLate now reading
reading_on_time now filling h late = late
reading_on_time now (in_header deadline) h late = absurd (omega (arith, h.0, late))
reading_on_time now (in_tlvs header deadline) h late = absurd (omega (arith, h.0, late))

writing_begun : (now : ℕ) (state : Writing) → Wire.IsTimely now state → Wire.IsBegun now state
writing_begun now idle h = tt
writing_begun now (writing bytes deadline) h = h.1

writing_on_time : (now : ℕ) (state : Writing) → Wire.IsTimely now state → ¬ Wire.IsLate now state
writing_on_time now idle h late = late
writing_on_time now (writing bytes deadline) h late = absurd (omega (arith, h.0, late))

module _ {S : Type 0} (timeout now : ℕ) (start : Connection S) where
  -- Within a poll of `start`.
  record Within (c : Connection S) : Type 0 where
    pub sound : IsSound timeout now c
    pub since : start.last_active ≤ now
    pub activity : Moves now start c
    pub same_end : c.ingress.stream_end ≡ start.ingress.stream_end
    pub same_socket : c.egress.socket_broken ≡ start.egress.socket_broken
    pub late_read :
        Deadlines.IsLate now c.ingress.reading → Deadlines.IsLate now start.ingress.reading
    pub late_write : Wire.IsLate now c.egress.state → Wire.IsLate now start.egress.state

  abbrev Read : Connection S → Type 0
  Read c = Deadlines.IsTimely now c.ingress.reading

  abbrev Written : Connection S → Type 0
  Written c = Wire.IsTimely now c.egress.state × IsSpent c.egress.state c.egress

  abbrev Asleep : Connection S → Type 0
  Asleep c = now < c.wake

  Within-start : IsSound timeout now start → Within start
  Within-start sound = record {
    sound = sound;
    since = sound.active;
    activity = inl (refl, (refl, refl, refl));
    same_end = refl;
    same_socket = refl;
    late_read = λ late. late;
    late_write = λ late. late;
  }

  IsAlive-Within :
      (c : Connection S) → Within c × Read c × Written c × Asleep c → IsAlive timeout now start c
  IsAlive-Within c (w, read, written, asleep) = record {
    sound = w.sound;
    activity = w.activity;
    not_idle = omega (arith, w.sound.wakes, asleep);
    sleeps = asleep;
    reads = read;
    writes = written.0;
    spent = written.1;
  }

  ingress_step :
      (c : Connection S) (m : Outcome IoError (Ingress S × ℕ))
      → Within c
      → Deadlines.Comes now c.last_active c.ingress m
      → Upholds (Kept Within Read Written Asleep c) (Ends timeout now start) (
          m >>= λ (ingress, last_active).
          ok (record c { ingress = ingress; last_active = last_active }))
  ingress_step c (ok (ingress, last_active)) w (timely, same, moved) = record {
    base = record {
      sound = record {
        active = ground (arith, w.sound.active, moved);
        wakes = ground (arith, w.sound.active, w.sound.wakes, moved);
        reads = reading_begun now ingress.reading timely;
        writes = w.sound.writes;
        fits = w.sound.fits;
      };
      since = w.since;
      activity = read-Moves start now c ingress last_active w.activity moved;
      same_end = same ∙ w.same_end;
      same_socket = w.same_socket;
      late_read = λ late. absurd (reading_on_time now ingress.reading timely late);
      late_write = w.late_write;
    };
    own = timely;
    keeps_first = λ k. k;
    keeps_second = λ k. k;
  }
  ingress_step c (err timed_out) w late = inl (w.late_read late)
  ingress_step c (err unexpected_eof) w e = sym w.same_end ∙ e
  ingress_step c (err socket_failed) w e = inl (sym w.same_end ∙ e)
  ingress_step c (err (parse_failed e)) w h = tt
  ingress_step c (err channel_closed) w h = tt
  ingress_step c (err inactivity_timeout) w h = absurd h
  ingress_step c (err (write_failed e)) w h = h
  ingress_step c panic w h = tt
  ingress_step c stuck w h = tt

  egress_step :
      (c : Connection S) (m : Outcome IoError (Egress × ℕ))
      → Within c
      → Wire.Comes now c.last_active c.egress m
      → Upholds (Kept Within Written Read Asleep c) (Ends timeout now start) (
          m >>= λ (egress, last_active).
          ok (record c { egress = egress; last_active = last_active }))
  egress_step c (ok (egress, last_active)) w p = record {
    base = record {
      sound = record {
        active = ground (arith, w.sound.active, p.activity);
        wakes = ground (arith, w.sound.active, w.sound.wakes, p.activity);
        reads = w.sound.reads;
        writes = writing_begun now egress.state (p.timely w.sound.writes);
        fits = p.queue_fits;
      };
      since = w.since;
      activity = write-Moves start now c egress last_active w.activity p.activity;
      same_end = w.same_end;
      same_socket = p.same_socket ∙ w.same_socket;
      late_read = w.late_read;
      late_write = λ late. absurd (writing_on_time now egress.state (p.timely w.sound.writes) late);
    };
    own = ((p.timely w.sound.writes), p.spent);
    keeps_first = λ k. k;
    keeps_second = λ k. k;
  }
  egress_step c (err e) w (inl (x, y)) = rw x tt
  egress_step c (err e) w (inr (inl (x, y))) = rw x (inr (sym w.same_socket ∙ y))
  egress_step c (err e) w (inr (inr (x, y))) = rw x (inr (w.late_write y))
  egress_step c panic w h = absurd h
  egress_step c stuck w h = absurd h

  abbrev sleep_on : Connection S → Outcome IoError (Connection S)
  sleep_on c = do
    wake ← poll_detect_inactivity timeout now c.last_active c.wake
    ok (record c { wake = wake })

  inactivity_step :
      (c : Connection S)
      → Within c
      → Upholds (Kept Within Asleep Read Written c) (Ends timeout now start) (sleep_on c)
  inactivity_step c w =
      elim (poll_detect_inactivity-cases timeout now c.last_active c.wake w.sound.active
        w.sound.wakes) [
          | inl (wake, e, asleep, bound) ↦
              rw (Upholds, e)
                record {
                  base = record {
                    sound = record {
                      active = w.sound.active;
                      wakes = bound;
                      reads = w.sound.reads;
                      writes = w.sound.writes;
                      fits = w.sound.fits;
                    };
                    since = w.since;
                    activity = w.activity;
                    same_end = w.same_end;
                    same_socket = w.same_socket;
                    late_read = w.late_read;
                    late_write = w.late_write;
                  };
                  own = asleep;
                  keeps_first = λ k. k;
                  keeps_second = λ k. k;
                }
          | inr (e, over) ↦ rw (Upholds, e) (idle_since w.since (when w.activity) over)
        ]
    where
      when : {P Q : Type 0} {a b : ℕ} → (a ≡ b) × P ⊎ (a ≡ now) × Q → (a ≡ b) ⊎ (a ≡ now)
      when (inl (e, p)) = inl e
      when (inr (e, q)) = inr e

      idle_since :
          {last_active : ℕ}
          → start.last_active ≤ now
          → (last_active ≡ start.last_active) ⊎ (last_active ≡ now)
          → last_active + timeout ≤ now
          → start.last_active + timeout ≤ now
      idle_since since moved over = ground (arith, since, moved, over)

module _ {A B W S : Type 0} (bits : Bitvec A) (slice : SliceBuf B) (slice_mut : SliceMut W)
    (channel : Sender S (Message × SocketAddr)) (remote_addr : SocketAddr) (timeout : ℕ) where
  -- A poll at `now`, of a connection that is sound then. If it goes on: its last activity is `now`
  -- if a message was read or written to its end in the poll, and otherwise stays, with the
  -- channel, the bytes that wait to be read and the messages that wait to be written as many as
  -- before; the timeout since the last activity is not over, the sleep ends in time, no read or
  -- write is past its limit of 39 seconds, and no message waits for a socket with room. If it ends
  -- with an inactivity timeout, the last activity before the poll is at least as long ago as that;
  -- with a time limit, a read or a write was past it; with a broken or ended stream, it was.
  pub poll_connection-IsAlive :
      (first : First) (now : ℕ) (c : Connection S)
      → IsSound timeout now c
      → Upholds
          (IsAlive timeout now c)
          (Ends timeout now c)
          (poll_connection bits slice slice_mut channel remote_addr timeout first now c)
  poll_connection-IsAlive first now c sound =
      let start = Within-start timeout now c sound in
      Upholds-map _ (IsAlive timeout now c) (Ends timeout now c) _ (IsAlive-Within timeout now c) (
        poll_connection-Upholds bits slice slice_mut channel remote_addr timeout now
          (Within timeout now c) (Read timeout now c) (Written timeout now c) (Asleep timeout now c)
          (Ends timeout now c)
          (record {
            ingress = λ d w. ingress_step timeout now c d _ w (
                poll_process_ingress-Comes bits slice channel remote_addr now _ d.last_active
                  d.ingress w.sound.reads);
            egress = λ d w. egress_step timeout now c d _ w (
                poll_process_egress-Comes bits slice_mut now _ d.last_active d.egress.state
                  d.egress.queue d.egress.dropped d.egress.room d.egress.socket_broken d.egress.wire
                  (rounds_lem d.egress.state d.egress.queue) w.sound.fits);
            inactivity = λ d w. inactivity_step timeout now c d w;
          })
          first c start)
