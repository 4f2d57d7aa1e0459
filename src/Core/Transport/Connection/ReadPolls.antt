-- ===== src/Core/Transport/Connection/ReadPolls.antt =====
-- stunny-core/src/transport/connection_pool.rs: what a poll of `run_connection` reads of a stream that
-- goes on.
use mstun.Base.{
  ℕ, ◌+◌, ◌-◌, Bool-cases, ltb, leb, ◌≡◌, ◌∙◌, List, ◌++◌, length, Outcome, ok, err, panic, stuck,
  ◌>>=◌, All, inl, inr,
}
use mstun.Base.Words.{IsByte}
use mstun.Extern.Buf.{SliceBuf}
use mstun.Extern.BufMut.{SliceMut}
use mstun.Extern.Bitvec.{Bitvec}
use mstun.Extern.Channel.{Sender}
use mstun.Core.Message.{Message}
use mstun.Core.Attributes.SocketAddr.{SocketAddr}
use mstun.Core.Transport.{IoError, parse_failed}
use mstun.Core.Transport.Connection.{
  StreamEnd, flowing, at_eof, broken, Connection, Ingress, Egress,
}
use mstun.Core.Transport.Connection.ReadLoop.{poll_process_ingress}
use mstun.Core.Transport.Connection.Join.{
  Event, poll_detect_inactivity, inactivity_part, poll_connection,
}
use mstun.Core.Transport.Connection.Resume.{resume, Resumes, stage_lem, poll_process_ingress-resume}
use mstun.Core.Transport.Connection.Wire
use mstun.Core.Transport.Connection.Wire.{FitsBuffer, rounds_lem, poll_process_egress-Comes}
use mstun.Core.Transport.Connection.Polls.{Upholds, Kept, poll_connection-Upholds}

module _ {A B W S : Type 0} (bits : Bitvec A) (slice : SliceBuf B) (slice_mut : SliceMut W)
    (channel : Sender S (Message × SocketAddr)) (remote_addr : SocketAddr) (timeout : ℕ) where
  -- What a run comes to, where reading the whole stream comes to `whole`.
  abbrev pub ReadsAs : Outcome IoError (List ℕ × S) → Outcome IoError (Connection S) → Type 0
  ReadsAs whole (ok c) = whole ≡ ok (c.ingress.unread, c.ingress.sink)
  ReadsAs whole (err (parse_failed e)) = whole ≡ err (parse_failed e)
  ReadsAs whole (err _) = Unit
  ReadsAs whole panic = whole ≡ panic
  ReadsAs whole stuck = ⊥

  module _ (whole : Outcome IoError (List ℕ × S)) where
    -- With `more` to come in, reading on from here comes to the whole.
    pub record Reads (more : List ℕ) (c : Connection S) : Type 0 where
      pub on :
          whole
          ≡ resume bits slice channel remote_addr c.ingress.reading
              (c.ingress.unread ++ more)
              c.ingress.sink
      pub flows : c.ingress.stream_end ≡ flowing
      pub typed : All IsByte c.ingress.unread
      pub fits : All FitsBuffer c.egress.queue

    abbrev pub Starved : Connection S → Type 0
    Starved c =
        resume bits slice channel remote_addr c.ingress.reading c.ingress.unread c.ingress.sink
        ≡ ok (c.ingress.unread, c.ingress.sink)

    abbrev pub Nothing : Connection S → Type 0
    Nothing c = Unit

    ingress_step :
        (more : List ℕ) (before : Outcome IoError (List ℕ × S)) (c : Connection S)
        (m : Outcome IoError (Ingress S × ℕ))
        → whole ≡ before
        → All FitsBuffer c.egress.queue
        → Resumes bits slice channel remote_addr more before m
        → Upholds (Kept (Reads more) Starved Nothing Nothing c) (ReadsAs whole) (
            m >>= λ (ingress, last_active).
            ok (record c { ingress = ingress; last_active = last_active }))
    ingress_step more before c (ok (ingress, last_active)) e fits (on, starved, flows, typed) =
        record {
          base = record { on = e ∙ on; flows = flows; typed = typed; fits = fits };
          own = starved;
          keeps_first = λ k. k;
          keeps_second = λ k. k;
        }
    ingress_step more before c (err x) e fits (inl bad) = failed x (e ∙ bad)
      where
        failed : (x : IoError) → whole ≡ err x → ReadsAs whole (err x)
        failed (parse_failed y) bad = bad
        failed _ bad = tt
    ingress_step more before c (err x) e fits (inr late) = rw late tt
    ingress_step more before c panic e fits bad = e ∙ bad
    ingress_step more before c stuck e fits bad = bad

    egress_step :
        (more : List ℕ) (now : ℕ) (c : Connection S) (m : Outcome IoError (Egress × ℕ))
        → Reads more c
        → Wire.Comes now c.last_active c.egress m
        → Upholds (Kept (Reads more) Nothing Starved Nothing c) (ReadsAs whole) (
            m >>= λ (egress, last_active).
            ok (record c { egress = egress; last_active = last_active }))
    egress_step more now c (ok (egress, last_active)) r p = record {
      base = record { on = r.on; flows = r.flows; typed = r.typed; fits = p.queue_fits };
      own = tt;
      keeps_first = λ k. k;
      keeps_second = λ k. k;
    }
    egress_step more now c (err e) r (inl (x, y)) = rw x tt
    egress_step more now c (err e) r (inr (inl (x, y))) = rw x tt
    egress_step more now c (err e) r (inr (inr (x, y))) = rw x tt
    egress_step more now c panic r h = absurd h
    egress_step more now c stuck r h = absurd h

    inactivity_step :
        (more : List ℕ) (now : ℕ) (c : Connection S)
        → Reads more c
        → Upholds
            (Kept (Reads more) Nothing Starved Nothing c)
            (ReadsAs whole)
            (inactivity_part bits slice slice_mut channel remote_addr timeout now c)
    unfolding poll_detect_inactivity
    inactivity_step more now c r = elim (Bool-cases (ltb now c.wake)) [
      | inl asleep ↦ rw (Upholds, asleep) (slept c.wake)
      | inr awake ↦ elim (Bool-cases (leb timeout (now - c.last_active))) [
        | inl idle ↦ rw (Upholds, awake, idle) tt
        | inr busy ↦ rw (Upholds, awake, busy) (slept _)
      ]
    ]
      where
        slept : (wake : ℕ) → Kept (Reads more) Nothing Starved Nothing c (record c { wake = wake })
        slept wake = record {
          base = record { on = r.on; flows = r.flows; typed = r.typed; fits = r.fits };
          own = tt;
          keeps_first = λ k. k;
          keeps_second = λ k. k;
        }

    -- A poll of `process_ingress` while the stream goes on.
    poll_flowing :
        (more : List ℕ) (now : ℕ) (c : Connection S) (stream_end : StreamEnd)
        → stream_end ≡ flowing
        → All IsByte c.ingress.unread
        → Resumes bits slice channel remote_addr more
            (resume bits slice channel remote_addr c.ingress.reading
              (c.ingress.unread ++ more)
              c.ingress.sink)
            (poll_process_ingress bits slice channel remote_addr now
              (length c.ingress.unread + 4)
              c.last_active
              (record c.ingress { stream_end = stream_end }))
    poll_flowing more now c flowing e typed =
        poll_process_ingress-resume bits slice channel remote_addr now (length c.ingress.unread + 4)
          c.last_active c.ingress.reading c.ingress.unread more c.ingress.sink
          (stage_lem c.ingress.reading c.ingress.unread) typed
    poll_flowing more now c at_eof e typed = cc
    poll_flowing more now c broken e typed = cc

    pub poll_connection-Reads :
        (more : List ℕ) (event : Event) (c : Connection S)
        → Reads more c
        → Upholds
            (λ c'. Reads more c' × Starved c' × Nothing c' × Nothing c')
            (ReadsAs whole)
            (poll_connection bits slice slice_mut channel remote_addr timeout event.first event.now
              c)
    poll_connection-Reads more event c r =
        poll_connection-Upholds bits slice slice_mut channel remote_addr timeout event.now
          (Reads more) Starved Nothing Nothing (ReadsAs whole)
          (record {
            ingress = λ d r.
                ingress_step more _ d _ r.on r.fits
                  (poll_flowing more event.now d d.ingress.stream_end r.flows r.typed);
            egress = λ d r. egress_step more event.now d _ r (
                poll_process_egress-Comes bits slice_mut event.now _ d.last_active d.egress.state
                  d.egress.queue d.egress.dropped d.egress.room d.egress.socket_broken d.egress.wire
                  (rounds_lem d.egress.state d.egress.queue) r.fits);
            inactivity = λ d r. inactivity_step more event.now d r;
          })
          event.first c r
