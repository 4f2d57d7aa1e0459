-- ===== src/Core/Transport/Connection/WriteLoop.antt =====
-- stunny-core/src/transport/connection_pool.rs: a poll of `process_egress`, during which the clock
-- stands still.
use mstun.Base.{
  ℕ, zero, suc, ◌+◌, ◌-◌, leb, if◌then◌else◌, List, [], ◌∷◌, ◌++◌, Outcome, ok, err, stuck, ◌>>=◌,
  length, take, drop,
}
use mstun.Extern.BufMut.{SliceMut}
use mstun.Extern.Bitvec.{Bitvec}
use mstun.Core.Message.{Message}
use mstun.Core.Transport.{IoError, channel_closed, socket_failed, timed_out}
use mstun.Core.Transport.ConnectionPool.{encode_message}
use mstun.Core.Transport.Connection.{io_timeout, Writing, idle, writing, Egress}

module _ {W : Type 0} {A : Type 0} (bits : Bitvec A) (slice : SliceMut W) (now : ℕ) where
  -- `socket.write_all(..)` in `time::timeout` and the loop behind it: what the socket takes of the
  -- bytes, and what is left of them.
  abbrev pub write_on :
      (ℕ → Egress → Outcome IoError (Egress × ℕ))
      → List ℕ
      → List ℕ
      → ℕ
      → Egress
      → ℕ
      → Outcome IoError (Egress × ℕ)
  write_on rest taken [] deadline egress last_active = rest now (record egress {
    state = idle;
    room = egress.room - length taken;
    wire = egress.wire ++ taken;
  })
  write_on rest taken (x ∷ left) deadline egress last_active =
      if egress.socket_broken
      then err socket_failed
      else if leb deadline now
      then err timed_out
      else ok (
        record egress {
          state = writing (x ∷ left) deadline;
          room = 0;
          wire = egress.wire ++ taken;
        },
        last_active,
      )

  -- `egress_source.recv().await`, and encoding the message.
  abbrev pub receive :
      (Egress → Outcome IoError (Egress × ℕ))
      → List Message
      → Egress
      → ℕ
      → Outcome IoError (Egress × ℕ)
  receive rest [] egress last_active =
      if egress.dropped then err channel_closed else ok (egress, last_active)
  receive rest (message ∷ queue) egress last_active = do
    bytes ← encode_message bits slice message
    rest (record egress { state = writing bytes (now + io_timeout); queue = queue })

  abbrev pub send_on :
      (ℕ → Egress → Outcome IoError (Egress × ℕ))
      → Writing
      → Egress
      → ℕ
      → Outcome IoError (Egress × ℕ)
  send_on rest idle egress last_active = receive (rest last_active) egress.queue egress last_active
  send_on rest (writing bytes deadline) egress last_active =
      write_on rest (take egress.room bytes) (drop egress.room bytes) deadline egress last_active

  unfoldable pub poll_process_egress : ℕ → ℕ → Egress → Outcome IoError (Egress × ℕ)
  poll_process_egress zero last_active egress = stuck
  poll_process_egress (suc fuel) last_active egress =
      let rest = poll_process_egress fuel in send_on rest egress.state egress last_active
