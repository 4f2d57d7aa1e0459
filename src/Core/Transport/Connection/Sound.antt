-- ===== src/Core/Transport/Connection/Sound.antt =====
-- stunny-core/src/transport/connection_pool.rs: a connection of `run_connection` between two polls.
use mstun.Base.{ℕ, ◌+◌, ◌≤◌, arith, List, ◌∷◌, All, All-append, []}
use mstun.Core.Transport.Connection.{
  Reading, filling, in_header, in_tlvs, Writing, idle, writing, StreamEnd, flowing, at_eof, broken,
  Connection,
}
use mstun.Core.Transport.Connection.Join.{
  Happening, bytes_in, read_ended, message_out, sender_dropped, room_made, write_broken, woken,
  more_bytes, happens,
}
use mstun.Core.Transport.Connection.Deadlines
use mstun.Core.Transport.Connection.Wire
use mstun.Core.Transport.Connection.Wire.{FitsBuffer}
use mstun.Core.Transport.Connection.Writes.{SendsFit}

-- At `now` no read or write was begun later, the sleep ends in time, and the messages that wait fit
-- the buffer.
pub record IsSound {S : Type 0} (timeout now : ℕ) (c : Connection S) : Type 0 where
  pub active : c.last_active ≤ now
  pub wakes : c.wake ≤ c.last_active + timeout
  pub reads : Deadlines.IsBegun now c.ingress.reading
  pub writes : Wire.IsBegun now c.egress.state
  pub fits : All FitsBuffer c.egress.queue

reading_later :
    (t now : ℕ) (reading : Reading)
    → t ≤ now
    → Deadlines.IsBegun t reading
    → Deadlines.IsBegun now reading
reading_later t now filling h begun = tt
reading_later t now (in_header deadline) h begun = omega (arith, h, begun)
reading_later t now (in_tlvs header deadline) h begun = omega (arith, h, begun)

writing_later :
    (t now : ℕ) (state : Writing) → t ≤ now → Wire.IsBegun t state → Wire.IsBegun now state
writing_later t now idle h begun = tt
writing_later t now (writing bytes deadline) h begun = omega (arith, h, begun)

module _ {S : Type 0} (timeout t now : ℕ) (c : Connection S) (h : t ≤ now)
    (sound : IsSound timeout t c) where
  later : IsSound timeout now c
  later = record {
    active = omega (arith, h, sound.active);
    wakes = sound.wakes;
    reads = reading_later t now c.ingress.reading h sound.reads;
    writes = writing_later t now c.egress.state h sound.writes;
    fits = sound.fits;
  }

  more_bytes-IsBegun :
      (stream_end : StreamEnd) (bytes : List ℕ)
      → Deadlines.IsBegun now (more_bytes stream_end bytes c.ingress).reading
  more_bytes-IsBegun flowing bytes = later.reads
  more_bytes-IsBegun at_eof bytes = later.reads
  more_bytes-IsBegun broken bytes = later.reads

  -- What was sound is sound later, behind anything that happens, if a message that is sent fits.
  pub happens-IsSound :
      (happening : Happening) → SendsFit happening → IsSound timeout now (happens happening c)
  happens-IsSound (message_out message) fit = record {
    active = later.active;
    wakes = later.wakes;
    reads = later.reads;
    writes = later.writes;
    fits = All-append FitsBuffer c.egress.queue (message ∷ []) later.fits (fit, tt);
  }
  happens-IsSound (bytes_in bytes) fit = record {
    active = later.active;
    wakes = later.wakes;
    reads = more_bytes-IsBegun c.ingress.stream_end bytes;
    writes = later.writes;
    fits = later.fits;
  }
  happens-IsSound (read_ended stream_end) fit = record {
    active = later.active;
    wakes = later.wakes;
    reads = later.reads;
    writes = later.writes;
    fits = later.fits;
  }
  happens-IsSound sender_dropped fit = record {
    active = later.active;
    wakes = later.wakes;
    reads = later.reads;
    writes = later.writes;
    fits = later.fits;
  }
  happens-IsSound (room_made n) fit = record {
    active = later.active;
    wakes = later.wakes;
    reads = later.reads;
    writes = later.writes;
    fits = later.fits;
  }
  happens-IsSound write_broken fit = record {
    active = later.active;
    wakes = later.wakes;
    reads = later.reads;
    writes = later.writes;
    fits = later.fits;
  }
  happens-IsSound woken fit = record {
    active = later.active;
    wakes = later.wakes;
    reads = later.reads;
    writes = later.writes;
    fits = later.fits;
  }
