-- ===== src/Core/Transport/Connection/Join.antt =====
-- stunny-core/src/transport/connection_pool.rs: `run_connection`, which joins the two loops and
-- `detect_inactivity`. Between two polls bytes come in, the socket takes some, messages are sent to
-- the connection, and time passes.
use mstun.Base.{
  ℕ, ◌+◌, ◌-◌, ◌*◌, true, false, ltb, leb, if◌then◌else◌, List, [], ◌∷◌, ◌++◌, Outcome, ok, err,
  ◌>>=◌, length,
}
use mstun.Extern.Buf.{SliceBuf}
use mstun.Extern.BufMut.{SliceMut}
use mstun.Extern.Bitvec.{Bitvec}
use mstun.Extern.Channel.{Sender}
use mstun.Core.Message.{Message}
use mstun.Core.Attributes.SocketAddr.{SocketAddr}
use mstun.Core.Transport.{IoError, inactivity_timeout}
use mstun.Core.Transport.Connection.{
  StreamEnd, flowing, at_eof, broken, filling, Ingress, idle, Connection, First, ingress_first,
  egress_first, inactivity_first,
}
use mstun.Core.Transport.Connection.ReadLoop.{poll_process_ingress}
use mstun.Core.Transport.Connection.WriteLoop.{poll_process_egress}

-- `detect_inactivity`: while it sleeps, nothing; then when the next sleep ends, or the error.
unfoldable pub poll_detect_inactivity : ℕ → ℕ → ℕ → ℕ → Outcome IoError ℕ
poll_detect_inactivity timeout now last_active wake =
    if ltb now wake
    then ok wake
    else if leb timeout (now - last_active)
    then err inactivity_timeout
    else ok (now + (timeout - (now - last_active)))

-- What happens to a connection between two polls.
pub data Happening : Type 0 where
  bytes_in : List ℕ → Happening
  read_ended : StreamEnd → Happening
  message_out : Message → Happening
  sender_dropped : Happening
  room_made : ℕ → Happening
  write_broken : Happening
  woken : Happening

-- A poll behind it: when, and which future comes first.
pub record Event : Type 0 where
  pub happening : Happening
  pub now : ℕ
  pub first : First

-- What has ended stays ended.
abbrev pub ended : StreamEnd → StreamEnd → StreamEnd
ended flowing end = end
ended at_eof end = at_eof
ended broken end = broken

module _ {S : Type 0} where
  -- Nothing comes in behind the end of the stream.
  abbrev pub more_bytes : StreamEnd → List ℕ → Ingress S → Ingress S
  more_bytes flowing bytes ingress = record ingress { unread = ingress.unread ++ bytes }
  more_bytes _ bytes ingress = ingress

  abbrev pub happens : Happening → Connection S → Connection S
  happens (bytes_in bytes) c = record c {
    ingress = more_bytes c.ingress.stream_end bytes c.ingress;
  }
  happens (read_ended end) c = record c {
    ingress = record c.ingress { stream_end = ended c.ingress.stream_end end };
  }
  happens (message_out message) c = record c {
    egress = record c.egress { queue = c.egress.queue ++ message ∷ [] };
  }
  happens sender_dropped c = record c { egress = record c.egress { dropped = true } }
  happens (room_made n) c = record c { egress = record c.egress { room = c.egress.room + n } }
  happens write_broken c = record c { egress = record c.egress { socket_broken = true } }
  happens woken c = c

  -- As `run_connection` starts, with a sleep that is over.
  unfoldable pub start_connection : S → ℕ → Connection S
  start_connection sink now = record {
    ingress = record { reading = filling; unread = []; stream_end = flowing; sink = sink };
    egress = record {
      state = idle;
      queue = [];
      dropped = false;
      room = 0;
      socket_broken = false;
      wire = [];
    };
    last_active = now;
    wake = now;
  }

module _ {A B W S : Type 0} (bits : Bitvec A) (slice : SliceBuf B) (slice_mut : SliceMut W)
    (channel : Sender S (Message × SocketAddr)) (remote_addr : SocketAddr) (timeout : ℕ) where
  abbrev pub Outlived : Type 0
  Outlived = Outcome IoError (Connection S)

  -- The three futures, each with rounds enough for what it finds.
  abbrev pub ingress_part : ℕ → Connection S → Outlived
  ingress_part now c = do
    (ingress, last_active) ←
        poll_process_ingress bits slice channel remote_addr now (length c.ingress.unread + 4)
          c.last_active c.ingress
    ok (record c { ingress = ingress; last_active = last_active })

  abbrev pub egress_part : ℕ → Connection S → Outlived
  egress_part now c = do
    (egress, last_active) ←
        poll_process_egress bits slice_mut now (2 * length c.egress.queue + 2) c.last_active
          c.egress
    ok (record c { egress = egress; last_active = last_active })

  abbrev pub inactivity_part : ℕ → Connection S → Outlived
  inactivity_part now c = do
    wake ← poll_detect_inactivity timeout now c.last_active c.wake
    ok (record c { wake = wake })

  -- A poll of `try_join!`.
  unfoldable pub poll_connection : First → ℕ → Connection S → Outlived
  unfolding poll_process_ingress poll_process_egress poll_detect_inactivity
  poll_connection ingress_first now c =
      ingress_part now c >>= egress_part now >>= inactivity_part now
  poll_connection egress_first now c =
      egress_part now c >>= inactivity_part now >>= ingress_part now
  poll_connection inactivity_first now c =
      inactivity_part now c >>= ingress_part now >>= egress_part now

  -- `run_connection` from a poll on, up to the end of the events or the first error.
  unfoldable pub run_connection : List Event → Connection S → Outlived
  unfolding poll_connection
  run_connection [] c = ok c
  run_connection (event ∷ events) c = do
    c ← poll_connection event.first event.now (happens event.happening c)
    run_connection events c

  -- `Connection::run`, which splits the stream
  unfoldable pub run : List Event → S → ℕ → Outlived
  unfolding run_connection start_connection
  run events sink now = run_connection events (start_connection sink now)
