-- ===== src/Core/Transport/Connection/Reads.antt =====
-- stunny-core/src/transport/connection_pool.rs: what `run_connection` reads, however the bytes come in.
use mstun.Base.{
  ℕ, suc, ◌≡◌, refl, sym, ap, ◌∙◌, List, [], ◌∷◌, ◌++◌, false, append-nil, append_assoc, length,
  Outcome, ok, err, panic, stuck, All, All-append,
}
use mstun.Base.Words.{IsByte}
use mstun.Extern.Buf.{SliceBuf}
use mstun.Extern.BufMut.{SliceMut}
use mstun.Extern.Bitvec.{Bitvec}
use mstun.Extern.Channel.{Sender}
use mstun.Core.Message.{Message}
use mstun.Core.Attributes.SocketAddr.{SocketAddr}
use mstun.Core.Transport.{IoError}
use mstun.Core.Transport.ConnectionPool.{process_ingress}
use mstun.Core.Transport.Connection.{StreamEnd, flowing, at_eof, broken, Connection}
use mstun.Core.Transport.Connection.Join.{
  Happening, bytes_in, read_ended, message_out, sender_dropped, room_made, write_broken, woken,
  Event, more_bytes, happens, start_connection, run_connection, run,
}
use mstun.Core.Transport.Connection.Chunks.{process_all, process_all-round}
use mstun.Core.Transport.Connection.Resume.{resume}
use mstun.Core.Transport.Connection.Wire.{FitsBuffer}
use mstun.Core.Transport.Connection.Polls.{Upholds, Upholds-map, run_connection-Upholds}
use mstun.Core.Transport.Connection.ReadPolls
use mstun.Core.Transport.Connection.ReadPolls.{ReadsAs, poll_connection-Reads}

abbrev pub read_bytes : Happening → List ℕ
read_bytes (bytes_in bytes) = bytes
read_bytes _ = []

-- The bytes that come in over a run.
abbrev pub stream_in : List Event → List ℕ
stream_in [] = []
stream_in (event ∷ events) = read_bytes event.happening ++ stream_in events

-- The stream goes on, and messages fit the buffer.
abbrev pub Flows : Happening → Type 0
Flows (bytes_in bytes) = All IsByte bytes
Flows (read_ended stream_end) = ⊥
Flows (message_out message) = FitsBuffer message
Flows _ = Unit

module _ {A B W S : Type 0} (bits : Bitvec A) (slice : SliceBuf B) (slice_mut : SliceMut W)
    (channel : Sender S (Message × SocketAddr)) (remote_addr : SocketAddr) (timeout : ℕ) where
  module _ (whole : Outcome IoError (List ℕ × S)) where
    abbrev Reads : List ℕ → Connection S → Type 0
    Reads = ReadPolls.Reads bits slice slice_mut channel remote_addr timeout whole

    abbrev Starved : Connection S → Type 0
    Starved = ReadPolls.Starved bits slice slice_mut channel remote_addr timeout whole

    more_bytes-Reads :
        (bytes more : List ℕ) (c : Connection S) (stream_end : StreamEnd)
        → stream_end ≡ flowing
        → All IsByte bytes
        → Reads (bytes ++ more) c
        → Reads more (record c { ingress = more_bytes stream_end bytes c.ingress })
    more_bytes-Reads bytes more c flowing e h r = record {
      on =
          r.on
          ∙ ap (λ u. resume bits slice channel remote_addr c.ingress.reading u c.ingress.sink)
              (sym (append_assoc c.ingress.unread bytes more));
      flows = r.flows;
      typed = All-append IsByte c.ingress.unread bytes r.typed h;
      fits = r.fits;
    }
    more_bytes-Reads bytes more c at_eof e h r = cc
    more_bytes-Reads bytes more c broken e h r = cc

    happens-Reads :
        (happening : Happening) (more : List ℕ) (c : Connection S)
        → Flows happening
        → Reads (read_bytes happening ++ more) c
        → Reads more (happens happening c)
    happens-Reads (bytes_in bytes) more c h r =
        more_bytes-Reads bytes more c c.ingress.stream_end r.flows h r
    happens-Reads (message_out message) more c h r = record {
      on = r.on;
      flows = r.flows;
      typed = r.typed;
      fits = All-append FitsBuffer c.egress.queue (message ∷ []) r.fits (h, tt);
    }
    happens-Reads (read_ended stream_end) more c h r = absurd h
    happens-Reads sender_dropped more c h r = record {
      on = r.on;
      flows = r.flows;
      typed = r.typed;
      fits = r.fits;
    }
    happens-Reads (room_made n) more c h r = record {
      on = r.on;
      flows = r.flows;
      typed = r.typed;
      fits = r.fits;
    }
    happens-Reads write_broken more c h r = record {
      on = r.on;
      flows = r.flows;
      typed = r.typed;
      fits = r.fits;
    }
    happens-Reads woken more c h r = record {
      on = r.on;
      flows = r.flows;
      typed = r.typed;
      fits = r.fits;
    }

    abbrev Run : List Event → Connection S → Type 0
    Run events c = All (λ e. Flows e.happening) events × Reads (stream_in events) c × Starved c

    run_connection-Reads :
        (events : List Event) (c : Connection S)
        → Run events c
        → Upholds
            (Run [])
            (ReadsAs bits slice slice_mut channel remote_addr timeout whole)
            (run_connection bits slice slice_mut channel remote_addr timeout events c)
    run_connection-Reads =
        run_connection-Upholds bits slice slice_mut channel remote_addr timeout Run
          (ReadsAs bits slice slice_mut channel remote_addr timeout whole)
          λ event events c ((h, hs), r, starved).
            Upholds-map _ (Run events)
              (ReadsAs bits slice slice_mut channel remote_addr timeout whole) _
              (λ c' (r', starved', _, _). (hs, r', starved'))
              (poll_connection-Reads bits slice slice_mut channel remote_addr timeout whole
                (stream_in events) event (happens event.happening c)
                (happens-Reads event.happening (stream_in events) c h r))

    Run-ReadsAs :
        (m : Outcome IoError (Connection S))
        → Upholds (Run []) (ReadsAs bits slice slice_mut channel remote_addr timeout whole) m
        → ReadsAs bits slice slice_mut channel remote_addr timeout whole m
    Run-ReadsAs (ok c) (hs, r, starved) =
        r.on
        ∙ ap (λ u. resume bits slice channel remote_addr c.ingress.reading u c.ingress.sink)
            (append-nil c.ingress.unread)
        ∙ starved
    Run-ReadsAs (err e) h = h
    Run-ReadsAs panic h = h
    Run-ReadsAs stuck h = h

  -- A connection from its start, while its stream goes on and its messages fit the buffer of 1500
  -- bytes, however the bytes come in and whenever it is polled: if it still runs, `process_ingress`
  -- over the whole stream leaves the same channel, and the same bytes behind the last whole read; if
  -- it ends with a parse error, that is the error there; if it panics, reading the whole stream
  -- does; and no poll runs out of rounds.
  pub run-process_ingress :
      (events : List Event) (sink : S) (now : ℕ)
      → All (λ e. Flows e.happening) events
      → ReadsAs bits slice slice_mut channel remote_addr timeout
          (process_ingress bits slice channel
            (suc (length (stream_in events)))
            remote_addr
            false
            (stream_in events)
            sink)
          (run bits slice slice_mut channel remote_addr timeout events sink now)
  unfolding process_all start_connection run
  run-process_ingress events sink now h =
      let whole =
        process_ingress bits slice channel (suc (length (stream_in events))) remote_addr false
          (stream_in events) sink in
      Run-ReadsAs whole _ (
        run_connection-Reads whole events (start_connection sink now) (
          h,
          record { on = refl; flows = refl; typed = tt; fits = tt },
          process_all-round bits slice channel remote_addr [] sink,
        ))
