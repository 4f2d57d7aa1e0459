-- ===== src/Core/Transport/Connection/Writes.antt =====
-- stunny-core/src/transport/connection_pool.rs: what `run_connection` writes, however the socket
-- takes the bytes.
use mstun.Base.{
  ℕ, ◌≡◌, refl, sym, ap, ◌∙◌, List, [], ◌∷◌, ◌++◌, append-nil, append_assoc, Outcome, ok, err,
  panic, stuck, ◌>>=◌, All, All-append,
}
use mstun.Extern.Buf.{SliceBuf}
use mstun.Extern.BufMut.{SliceMut}
use mstun.Extern.Bitvec.{Bitvec}
use mstun.Extern.Channel.{Sender}
use mstun.Core.Message.{Message}
use mstun.Core.Attributes.SocketAddr.{SocketAddr}
use mstun.Core.Transport.{IoError}
use mstun.Core.Transport.Udp.Codec.{message_bytes}
use mstun.Core.Transport.Connection.{Connection, Ingress, Egress}
use mstun.Core.Transport.Connection.Join.{
  Happening, bytes_in, read_ended, message_out, sender_dropped, room_made, write_broken, woken,
  Event, happens, start_connection, poll_connection, run_connection, run,
}
use mstun.Core.Transport.Connection.Wire.{
  Comes, FitsBuffer, IsSpent, queue_bytes, left_bytes, all_bytes, rounds_lem,
  poll_process_egress-Comes,
}
use mstun.Core.Transport.Connection.Polls.{
  Upholds, Upholds-map, Kept, poll_connection-Upholds, run_connection-Upholds,
}

abbrev pub sent_messages : Happening → List Message
sent_messages (message_out message) = message ∷ []
sent_messages _ = []

-- The bytes of the messages that are sent over a run, one behind the other.
abbrev pub stream_out : List Event → List ℕ
stream_out [] = []
stream_out (event ∷ events) = queue_bytes (sent_messages event.happening) ++ stream_out events

-- A message that is sent fits the buffer.
abbrev pub SendsFit : Happening → Type 0
SendsFit (message_out message) = FitsBuffer message
SendsFit _ = Unit

pub queue_bytes-append :
    (queue more : List Message)
    → queue_bytes (queue ++ more) ≡ queue_bytes queue ++ queue_bytes more
queue_bytes-append [] more = refl
queue_bytes-append (message ∷ queue) more =
    ap (λ b. message_bytes message ++ b) (queue_bytes-append queue more)
    ∙ sym (append_assoc (message_bytes message) (queue_bytes queue) (queue_bytes more))

-- Bytes go behind all others.
bytes_behind :
    (wire left waiting next more : List ℕ)
    → (wire ++ (left ++ (waiting ++ next))) ++ more ≡ (wire ++ (left ++ waiting)) ++ (next ++ more)
bytes_behind wire left waiting next more =
    ap (λ r. (wire ++ r) ++ more) (sym (append_assoc left waiting next))
    ∙ ap (λ r. r ++ more) (sym (append_assoc wire (left ++ waiting) next))
    ∙ append_assoc (wire ++ (left ++ waiting)) next more

module _ {A B W S : Type 0} (bits : Bitvec A) (slice : SliceBuf B) (slice_mut : SliceMut W)
    (channel : Sender S (Message × SocketAddr)) (remote_addr : SocketAddr) (timeout : ℕ) where
  abbrev Any : Outcome IoError (Connection S) → Type 0
  Any m = Unit

  abbrev Nothing : Connection S → Type 0
  Nothing c = Unit

  -- What a run that goes on has on its wire, of `total`: all but what is left of the message that is
  -- written and the messages that wait, and those only while the socket has no room.
  abbrev pub WritesAs : List ℕ → Outcome IoError (Connection S) → Type 0
  WritesAs total =
      Upholds
        (λ c.
          (c.egress.wire ++ (left_bytes c.egress.state ++ queue_bytes c.egress.queue) ≡ total)
          × IsSpent c.egress.state c.egress)
        (λ m. Unit)

  module _ (total : List ℕ) where
    -- With `more` to be sent, the bytes here are the rest of all.
    record Writes (more : List ℕ) (c : Connection S) : Type 0 where
      pub on : all_bytes c.egress ++ more ≡ total
      pub fits : All FitsBuffer c.egress.queue

    abbrev Spent : Connection S → Type 0
    Spent c = IsSpent c.egress.state c.egress

    ingress_step :
        (more : List ℕ) (c : Connection S) (m : Outcome IoError (Ingress S × ℕ))
        → Writes more c
        → Upholds (Kept (Writes more) Nothing Spent Nothing c) Any (
            m >>= λ (ingress, last_active).
            ok (record c { ingress = ingress; last_active = last_active }))
    ingress_step more c (ok (ingress, last_active)) w = record {
      base = record { on = w.on; fits = w.fits };
      own = tt;
      keeps_first = λ k. k;
      keeps_second = λ k. k;
    }
    ingress_step more c (err e) w = tt
    ingress_step more c panic w = tt
    ingress_step more c stuck w = tt

    egress_step :
        (more : List ℕ) (now : ℕ) (c : Connection S) (m : Outcome IoError (Egress × ℕ))
        → Writes more c
        → Comes now c.last_active c.egress m
        → Upholds (Kept (Writes more) Spent Nothing Nothing c) Any (
            m >>= λ (egress, last_active).
            ok (record c { egress = egress; last_active = last_active }))
    egress_step more now c (ok (egress, last_active)) w p = record {
      base = record { on = ap (λ b. b ++ more) p.same_bytes ∙ w.on; fits = p.queue_fits };
      own = p.spent;
      keeps_first = λ k. k;
      keeps_second = λ k. k;
    }
    egress_step more now c (err e) w p = tt
    egress_step more now c panic w p = tt
    egress_step more now c stuck w p = tt

    inactivity_step :
        (more : List ℕ) (c : Connection S) (m : Outcome IoError ℕ)
        → Writes more c
        → Upholds
            (Kept (Writes more) Nothing Nothing Spent c)
            Any
            (m >>= λ wake. ok (record c { wake = wake }))
    inactivity_step more c (ok wake) w = record {
      base = record { on = w.on; fits = w.fits };
      own = tt;
      keeps_first = λ k. k;
      keeps_second = λ k. k;
    }
    inactivity_step more c (err e) w = tt
    inactivity_step more c panic w = tt
    inactivity_step more c stuck w = tt

    poll_connection-Writes :
        (more : List ℕ) (event : Event) (c : Connection S)
        → Writes more c
        → Upholds
            (λ c'. Writes more c' × Nothing c' × Spent c' × Nothing c')
            Any
            (poll_connection bits slice slice_mut channel remote_addr timeout event.first event.now
              c)
    poll_connection-Writes more event c w =
        poll_connection-Upholds bits slice slice_mut channel remote_addr timeout event.now
          (Writes more) Nothing Spent Nothing Any
          (record {
            ingress = λ d w. ingress_step more d _ w;
            egress = λ d w. egress_step more event.now d _ w (
                poll_process_egress-Comes bits slice_mut event.now _ d.last_active d.egress.state
                  d.egress.queue d.egress.dropped d.egress.room d.egress.socket_broken d.egress.wire
                  (rounds_lem d.egress.state d.egress.queue) w.fits);
            inactivity = λ d w. inactivity_step more d _ w;
          })
          event.first c w

    happens-Writes :
        (happening : Happening) (more : List ℕ) (c : Connection S)
        → SendsFit happening
        → Writes (queue_bytes (sent_messages happening) ++ more) c
        → Writes more (happens happening c)
    happens-Writes (message_out message) more c h w = record {
      on =
          ap (λ q. (c.egress.wire ++ (left_bytes c.egress.state ++ q)) ++ more)
            (queue_bytes-append c.egress.queue (message ∷ []))
          ∙ bytes_behind c.egress.wire (left_bytes c.egress.state) (queue_bytes c.egress.queue)
              (queue_bytes (message ∷ [])) more
          ∙ w.on;
      fits = All-append FitsBuffer c.egress.queue (message ∷ []) w.fits (h, tt);
    }
    happens-Writes (bytes_in bytes) more c h w = record { on = w.on; fits = w.fits }
    happens-Writes (read_ended stream_end) more c h w = record { on = w.on; fits = w.fits }
    happens-Writes sender_dropped more c h w = record { on = w.on; fits = w.fits }
    happens-Writes (room_made n) more c h w = record { on = w.on; fits = w.fits }
    happens-Writes write_broken more c h w = record { on = w.on; fits = w.fits }
    happens-Writes woken more c h w = record { on = w.on; fits = w.fits }

    abbrev Run : List Event → Connection S → Type 0
    Run events c = All (λ e. SendsFit e.happening) events × Writes (stream_out events) c × Spent c

    run_connection-Writes :
        (events : List Event) (c : Connection S)
        → Run events c
        → Upholds
            (Run [])
            Any
            (run_connection bits slice slice_mut channel remote_addr timeout events c)
    run_connection-Writes =
        run_connection-Upholds bits slice slice_mut channel remote_addr timeout Run Any
          λ event events c ((h, hs), w, spent).
            Upholds-map _ (Run events) Any _ (λ c' (w', _, spent', _). (hs, w', spent'))
              (poll_connection-Writes (stream_out events) event (happens event.happening c)
                (happens-Writes event.happening (stream_out events) c h w))

  -- A connection from its start whose messages fit the buffer of 1500 bytes, however the socket takes
  -- the bytes and whenever it is polled: as long as it runs, the bytes on the wire, the rest of the
  -- message that is being written and the messages that wait are the bytes of the messages that were
  -- sent to it, one behind the other; and behind each poll it waits for a message, with none left,
  -- or for a socket without room.
  pub run-stream_out :
      (events : List Event) (sink : S) (now : ℕ)
      → All (λ e. SendsFit e.happening) events
      → WritesAs
          (stream_out events)
          (run bits slice slice_mut channel remote_addr timeout events sink now)
  unfolding start_connection run
  run-stream_out events sink now h =
      Upholds-map (Run (stream_out events) []) _ (λ m. Unit) _
        (λ c (hs, w, spent). (sym (append-nil (all_bytes c.egress)) ∙ w.on, spent))
        (run_connection-Writes (stream_out events) events (start_connection sink now)
          (h, record { on = refl; fits = tt }, (refl, refl)))
