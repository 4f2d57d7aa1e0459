-- ===== src/Core/Transport/Connection/Deadlines.antt =====
-- `process_ingress` of stunny-core/src/transport/connection_pool.rs: the time limits of its reads, and
-- what a poll of it can fail with.
use mstun.Base.{
  ℕ, zero, suc, ◌+◌, ◌≤◌, ◌<◌, ◌≡◌, refl, sym, ◌∙◌, arith, leb, leb→le, leb→lt, ltb, List, [], ◌∷◌,
  length, Option-cases, Outcome, ok, err, panic, stuck, ◌>>=◌, map_err, if◌then◌else◌, Bool-cases,
  inl, inr, ◌⊎◌,
}
use mstun.Extern.Buf.{SliceBuf}
use mstun.Extern.Bitvec.{Bitvec}
use mstun.Extern.Channel.{Sender, TrySend, sent, full, closed}
use mstun.Core.Message.{ParseError, Header, Tlv, Message, header_size}
use mstun.Core.Message.HeaderCodec.{decode_header}
use mstun.Core.Message.TlvCodec.{decode_tlvs}
use mstun.Core.Attributes.SocketAddr.{SocketAddr}
use mstun.Core.Transport.{
  IoError, channel_closed, socket_failed, timed_out, unexpected_eof, parse_failed,
}
use mstun.Core.Transport.ConnectionPool.{buffer_len, read_exact}
use mstun.Core.Transport.Connection.{
  StreamEnd, flowing, at_eof, broken, io_timeout, Reading, filling, in_header, in_tlvs, Ingress,
}
use mstun.Core.Transport.Connection.Chunks.{read_exact-left}
use mstun.Core.Transport.Connection.ReadLoop.{
  Left, too_few, fill_buf, header_read, after_send, tlvs_read, read_on, poll_process_ingress,
}

-- A read that is not late at `now`, and was begun by then.
abbrev pub IsTimely : ℕ → Reading → Type 0
IsTimely now filling = Unit
IsTimely now (in_header deadline) = (now < deadline) × (deadline ≤ now + io_timeout)
IsTimely now (in_tlvs header deadline) = (now < deadline) × (deadline ≤ now + io_timeout)

abbrev pub IsBegun : ℕ → Reading → Type 0
IsBegun now filling = Unit
IsBegun now (in_header deadline) = deadline ≤ now + io_timeout
IsBegun now (in_tlvs header deadline) = deadline ≤ now + io_timeout

abbrev pub IsLate : ℕ → Reading → Type 0
IsLate now filling = ⊥
IsLate now (in_header deadline) = deadline ≤ now
IsLate now (in_tlvs header deadline) = deadline ≤ now

-- Why a poll fails.
abbrev pub Fails : {S : Type 0} → ℕ → Ingress S → IoError → Type 0
Fails now before timed_out = IsLate now before.reading
Fails now before unexpected_eof = before.stream_end ≡ at_eof
Fails now before socket_failed = before.stream_end ≡ broken
Fails now before (parse_failed e) = Unit
Fails now before channel_closed = Unit
Fails now before _ = ⊥

-- The bytes of messages that have come in and were not taken as a whole; those of the header are gone
-- from the reader where the attributes are read.
abbrev pub in_hand : {S : Type 0} → Reading → Ingress S → ℕ
in_hand (in_tlvs header deadline) ingress = length ingress.unread + header_size
in_hand _ ingress = length ingress.unread

-- No message has been taken, or some were and the connection is active now.
abbrev pub Moves : {S : Type 0} → ℕ → ℕ → ℕ → Ingress S → Ingress S → Type 0
Moves now last_active last_active' before after =
    (last_active' ≡ last_active)
      × (after.sink ≡ before.sink)
      × (in_hand after.reading after ≡ in_hand before.reading before)
    ⊎ (last_active' ≡ now) × (in_hand after.reading after < in_hand before.reading before)

Moves-trans :
    {S : Type 0} (now a b c : ℕ) (x y z : Ingress S)
    → Moves now a b x y
    → Moves now b c y z
    → Moves now a c x z
Moves-trans now a b c x y z (inl (p, q, r)) (inl (p', q', r')) = inl (p' ∙ p, q' ∙ q, r' ∙ r)
Moves-trans now a b c x y z (inr (p, q)) (inl (p', q', r')) = inr (p' ∙ p, omega (arith, q, r'))
Moves-trans now a b c x y z (inl (p, q, r)) (inr (p', q')) = inr (p', omega (arith, q', r))
Moves-trans now a b c x y z (inr (p, q)) (inr (p', q')) = inr (p', omega (arith, q', q))

-- What a poll comes to: it goes on with a timely read, or has an error for a reason.
abbrev pub Comes : {S : Type 0} → ℕ → ℕ → Ingress S → Outcome IoError (Ingress S × ℕ) → Type 0
Comes now last_active before (ok (after, last_active')) =
    IsTimely now after.reading
    × (after.stream_end ≡ before.stream_end)
    × Moves now last_active last_active' before after
Comes now last_active before (err e) = Fails now before e
Comes now last_active before panic = Unit
Comes now last_active before stuck = Unit

-- A step to `now_at`, where nothing is late, and the rest of the poll from there.
Comes-behind :
    {S : Type 0} (now last_active last_active' : ℕ) (before now_at : Ingress S)
    (result : Outcome IoError (Ingress S × ℕ))
    → now_at.stream_end ≡ before.stream_end
    → ¬ IsLate now now_at.reading
    → Moves now last_active last_active' before now_at
    → Comes now last_active' now_at result
    → Comes now last_active before result
Comes-behind now la la' before now_at (ok (after, end)) same timely moved (t, e, m) =
    (t, e ∙ same, Moves-trans now la la' end before now_at after moved m)
Comes-behind now la la' before now_at (err timed_out) same timely moved p = absurd (timely p)
Comes-behind now la la' before now_at (err unexpected_eof) same timely moved p = sym same ∙ p
Comes-behind now la la' before now_at (err socket_failed) same timely moved p = sym same ∙ p
Comes-behind now la la' before now_at (err (parse_failed e)) same timely moved p = tt
Comes-behind now la la' before now_at (err channel_closed) same timely moved p = tt
Comes-behind now la la' before now_at (err _) same timely moved p = p
Comes-behind now la la' before now_at panic same timely moved p = tt
Comes-behind now la la' before now_at stuck same timely moved p = tt

module _ {A B S : Type 0} (bits : Bitvec A) (slice : SliceBuf B)
    (channel : Sender S (Message × SocketAddr)) (remote_addr : SocketAddr) (now : ℕ) where
  open slice use {buf, as_slice}
  open channel use {try_send}

  module _ (rest : ℕ → Ingress S → Left bits slice channel remote_addr now)
      (goes_on : (last_active : ℕ) (ingress : Ingress S)
        → IsBegun now ingress.reading
        → Comes now last_active ingress (rest last_active ingress)) where
    goes_on-Comes :
        (last_active last_active' : ℕ) (before now_at : Ingress S)
        → now_at.stream_end ≡ before.stream_end
        → IsBegun now now_at.reading
        → ¬ IsLate now now_at.reading
        → Moves now last_active last_active' before now_at
        → Comes now last_active before (rest last_active' now_at)
    goes_on-Comes last_active last_active' before now_at same begun timely moved =
        Comes-behind now last_active last_active' before now_at (rest last_active' now_at) same
          timely moved (goes_on last_active' now_at begun)

    too_few-Comes :
        (reading : Reading) (deadline last_active : ℕ) (stream_end : StreamEnd) (unread : List ℕ)
        (sink : S)
        → (deadline ≤ now → IsLate now reading)
        → (now < deadline → IsTimely now reading)
        → Comes now last_active
            (record { reading = reading; unread = unread; stream_end = stream_end; sink = sink })
            (too_few stream_end deadline now (
              record { reading = reading; unread = unread; stream_end = stream_end; sink = sink },
              last_active,
            ))
    too_few-Comes reading deadline last_active at_eof unread sink late timely = refl
    too_few-Comes reading deadline last_active broken unread sink late timely = refl
    too_few-Comes reading deadline last_active flowing unread sink late timely =
        elim (Bool-cases (leb deadline now)) [
          | inl over ↦ rw over (late (leb→le _ _ over))
          | inr on_time ↦ rw on_time (timely (leb→lt _ _ on_time), refl, inl (refl, refl, refl))
        ]

    fill_buf-Comes :
        (last_active : ℕ) (stream_end : StreamEnd) (unread : List ℕ) (sink : S)
        → Comes now last_active
            (record { reading = filling; unread = unread; stream_end = stream_end; sink = sink })
            (fill_buf bits slice channel remote_addr now
              (rest last_active)
              unread
              stream_end
              (record { reading = filling; unread = unread; stream_end = stream_end; sink = sink })
              last_active)
    fill_buf-Comes last_active stream_end (x ∷ unread) sink =
        goes_on-Comes last_active last_active
          (record {
            reading = filling;
            unread = (x ∷ unread);
            stream_end = stream_end;
            sink = sink;
          })
          (record {
            reading = in_header (now + io_timeout);
            unread = (x ∷ unread);
            stream_end = stream_end;
            sink = sink;
          })
          refl (omega arith) (λ late. absurd (omega (arith, late))) (inl (refl, refl, refl))
    fill_buf-Comes last_active at_eof [] sink =
        goes_on-Comes last_active last_active
          (record { reading = filling; unread = []; stream_end = at_eof; sink = sink })
          (record {
            reading = in_header (now + io_timeout);
            unread = [];
            stream_end = at_eof;
            sink = sink;
          })
          refl (omega arith) (λ late. absurd (omega (arith, late))) (inl (refl, refl, refl))
    fill_buf-Comes last_active broken [] sink = refl
    fill_buf-Comes last_active flowing [] sink = (tt, refl, inl (refl, refl, refl))

    header_read-Comes :
        (last_active : ℕ) (left header_buffer : List ℕ) (before : Ingress S)
        → length left + header_size ≡ in_hand before.reading before
        → Comes now last_active before (
            header_read bits slice channel remote_addr now
              (rest last_active)
              header_buffer
              left
              before)
    header_read-Comes last_active left header_buffer before taken =
        decoded (decode_header bits buf (as_slice header_buffer))
      where
        decoded :
            (d : Outcome ParseError (Header × B))
            → Comes now last_active before (
                map_err parse_failed d >>= λ (header, end).
                if ltb buffer_len header.length
                then panic
                else rest last_active
                    (record before { reading = in_tlvs header (now + io_timeout); unread = left }))
        decoded (ok (header, end)) = elim (Bool-cases (ltb buffer_len header.length)) [
          | inl over ↦ rw over tt
          | inr fits ↦ rw fits (
              goes_on-Comes last_active last_active before
                (record before { reading = in_tlvs header (now + io_timeout); unread = left }) refl
                (omega arith) (λ late. absurd (omega (arith, late))) (inl (refl, refl, taken)))
        ]
        decoded (err e) = tt
        decoded panic = tt
        decoded stuck = tt

    tlvs_read-Comes :
        (last_active : ℕ) (header : Header) (left tlvs_buffer : List ℕ) (before : Ingress S)
        → length left < in_hand before.reading before
        → Comes now last_active before
            (tlvs_read bits slice channel remote_addr now (rest now) header tlvs_buffer left before)
    tlvs_read-Comes last_active header left tlvs_buffer before fewer =
        decoded (decode_tlvs buf (as_slice tlvs_buffer))
      where
        again :
            (sink : S)
            → Comes now last_active before
                (rest now (record before { reading = filling; unread = left; sink = sink }))
        again sink =
            goes_on-Comes last_active now before
              (record before { reading = filling; unread = left; sink = sink }) refl tt
              (λ late. late) (inr (refl, fewer))

        sends :
            (result : TrySend × S)
            → Comes now last_active before (
                after_send bits slice channel remote_addr now
                  (λ sink.
                    rest now (record before { reading = filling; unread = left; sink = sink }))
                  result)
        sends (closed, sink) = tt
        sends (full, sink) = again sink
        sends (sent, sink) = again sink

        decoded :
            (d : Outcome ParseError (List Tlv × B))
            → Comes now last_active before (
                map_err parse_failed d >>= λ (attributes, end).
                after_send bits slice channel remote_addr now
                  (λ sink.
                    rest now (record before { reading = filling; unread = left; sink = sink }))
                  (try_send
                    (record { header = header; attributes = attributes }, remote_addr)
                    before.sink))
        decoded (ok (attributes, end)) = sends _
        decoded (err e) = tt
        decoded panic = tt
        decoded stuck = tt

    read_on-Comes :
        (last_active : ℕ) (reading : Reading) (stream_end : StreamEnd) (unread : List ℕ) (sink : S)
        → IsBegun now reading
        → Comes now last_active
            (record { reading = reading; unread = unread; stream_end = stream_end; sink = sink })
            (read_on bits slice channel remote_addr now rest reading
              (record { reading = reading; unread = unread; stream_end = stream_end; sink = sink })
              last_active)
    read_on-Comes last_active filling stream_end unread sink begun =
        fill_buf-Comes last_active stream_end unread sink
    read_on-Comes last_active (in_header deadline) stream_end unread sink begun =
        elim (Option-cases (read_exact header_size unread)) [
          | inl short ↦
              rw (Comes, read_on, short)
                (too_few-Comes (in_header deadline) deadline last_active stream_end unread sink
                  (λ l. l) (λ l. (l, begun)))
          | inr ((front, left), e) ↦
              rw (Comes, read_on, e)
                (header_read-Comes last_active left front
                  (record {
                    reading = in_header deadline;
                    unread = unread;
                    stream_end = stream_end;
                    sink = sink;
                  })
                  (read_exact-left header_size unread front left e))
        ]
    read_on-Comes last_active (in_tlvs header deadline) stream_end unread sink begun =
        elim (Option-cases (read_exact header.length unread)) [
          | inl short ↦
              rw (Comes, read_on, short)
                (too_few-Comes (in_tlvs header deadline) deadline last_active stream_end unread sink
                  (λ l. l) (λ l. (l, begun)))
          | inr ((front, left), e) ↦
              rw (Comes, read_on, e)
                (tlvs_read-Comes last_active header left front
                  (record {
                    reading = in_tlvs header deadline;
                    unread = unread;
                    stream_end = stream_end;
                    sink = sink;
                  })
                  (omega (arith, read_exact-left header.length unread front left e)))
        ]

  pub poll_process_ingress-Comes :
      (fuel last_active : ℕ) (ingress : Ingress S)
      → IsBegun now ingress.reading
      → Comes now last_active ingress
          (poll_process_ingress bits slice channel remote_addr now fuel last_active ingress)
  unfolding poll_process_ingress
  poll_process_ingress-Comes zero last_active ingress begun = tt
  poll_process_ingress-Comes (suc fuel) last_active ingress begun =
      read_on-Comes (poll_process_ingress bits slice channel remote_addr now fuel)
        (poll_process_ingress-Comes fuel) last_active ingress.reading ingress.stream_end
        ingress.unread ingress.sink begun
