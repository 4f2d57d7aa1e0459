-- ===== src/Core/Transport/Connection/Resume.antt =====
-- `process_ingress` of stunny-core/src/transport/connection_pool.rs: a poll of it beside reading the
-- whole stream.
use mstun.Base.{
  ℕ, zero, suc, ◌+◌, ◌<◌, ◌≡◌, refl, sym, ap, ◌∙◌, subst, arith, ltb, leb, if◌then◌else◌, List, [],
  ◌∷◌, ◌++◌, some, Outcome, ok, err, panic, stuck, ◌>>=◌, length, Bool-cases, Option-cases, inl,
  inr, ◌⊎◌, append_assoc, All, All-left, All-right, Returns, map_err-Returns,
}
use mstun.Base.Words.{IsByte}
use mstun.Extern.Buf.{SliceBuf}
use mstun.Extern.Bitvec.{Bitvec}
use mstun.Extern.Channel.{Sender, TrySend, sent, full, closed}
use mstun.Core.Message.{Header, Tlv, Message, header_size}
use mstun.Core.Message.HeaderCodec.RoundTrip.{decode_header-Returns}
use mstun.Core.Message.TlvCodec.DecodeList.{decode_tlvs-Returns}
use mstun.Core.Attributes.SocketAddr.{SocketAddr}
use mstun.Core.Transport.{IoError, parse_failed, timed_out}
use mstun.Core.Transport.ConnectionPool
use mstun.Core.Transport.ConnectionPool.{buffer_len, read_exact}
use mstun.Core.Transport.Connection.{
  StreamEnd, flowing, Reading, filling, in_header, in_tlvs, Ingress, io_timeout,
}
use mstun.Core.Transport.Connection.ReadLoop.{too_few, Left, after_send, poll_process_ingress}
use mstun.Core.Transport.Connection.Chunks.{
  read_exact-parts, Result, tlvs_round, round, tlvs_round-whole, round-whole, tlvs_decoded,
  header_decoded, process_all, process_all-round, read_exact-left,
}
use mstun.Core.Transport.ConnectionPool.Streams.{read_exact-append}

read_exact-more :
    (n : ℕ) (unread front left more : List ℕ)
    → read_exact n unread ≡ some (front, left)
    → read_exact n (unread ++ more) ≡ some (front, left ++ more)
read_exact-more n unread front left more e =
    let (size, parts) = read_exact-parts n unread front left e in
    ap (λ u. read_exact n (u ++ more)) (sym parts)
    ∙ ap (read_exact n) (append_assoc front left more)
    ∙ read_exact-append n front (left ++ more) size

parts_typed :
    (n : ℕ) (unread front left : List ℕ)
    → read_exact n unread ≡ some (front, left)
    → All IsByte unread
    → All IsByte front × All IsByte left
parts_typed n unread front left e typed =
    let (size, parts) = read_exact-parts n unread front left e in
    let whole = subst (All IsByte) (sym parts) typed in
    (All-left IsByte front left whole, All-right IsByte front left whole)

-- Rounds that a poll still has from here, beside the bytes.
abbrev stage : Reading → ℕ
stage filling = 2
stage (in_header deadline) = 1
stage (in_tlvs header deadline) = 3

pub stage_lem :
    (reading : Reading) (unread : List ℕ) → length unread + stage reading < length unread + 4
stage_lem filling unread = omega arith
stage_lem (in_header deadline) unread = omega arith
stage_lem (in_tlvs header deadline) unread = omega arith

module _ {A B S : Type 0} (bits : Bitvec A) (slice : SliceBuf B)
    (channel : Sender S (Message × SocketAddr)) (remote_addr : SocketAddr) where
  open slice use {buf, as_slice, bytes-as_slice}
  open channel use {try_send}

  -- Reading a stream from where `process_ingress` waits.
  abbrev pub resume : Reading → List ℕ → S → Result bits slice channel remote_addr
  resume filling stream sink = process_all bits slice channel remote_addr stream sink
  resume (in_header deadline) stream sink = process_all bits slice channel remote_addr stream sink
  resume (in_tlvs header deadline) stream sink =
      tlvs_round bits slice channel remote_addr (process_all bits slice channel remote_addr) header
        stream sink

  -- What a poll leaves, beside the outcome that reading on had before it with `more` to come in: the
  -- same outcome, and nothing to do with the bytes at hand; or that error, or a late read.
  abbrev pub Resumes :
      List ℕ
      → Result bits slice channel remote_addr
      → Left bits slice channel remote_addr 0
      → Type 0
  Resumes more before (ok (ingress, last_active)) =
      (before ≡ resume ingress.reading (ingress.unread ++ more) ingress.sink)
      × (resume ingress.reading ingress.unread ingress.sink ≡ ok (ingress.unread, ingress.sink))
      × (ingress.stream_end ≡ flowing)
      × All IsByte ingress.unread
  Resumes more before (err e) = (before ≡ err e) ⊎ (e ≡ timed_out)
  Resumes more before panic = before ≡ panic
  Resumes more before stuck = ⊥

  Resumes-eq :
      (more : List ℕ) {before after : Result bits slice channel remote_addr}
      (left : Left bits slice channel remote_addr 0)
      → before ≡ after
      → Resumes more after left
      → Resumes more before left
  Resumes-eq more left e r = subst (λ b. Resumes more b left) (sym e) r

  abbrev pub reads : Reading → List ℕ → StreamEnd → S → Ingress S
  reads reading unread stream_end sink = record {
    reading = reading;
    unread = unread;
    stream_end = stream_end;
    sink = sink;
  }

  -- Too few bytes at hand: the read waits, or is late.
  waits :
      (reading : Reading) (deadline now last_active : ℕ) (unread more : List ℕ) (sink : S)
      → All IsByte unread
      → resume reading unread sink ≡ ok (unread, sink)
      → Resumes more
          (resume reading (unread ++ more) sink)
          (too_few flowing deadline now (reads reading unread flowing sink, last_active))
  waits reading deadline now last_active unread more sink typed starved =
      elim (Bool-cases (leb deadline now)) [
        | inl late ↦ rw late (inr refl)
        | inr timely ↦ rw timely (refl, starved, refl, typed)
      ]

  module _ (rest : ℕ → Ingress S → Left bits slice channel remote_addr 0) (more left : List ℕ)
      (sink : S) where
    header_read-resume :
        (now last_active : ℕ) (d : Outcome IoError (Header × B))
        → Returns d
        → ((header : Header)
            → Resumes more
                (resume (in_tlvs header (now + io_timeout)) (left ++ more) sink)
                (rest last_active (reads (in_tlvs header (now + io_timeout)) left flowing sink)))
        → Resumes more
            (header_decoded bits slice channel remote_addr
              (process_all bits slice channel remote_addr)
              (left ++ more)
              sink
              d)
            (d >>= λ (header, end).
              if ltb buffer_len header.length
              then panic
              else rest last_active (reads (in_tlvs header (now + io_timeout)) left flowing sink))
    header_read-resume now last_active (ok (header, end)) h next =
        elim (Bool-cases (ltb buffer_len header.length)) [
          | inl over ↦ rw over refl
          | inr fits ↦ rw fits (next header)
        ]
    header_read-resume now last_active (err e) h next = inl refl
    header_read-resume now last_active panic h next = absurd h
    header_read-resume now last_active stuck h next = absurd h

    sent-resume :
        (last_active : ℕ) (result : TrySend × S)
        → ((sink : S)
            → Resumes more
                (resume filling (left ++ more) sink)
                (rest last_active (reads filling left flowing sink)))
        → Resumes more
            (ConnectionPool.after_send bits slice channel
              (process_all bits slice channel remote_addr (left ++ more))
              result)
            (after_send bits slice channel remote_addr last_active
              (λ sink. rest last_active (reads filling left flowing sink))
              result)
    sent-resume last_active (closed, sink) next = inl refl
    sent-resume last_active (full, sink) next = next sink
    sent-resume last_active (sent, sink) next = next sink

    tlvs_read-resume :
        (header : Header) (last_active : ℕ) (d : Outcome IoError (List Tlv × B))
        → Returns d
        → ((sink : S)
            → Resumes more
                (resume filling (left ++ more) sink)
                (rest last_active (reads filling left flowing sink)))
        → Resumes more
            (tlvs_decoded bits slice channel remote_addr
              (process_all bits slice channel remote_addr)
              header
              (left ++ more)
              sink
              d)
            (d >>= λ (attributes, end).
              after_send bits slice channel remote_addr last_active
                (λ sink. rest last_active (reads filling left flowing sink))
                (try_send (record { header = header; attributes = attributes }, remote_addr) sink))
    tlvs_read-resume header last_active (ok (attributes, end)) h next =
        sent-resume last_active _ next
    tlvs_read-resume header last_active (err e) h next = inl refl
    tlvs_read-resume header last_active panic h next = absurd h
    tlvs_read-resume header last_active stuck h next = absurd h

  module _ (now : ℕ) where
    pub poll_process_ingress-resume :
        (fuel last_active : ℕ) (reading : Reading) (unread more : List ℕ) (sink : S)
        → length unread + stage reading < fuel
        → All IsByte unread
        → Resumes more (resume reading (unread ++ more) sink) (
            poll_process_ingress bits slice channel remote_addr now fuel last_active
              (record { reading = reading; unread = unread; stream_end = flowing; sink = sink }))
    unfolding poll_process_ingress
    poll_process_ingress-resume zero last_active reading unread more sink h typed =
        absurd (omega (arith, h))
    poll_process_ingress-resume (suc fuel) last_active filling (x ∷ unread) more sink h typed =
        poll_process_ingress-resume fuel last_active (in_header (now + io_timeout)) (x ∷ unread)
          more sink (omega (arith, h)) typed
    poll_process_ingress-resume (suc fuel) last_active filling [] more sink h typed =
        (refl, process_all-round bits slice channel remote_addr [] sink, refl, tt)
    poll_process_ingress-resume (suc fuel) last_active (in_header deadline) unread more sink h
          typed =
        elim (Option-cases (read_exact header_size unread)) [
          | inl short ↦
              let starved : process_all bits slice channel remote_addr unread sink
                  ≡ ok (unread, sink) =
                process_all-round bits slice channel remote_addr unread sink
                ∙ rw (round, short) refl in
              rw (Resumes, poll_process_ingress, short)
                (waits (in_header deadline) deadline now last_active unread more sink typed starved)
          | inr ((front, left), e) ↦
              let shorter = read_exact-left header_size unread front left e in
              let (front_typed, left_typed) = parts_typed header_size unread front left e typed in
              Resumes-eq more _
                (process_all-round bits slice channel remote_addr (unread ++ more) sink
                  ∙ round-whole bits slice channel remote_addr _ (unread ++ more) front
                      (left ++ more) sink (read_exact-more header_size unread front left more e))
                (rw (Resumes, poll_process_ingress, e)
                  (header_read-resume (poll_process_ingress bits slice channel remote_addr now fuel)
                    more left sink now last_active _
                    (map_err-Returns parse_failed _ (
                      decode_header-Returns bits buf (as_slice front)
                        (rw (sym (bytes-as_slice front)) at front_typed)))
                    (λ header.
                      poll_process_ingress-resume fuel last_active
                        (in_tlvs header (now + io_timeout)) left more sink
                        (omega (arith, shorter, h)) left_typed)))
        ]
    poll_process_ingress-resume (suc fuel) last_active (in_tlvs header deadline) unread more sink h
          typed =
        elim (Option-cases (read_exact header.length unread)) [
          | inl short ↦
              let starved : resume (in_tlvs header deadline) unread sink ≡ ok (unread, sink) =
                rw (tlvs_round, short) refl in
              rw (Resumes, poll_process_ingress, short)
                (waits (in_tlvs header deadline) deadline now last_active unread more sink typed
                  starved)
          | inr ((front, left), e) ↦
              let shorter = read_exact-left header.length unread front left e in
              let (front_typed, left_typed) = parts_typed header.length unread front left e typed in
              Resumes-eq more _
                (tlvs_round-whole bits slice channel remote_addr _ header (unread ++ more) front
                  (left ++ more) sink (read_exact-more header.length unread front left more e))
                (rw (Resumes, poll_process_ingress, e)
                  (tlvs_read-resume (poll_process_ingress bits slice channel remote_addr now fuel)
                    more left sink header now _
                    (map_err-Returns parse_failed _ (
                      decode_tlvs-Returns buf (as_slice front)
                        (rw (sym (bytes-as_slice front)) at front_typed)))
                    (λ s.
                      poll_process_ingress-resume fuel now filling left more s
                        (omega (arith, shorter, h)) left_typed)))
        ]
