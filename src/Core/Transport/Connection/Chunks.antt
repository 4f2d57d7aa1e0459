-- ===== src/Core/Transport/Connection/Chunks.antt =====
-- `process_ingress` of stunny-core/src/transport/connection_pool.rs over a whole stream, a round at a
-- time, without the fuel.
use mstun.Base.{
  ℕ, zero, suc, ◌+◌, ◌<◌, ◌≡◌, refl, sym, ap, ◌∙◌, arith, false, ltb, ltb→le, if◌then◌else◌, List,
  ◌++◌, Option, none, some, Outcome, ok, err, panic, stuck, ◌>>=◌, map_err, length, length-take_le,
  length-append, take-append-drop, Bool-cases, Option-cases, inl, inr,
}
use mstun.Extern.Buf.{SliceBuf}
use mstun.Extern.Bitvec.{Bitvec}
use mstun.Extern.Channel.{Sender, TrySend, sent, full, closed}
use mstun.Core.Message.{Header, Tlv, Message, header_size}
use mstun.Core.Message.HeaderCodec.{decode_header}
use mstun.Core.Message.TlvCodec.{decode_tlvs}
use mstun.Core.Attributes.SocketAddr.{SocketAddr}
use mstun.Core.Transport.{IoError, parse_failed}
use mstun.Core.Transport.ConnectionPool
use mstun.Core.Transport.ConnectionPool.{buffer_len, read_exact, process_ingress}

-- What a whole `read_exact` took and left.
pub read_exact-parts :
    (n : ℕ) (unread front left : List ℕ)
    → read_exact n unread ≡ some (front, left)
    → (length front ≡ n) × (front ++ left ≡ unread)
read_exact-parts n unread front left e = elim (Bool-cases (ltb (length unread) n)) [
  | inl short ↦ absurd (never (rw short at e))
  | inr long ↦
      let same = rw long at e in
      (
        sym (ap length (first same)) ∙ length-take_le n unread (ltb→le (length unread) n long),
        rw (sym (first same), sym (second same)) (take-append-drop n unread),
      )
]
  where
    never : {X : Type 0} {x : X} → none ≡ some x → ⊥
    never p = cc

    first :
        {a b c d : List ℕ} → ◌≡◌ {A = Option (List ℕ × List ℕ)} (some (a, b)) (some (c, d)) → a ≡ c
    first p = cc

    second :
        {a b c d : List ℕ} → ◌≡◌ {A = Option (List ℕ × List ℕ)} (some (a, b)) (some (c, d)) → b ≡ d
    second p = cc

pub read_exact-left :
    (n : ℕ) (stream front left : List ℕ)
    → read_exact n stream ≡ some (front, left)
    → length left + n ≡ length stream
read_exact-left n stream front left e =
    let (size, parts) = read_exact-parts n stream front left e in
    omega (arith, size, ap length parts, length-append front left)

module _ {A B S : Type 0} (bits : Bitvec A) (slice : SliceBuf B)
    (channel : Sender S (Message × SocketAddr)) (remote_addr : SocketAddr) where
  open slice use {buf, as_slice}
  open channel use {try_send}

  abbrev pub Result : Type 0
  Result = Outcome IoError (List ℕ × S)

  -- Behind the second read of a round, whose attributes are decoded to `d`, with what follows.
  abbrev pub tlvs_decoded :
      (List ℕ → S → Result) → Header → List ℕ → S → Outcome IoError (List Tlv × B) → Result
  tlvs_decoded k header left sink d = do
    (attributes, end) ← d
    ConnectionPool.after_send bits slice channel (k left)
        (try_send (record { header = header; attributes = attributes }, remote_addr) sink)

  abbrev pub tlvs_round : (List ℕ → S → Result) → Header → List ℕ → S → Result
  tlvs_round k header stream sink = elim (read_exact header.length stream) [
    | none ↦ ok (stream, sink)
    | some (tlvs_buffer, left) ↦
        tlvs_decoded k header left sink
          (map_err parse_failed (decode_tlvs buf (as_slice tlvs_buffer)))
  ]

  -- Behind the first read of a round, whose header is decoded to `d`, and the whole round.
  abbrev pub header_decoded :
      (List ℕ → S → Result) → List ℕ → S → Outcome IoError (Header × B) → Result
  header_decoded k left sink d = do
    (header, end) ← d
    if ltb buffer_len header.length then panic else tlvs_round k header left sink

  abbrev pub round : (List ℕ → S → Result) → List ℕ → S → Result
  round k stream sink = elim (read_exact header_size stream) [
    | none ↦ ok (stream, sink)
    | some (header_buffer, left) ↦
        header_decoded k left sink
          (map_err parse_failed (decode_header bits buf (as_slice header_buffer)))
  ]

  pub tlvs_round-whole :
      (k : List ℕ → S → Result) (header : Header) (stream front left : List ℕ) (sink : S)
      → read_exact header.length stream ≡ some (front, left)
      → tlvs_round k header stream sink
        ≡ tlvs_decoded k header left sink (map_err parse_failed (decode_tlvs buf (as_slice front)))
  tlvs_round-whole k header stream front left sink e = rw (tlvs_round, e) refl

  pub round-whole :
      (k : List ℕ → S → Result) (stream front left : List ℕ) (sink : S)
      → read_exact header_size stream ≡ some (front, left)
      → round k stream sink
        ≡ header_decoded k left sink
            (map_err parse_failed (decode_header bits buf (as_slice front)))
  round-whole k stream front left sink e = rw (round, e) refl

  process_ingress-round :
      (fuel : ℕ) (stream : List ℕ) (sink : S)
      → process_ingress bits slice channel (suc fuel) remote_addr false stream sink
        ≡ round (process_ingress bits slice channel fuel remote_addr false) stream sink
  unfolding process_ingress
  process_ingress-round fuel stream sink = refl

  -- What follows is used on shorter streams only.
  AgreeBelow : (k k' : List ℕ → S → Result) → ℕ → Type 0
  AgreeBelow k k' n = (left : List ℕ) (s : S) → length left < n → k left s ≡ k' left s

  tlvs_round-cong :
      (k k' : List ℕ → S → Result) (header : Header) (stream : List ℕ) (sink : S)
      → AgreeBelow k k' (suc (length stream))
      → tlvs_round k header stream sink ≡ tlvs_round k' header stream sink
  unfolding AgreeBelow
  tlvs_round-cong k k' header stream sink agree =
      elim (Option-cases (read_exact header.length stream)) [
        | inl short ↦ rw (tlvs_round, short) refl
        | inr ((front, left), e) ↦
            let shorter : length left < suc (length stream) =
              omega (arith, read_exact-left header.length stream front left e) in
            rw (tlvs_round, e)
              (decoded left shorter (map_err parse_failed (decode_tlvs buf (as_slice front))))
      ]
    where
      sends :
          (left : List ℕ) (result : TrySend × S)
          → length left < suc (length stream)
          → ConnectionPool.after_send bits slice channel (k left) result
            ≡ ConnectionPool.after_send bits slice channel (k' left) result
      sends left (closed, s) h = refl
      sends left (full, s) h = agree left s h
      sends left (sent, s) h = agree left s h

      decoded :
          (left : List ℕ)
          → length left < suc (length stream)
          → (d : Outcome IoError (List Tlv × B))
          → tlvs_decoded k header left sink d ≡ tlvs_decoded k' header left sink d
      decoded left h (ok (attributes, end)) = sends left _ h
      decoded left h (err e) = refl
      decoded left h panic = refl
      decoded left h stuck = refl

  round-cong :
      (k k' : List ℕ → S → Result) (stream : List ℕ) (sink : S)
      → AgreeBelow k k' (length stream)
      → round k stream sink ≡ round k' stream sink
  unfolding AgreeBelow
  round-cong k k' stream sink agree = elim (Option-cases (read_exact header_size stream)) [
    | inl short ↦ rw (round, short) refl
    | inr ((front, left), e) ↦
        let shorter : length left < length stream =
          omega (arith, read_exact-left header_size stream front left e) in
        rw (round, e)
          (decoded left shorter (map_err parse_failed (decode_header bits buf (as_slice front))))
  ]
    where
      decoded :
          (left : List ℕ)
          → length left < length stream
          → (d : Outcome IoError (Header × B))
          → header_decoded k left sink d ≡ header_decoded k' left sink d
      decoded left h (ok (header, end)) =
          ap (λ (r : Result). if ltb buffer_len header.length then panic else r)
            (tlvs_round-cong k k' header left sink (λ l s g. agree l s (omega (arith, g, h))))
      decoded left h (err e) = refl
      decoded left h panic = refl
      decoded left h stuck = refl

  fuel_irrelevant :
      (f g : ℕ) (stream : List ℕ) (sink : S)
      → length stream < f
      → length stream < g
      → process_ingress bits slice channel f remote_addr false stream sink
        ≡ process_ingress bits slice channel g remote_addr false stream sink
  unfolding AgreeBelow
  fuel_irrelevant zero g stream sink p q = absurd (omega arith)
  fuel_irrelevant (suc f) zero stream sink p q = absurd (omega arith)
  fuel_irrelevant (suc f) (suc g) stream sink p q =
      process_ingress-round f stream sink
      ∙ round-cong _ _ stream sink (λ left s shorter.
        fuel_irrelevant f g left s (omega (arith, shorter, p)) (omega (arith, shorter, q)))
      ∙ sym (process_ingress-round g stream sink)

  -- The stream read with fuel that is enough.
  unfoldable pub process_all : List ℕ → S → Result
  process_all stream sink =
      process_ingress bits slice channel (suc (length stream)) remote_addr false stream sink

  pub process_all-round :
      (stream : List ℕ) (sink : S) → process_all stream sink ≡ round process_all stream sink
  unfolding process_all AgreeBelow
  process_all-round stream sink =
      process_ingress-round (length stream) stream sink
      ∙ round-cong _ _ stream sink (λ left s shorter.
        fuel_irrelevant (length stream) (suc (length left)) left s shorter (omega arith))

  pub process_ingress-process_all :
      (fuel : ℕ) (stream : List ℕ) (sink : S)
      → length stream < fuel
      → process_ingress bits slice channel fuel remote_addr false stream sink
        ≡ process_all stream sink
  unfolding process_all
  process_ingress-process_all fuel stream sink h =
      fuel_irrelevant fuel (suc (length stream)) stream sink h (omega arith)
