-- ===== src/Core/Transport/Udp/Receiving.antt =====
-- What `Ingress::poll` puts into its channel.
use mstun.Base.{
  ℕ, zero, suc, ◌≡◌, refl, sym, ap, ◌∙◌, ◌⊎◌, subst, true, false, List, [], ◌∷◌, ◌++◌, take,
  append_assoc, append-nil, All, Outcome, ok, err, Returns-cases, inl, inr,
}
use mstun.Base.Words.{IsByte}
use mstun.Extern.Buf.{SliceBuf}
use mstun.Extern.Bitvec.{Bitvec}
use mstun.Extern.Channel.{Sender}
use mstun.Core.Message.{Message, ParseError}
use mstun.Core.Attributes.SocketAddr.{SocketAddr}
use mstun.Core.Transport.{socket_failed, channel_closed}
use mstun.Core.Transport.Udp.{
  Poll, pending, failed, Received, receive_error, datagram, decode_msg, ingress_poll,
}
use mstun.Core.Transport.Udp.Codec.{decode_msg-Returns}

-- What the socket fills in are bytes.
abbrev pub AreBytes : Received → Type 0
AreBytes receive_error = Unit {0}
AreBytes (datagram filled src_addr) = All IsByte filled

-- How a poll over these events ends, while the channel stays open.
abbrev pub ending : List Received → Poll
ending [] = pending
ending (receive_error ∷ events) = failed socket_failed
ending (datagram filled src_addr ∷ events) = ending events

module _ {A B S : Type 0} (bits : Bitvec A) (slice : SliceBuf B)
    (channel : Sender S (Message × SocketAddr)) where
  open slice use {as_slice, bytes-as_slice}
  open channel use {
    queued, room, is_closed, try_send, try_send_closed, try_send_full, try_send_sent,
  }

  abbrev pub add_decoded :
      SocketAddr
      → Outcome ParseError Message
      → List (Message × SocketAddr)
      → List (Message × SocketAddr)
  add_decoded src_addr (ok message) later = (message, src_addr) ∷ later
  add_decoded src_addr _ later = later

  -- The messages of the datagrams up to an error of the socket, those that do not decode left out.
  abbrev pub decoded : List Received → List (Message × SocketAddr)
  decoded [] = []
  decoded (receive_error ∷ events) = []
  decoded (datagram filled src_addr ∷ events) =
      add_decoded src_addr (decode_msg bits slice (as_slice filled)) (decoded events)

  decodes :
      (filled : List ℕ)
      → All IsByte filled
      → ((m : Message) × (decode_msg bits slice (as_slice filled) ≡ ok m))
        ⊎ ((x : ParseError) × (decode_msg bits slice (as_slice filled) ≡ err x))
  decodes filled hb = Returns-cases (decode_msg bits slice (as_slice filled)) (
      decode_msg-Returns bits slice (as_slice filled)
        (subst (All IsByte) (sym (bytes-as_slice filled)) hb))

  -- While the receiver lives, a poll reads all datagrams up to an error of the socket, and queues
  -- the messages that decode in the order in which they came, the first ones that there is room
  -- for; datagrams that do not decode, and messages beyond the room, are dropped and end nothing.
  pub ingress_poll-decoded :
      (events : List Received) (s : S) (n : ℕ)
      → All AreBytes events
      → is_closed s ≡ false
      → room s ≡ n
      → (t : S) × (ingress_poll bits slice channel events s ≡ ok (ending events, t))
        × (queued t ≡ queued s ++ take n (decoded events))
  unfolding ingress_poll
  ingress_poll-decoded [] s zero hb open_s e = (s, refl, sym (append-nil (queued s)))
  ingress_poll-decoded [] s (suc n) hb open_s e = (s, refl, sym (append-nil (queued s)))
  ingress_poll-decoded (receive_error ∷ events) s zero hb open_s e =
      (s, refl, sym (append-nil (queued s)))
  ingress_poll-decoded (receive_error ∷ events) s (suc n) hb open_s e =
      (s, refl, sym (append-nil (queued s)))
  ingress_poll-decoded (datagram filled src_addr ∷ events) s zero hb open_s e =
      elim (decodes filled hb.0) [
        | inr (x, bad) ↦ rw bad (ingress_poll-decoded events s zero hb.1 open_s e)
        | inl (m, good) ↦
            let (t, p, q) = ingress_poll-decoded events s zero hb.1 open_s e in
            (t, rw (good, try_send_full (m, src_addr) s open_s e) p, q)
      ]
  ingress_poll-decoded (datagram filled src_addr ∷ events) s (suc n) hb open_s e =
      elim (decodes filled hb.0) [
        | inr (x, bad) ↦ rw bad (ingress_poll-decoded events s (suc n) hb.1 open_s e)
        | inl (m, good) ↦
            let (u, p, q, r, open_u) = try_send_sent (m, src_addr) s n open_s e in
            let (t, p', q') = ingress_poll-decoded events u n hb.1 open_u r in
            let later = take n (decoded events) in
            (
              t,
              rw (good, p) p',
              q'
                  ∙ ap (λ l. l ++ later) q
                  ∙ append_assoc (queued s) ((m, src_addr) ∷ []) later
                  ∙ rw good refl,
            )
      ]

  -- Once the receiver is gone, the first message that decodes ends the driver.
  pub ingress_poll_closed :
      (filled : List ℕ) (src_addr : SocketAddr) (events : List Received) (s : S) (m : Message)
      → is_closed s ≡ true
      → decode_msg bits slice (as_slice filled) ≡ ok m
      → ingress_poll bits slice channel (datagram filled src_addr ∷ events) s
        ≡ ok (failed channel_closed, s)
  unfolding ingress_poll
  ingress_poll_closed filled src_addr events s m gone good =
      rw (good, try_send_closed (m, src_addr) s gone) refl
