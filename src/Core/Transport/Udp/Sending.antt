-- ===== src/Core/Transport/Udp/Sending.antt =====
-- What `Egress::poll` hands to the socket.
use mstun.Base.{
  ℕ, zero, suc, ◌+◌, ◌-◌, ◌≤◌, ◌<◌, ◌≡◌, refl, sym, ap, subst, ◌∙◌, arith, Bool, List, [], ◌∷◌,
  ◌++◌, length, length-append, take, append_assoc, append-nil, All, none, some, ltb, Bool-cases,
  inl, inr, ltb→lt, ltb→le, if◌then◌else◌, take_exactly, ok,
}
use mstun.Extern.BufMut.{SliceMut}
use mstun.Extern.Bitvec.{Bitvec}
use mstun.Core.Message.{Message}
use mstun.Core.Message.TlvCodec.Spelling.{all_bytes, length-Spells}
use mstun.Core.Message.TlvCodec.DecodeList.{all_bytes-Spells}
use mstun.Core.Attributes.SocketAddr.{SocketAddr}
use mstun.Core.Transport.{channel_closed}
use mstun.Core.Transport.Udp.{
  pending, failed, buffer_len, SendResult, Egress, World, accept, receive_arm, send_arm,
  egress_round, egress_loop, egress_poll,
}
use mstun.Core.Transport.Udp.Codec.{
  IsEncodable, message_bytes, message_size, encode_msg-message_bytes, encode_msg_no_room,
}

-- One datagram for each message that fits the buffer, in order; the others are dropped.
abbrev pub datagrams : List (Message × SocketAddr) → List (List ℕ × SocketAddr)
datagrams [] = []
datagrams ((m, dest_addr) ∷ messages) =
    let later = datagrams messages in
    if ltb buffer_len (message_size m) then later else (message_bytes m, dest_addr) ∷ later

pub length-message_bytes : (m : Message) → IsEncodable m → length (message_bytes m) ≡ message_size m
length-message_bytes m enc =
    let body = all_bytes m.attributes in
    omega (
      arith,
      length-append m.header.transaction_id body,
      enc.header_typed.id_length,
      length-Spells (all_bytes-Spells m.attributes enc.attributes_valid),
    )

module _ {A W : Type 0} (bits : Bitvec A) (slice : SliceMut W) where
  open slice use {buf_mut, as_mut_slice, written-as_mut_slice, remaining_mut-as_mut_slice}
  open buf_mut use {written, remaining_mut}

  accept-message_bytes :
      (m : Message) (dest_addr : SocketAddr) (e : Egress)
      → IsEncodable m
      → message_size m ≤ buffer_len
      → accept bits slice (m, dest_addr) e
        ≡ ok (record {
          buffer = message_bytes m;
          pos = message_size m;
          pending_recipient = some dest_addr;
        })
  unfolding accept
  accept-message_bytes m dest_addr e enc fits =
      let start = as_mut_slice buffer_len in
      let room = remaining_mut-as_mut_slice buffer_len in
      let (v, p, q, r) = encode_msg-message_bytes bits slice m start enc (omega (arith, room)) in
      let out : written v ≡ message_bytes m =
        q ∙ ap (λ s. s ++ message_bytes m) (written-as_mut_slice buffer_len) in
      let used : buffer_len - remaining_mut v ≡ message_size m = omega (arith, room) in
      rw (p, out, used) refl

  accept_too_large :
      (m : Message) (dest_addr : SocketAddr) (e : Egress)
      → IsEncodable m
      → buffer_len < message_size m
      → accept bits slice (m, dest_addr) e ≡ ok (record e { pos = 0 })
  unfolding accept
  accept_too_large m dest_addr e enc over =
      let (x, p) =
        encode_msg_no_room bits slice m (as_mut_slice buffer_len) enc
          (omega (arith, remaining_mut-as_mut_slice buffer_len)) in
      rw p refl

  -- The future between two messages.
  abbrev idle :
      List ℕ
      → ℕ
      → List (Message × SocketAddr)
      → Bool
      → List SendResult
      → List (List ℕ × SocketAddr)
      → World
  idle buffer pos source source_closed sends wire = record {
    egress = record { buffer = buffer; pos = pos; pending_recipient = none };
    source = source;
    source_closed = source_closed;
    sends = sends;
    wire = wire;
  }

  abbrev Sent : ℕ → World → List (Message × SocketAddr) → Type 0
  Sent fuel w source =
      (w' : World) × (egress_loop bits slice fuel w
        ≡ ok ((if w.source_closed then failed channel_closed else pending), w'))
      × (w'.wire ≡ w.wire ++ datagrams source)

  loop_skip :
      (m : Message) (d : SocketAddr) (source : List (Message × SocketAddr)) (fuel : ℕ)
      (buffer : List ℕ) (pos : ℕ) (c : Bool) (sends : List SendResult)
      (wire : List (List ℕ × SocketAddr))
      → IsEncodable m
      → buffer_len < message_size m
      → egress_loop bits slice (suc fuel) (idle buffer pos ((m, d) ∷ source) c sends wire)
        ≡ egress_loop bits slice fuel (idle buffer 0 source c sends wire)
  unfolding egress_loop egress_round receive_arm
  loop_skip m d source fuel buffer pos c sends wire enc over =
      let e : Egress = record { buffer = buffer; pos = pos; pending_recipient = none } in
      rw (egress_loop, egress_round, receive_arm, accept_too_large m d e enc over) refl

  loop_send :
      (m : Message) (d : SocketAddr) (source : List (Message × SocketAddr)) (fuel : ℕ)
      (buffer : List ℕ) (pos : ℕ) (c : Bool) (r : SendResult) (sends : List SendResult)
      (wire : List (List ℕ × SocketAddr))
      → IsEncodable m
      → message_size m ≤ buffer_len
      → egress_loop bits slice
          (suc (suc fuel))
          (idle buffer pos ((m, d) ∷ source) c (r ∷ sends) wire)
        ≡ egress_loop bits slice fuel
            (idle (message_bytes m) 0 source c sends (wire ++ (message_bytes m, d) ∷ []))
  unfolding egress_loop egress_round receive_arm send_arm
  loop_send m d source fuel buffer pos c r sends wire enc fits =
      let e : Egress = record { buffer = buffer; pos = pos; pending_recipient = none } in
      let whole : take (message_size m) (message_bytes m) ≡ message_bytes m =
        ap (take (message_size m)) (sym (append-nil (message_bytes m)))
        ∙ take_exactly (message_size m) (message_bytes m) [] (length-message_bytes m enc) in
      rw (egress_loop, egress_round, receive_arm, accept-message_bytes m d e enc fits, whole) refl

  egress_loop-datagrams :
      (source : List (Message × SocketAddr)) (fuel : ℕ) (buffer : List ℕ) (pos : ℕ) (c : Bool)
      (sends : List SendResult) (wire : List (List ℕ × SocketAddr))
      → All (λ p. IsEncodable p.0) source
      → length (datagrams source) ≤ length sends
      → length source + length sends < fuel
      → Sent fuel (idle buffer pos source c sends wire) source
  egress_loop-datagrams source zero buffer pos c sends wire enc en f = absurd (omega arith)
  egress_loop-datagrams [] (suc fuel) buffer pos c sends wire enc en f = (
    idle buffer pos [] c sends wire,
    unfold egress_loop egress_round receive_arm in refl,
    sym (append-nil wire),
  )
  egress_loop-datagrams ((m, d) ∷ source) (suc zero) buffer pos c sends wire enc en f =
      absurd (omega arith)
  egress_loop-datagrams ((m, d) ∷ source) (suc (suc fuel)) buffer pos c sends wire enc en f =
      elim (Bool-cases (ltb buffer_len (message_size m))) [
        | inl over ↦
            let (w', p, q) =
              egress_loop-datagrams source (suc fuel) buffer 0 c sends wire enc.1 (rw over at en)
                (omega arith) in
            (
              w',
              loop_skip m d source (suc fuel) buffer pos c sends wire enc.0 (ltb→lt _ _ over) ∙ p,
              q ∙ rw over refl,
            )
        | inr fits ↦
            let (r, rest, split) = first_of_some sends (rw fits at en) in
            let sends_eq : length sends ≡ suc (length rest) = ap length split in
            let (w', p, q) =
              egress_loop-datagrams source fuel (message_bytes m) 0 c rest
                (wire ++ (message_bytes m, d) ∷ []) enc.1 (drop_one (rw fits at en) sends_eq)
                (omega arith) in
            (
              w',
              ap
                    (λ l.
                      egress_loop bits slice (suc (suc fuel))
                        (idle buffer pos ((m, d) ∷ source) c l wire))
                    split
                  ∙ loop_send m d source fuel buffer pos c r rest wire enc.0 (ltb→le _ _ fits)
                  ∙ p,
              q ∙ append_assoc wire ((message_bytes m, d) ∷ []) (datagrams source) ∙ rw fits refl,
            )
      ]
    where
      first_of_some :
          (sends : List SendResult) {n : ℕ}
          → suc n ≤ length sends
          → (r : SendResult) × (rest : List SendResult) × (sends ≡ r ∷ rest)
      first_of_some [] h = absurd (omega arith)
      first_of_some (r ∷ rest) h = (r, rest, refl)

      drop_one : {n a b : ℕ} → suc n ≤ a → a ≡ suc b → n ≤ b
      drop_one h e = omega arith

  -- A poll between two messages, whose attributes can be encoded, while the socket has an answer
  -- for every datagram, be it an error or a partial write, and never has to be waited for: it
  -- hands the datagram of each message that fits 1500 bytes to the socket, in order and each to
  -- its recipient, whatever the answers are; messages that do not fit are dropped. Then it waits
  -- for more, or fails if the channel is closed.
  pub egress_poll-datagrams :
      (w : World)
      → w.egress.pending_recipient ≡ none
      → All (λ p. IsEncodable p.0) w.source
      → length (datagrams w.source) ≤ length w.sends
      → (w' : World) × (egress_poll bits slice w
          ≡ ok ((if w.source_closed then failed channel_closed else pending), w'))
        × (w'.wire ≡ w.wire ++ datagrams w.source)
  unfolding egress_poll
  egress_poll-datagrams w e enc en =
      let fuel : ℕ = length w.source + length w.sends + 1 in
      let polled : Sent fuel
          (idle w.egress.buffer w.egress.pos w.source w.source_closed w.sends w.wire) w.source =
        egress_loop-datagrams w.source fuel w.egress.buffer w.egress.pos w.source_closed w.sends
          w.wire enc en (omega arith) in
      subst
        (λ o. Sent fuel (record w { egress = record w.egress { pending_recipient = o } }) w.source)
        (sym e) polled
