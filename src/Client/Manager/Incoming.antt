-- ===== src/Client/Manager/Incoming.antt =====
-- What an incoming message does to the manager.
use mstun.Base.{
  ℕ, ◌+◌, ◌≤◌, ◌≡◌, refl, ap, arith, not, Option, none, some, List, [], ◌∷◌, ◌++◌, ◌==◌, Bool-cases,
  ◌⊎◌, inl, inr, ok,
}
use mstun.Base.Bytes.{bytes_eq}
use mstun.Base.Tally.{bit, filter, total, total-append, All-filter}
use mstun.Extern.Channel.{AsyncSender}
use mstun.Core.Message.{Message, Class, response, error}
use mstun.Core.Message.Xor.{xor_socket_addr}
use mstun.Core.Attributes.SocketAddr.{SocketAddr}
use mstun.Client.Rto.{RtoPolicy}
use mstun.Client.Manager.{
  Request, Indication, Requests, Manager, Answer, lookup, remove, complete, deliver, dispatch,
  handle_incoming_message, result_of, measure_rtt, xor_mapped_address_id,
}
use mstun.Client.Manager.Tables.{has_key, has_tid, total-remove, removed-absent}
use mstun.Client.Manager.Invariant.{GivesUp, WellFormed, sinks, completed}

module _ {P S I : Type 0} (policy : RtoPolicy P) (egress : AsyncSender S (Message × SocketAddr))
    (indications : AsyncSender I Indication) (Fine : P → Type 0) (limit : ℕ)
    (gives_up : GivesUp policy Fine limit) where
  -- The state is well formed, and every sender is used or waits as often as before.
  abbrev Kept : Manager P S I → Manager P S I → Type 0
  Kept m m' = WellFormed Fine limit m' × ((o : ℕ) → sinks o m' ≡ sinks o m)

  sinks_answered :
      (answers : List (ℕ × Answer)) (a : ℕ × Answer) (tid : List ℕ) (entries : Requests)
      (r : Request) (o : ℕ)
      → lookup tid entries ≡ some r
      → total (λ e. bit (bytes_eq e.0 tid)) entries ≤ 1
      → a.0 ≡ r.response_sink
      → total (λ a. bit (a.0 == o)) (answers ++ a ∷ [])
          + total (λ e. bit (e.1.response_sink == o)) (remove tid entries)
        ≡ total (λ a. bit (a.0 == o)) answers + total (λ e. bit (e.1.response_sink == o)) entries
  sinks_answered answers a tid entries r o found unique same = omega (
    arith,
    total-append (λ a. bit (a.0 == o)) answers (a ∷ []),
    total-remove (λ r. bit (r.response_sink == o)) tid entries r found unique,
    ap (λ (s : ℕ). bit (s == o)) same,
  )

  complete-Kept :
      (measured now : ℕ) (message : Message) (source_addr : SocketAddr) (m : Manager P S I)
      (found : Option Request)
      → lookup message.header.transaction_id m.outstanding_requests ≡ found
      → WellFormed Fine limit m
      → Kept m (complete policy egress indications measured now message source_addr found m)
  unfolding complete measure_rtt
  complete-Kept measured now message source_addr m none e h = (h, λ o. refl)
  complete-Kept measured now message source_addr m (some r) e h =
      let tid = message.header.transaction_id in
      (
        record {
          matched = completed m.pending_timeouts m.outstanding_requests tid h.matched;
          attempts =
              All-filter (λ entry. entry.1.attempts_made ≤ limit)
                (λ entry. not (bytes_eq entry.0 tid)) m.outstanding_requests h.attempts;
          fine = measured_fine;
        },
        λ o.
            sinks_answered m.answers
              (r.response_sink, result_of policy egress indications now r message) tid
              m.outstanding_requests r o e (omega (arith, h.matched tid)) refl,
      )
    where
      measured_fine :
          Fine (measure_rtt policy egress indications source_addr measured r m.rto_policy)
      measured_fine = elim (Bool-cases (r.attempts_made == 1)) [
        | inl first ↦ rw first (gives_up.keeps_fine source_addr _ m.rto_policy h.fine)
        | inr more ↦ rw more h.fine
      ]

  dispatch-Kept :
      (measured now : ℕ) (class : Class) (message : Message) (source_addr : SocketAddr)
      (m : Manager P S I)
      → WellFormed Fine limit m
      → Kept m (dispatch policy egress indications measured now class message source_addr m)
  unfolding dispatch
  dispatch-Kept measured now Class.request message source_addr m h = (h, λ o. refl)
  dispatch-Kept measured now Class.response message source_addr m h =
      complete-Kept measured now message source_addr m _ refl h
  dispatch-Kept measured now Class.error message source_addr m h =
      complete-Kept measured now message source_addr m _ refl h
  dispatch-Kept measured now Class.indication message source_addr m h =
      delivered (indications.send _ m.incoming_indications_sink)
    where
      delivered : (sent : Option I) → Kept m (deliver policy egress indications sent m)
      delivered none = (h, λ o. refl)
      delivered (some sink) =
          (record { matched = h.matched; attempts = h.attempts; fine = h.fine }, λ o. refl)

  -- Any incoming message is handled without a panic or an error; the timeouts still match the
  -- outstanding requests, and each sender has been used or waits as often as before.
  pub handle_incoming_message-WellFormed :
      (measured now : ℕ) (message : Message) (source_addr : SocketAddr) (m : Manager P S I)
      → WellFormed Fine limit m
      → (m' : Manager P S I) × (handle_incoming_message policy egress indications measured now
            (message, source_addr)
            m
          ≡ ok m')
        × WellFormed Fine limit m'
        × ((o : ℕ) → sinks o m' ≡ sinks o m)
  unfolding handle_incoming_message
  handle_incoming_message-WellFormed measured now message source_addr m h =
      let message' = xor_socket_addr xor_mapped_address_id message in
      let kept = dispatch-Kept measured now message'.header.class message' source_addr m h in
      (
        dispatch policy egress indications measured now message'.header.class message' source_addr
            m,
        refl,
        kept.0,
        kept.1,
      )

  -- Of a response or an error to an outstanding request, whose attributes are unmasked, the
  -- request's sender is told at once, and neither the request nor a timeout of its id is left.
  pub handle_incoming_message-answers :
      (measured now : ℕ) (message : Message) (source_addr : SocketAddr) (m : Manager P S I)
      (r : Request)
      → (message.header.class ≡ response) ⊎ (message.header.class ≡ error)
      → lookup message.header.transaction_id m.outstanding_requests ≡ some r
      → (m' : Manager P S I) × (handle_incoming_message policy egress indications measured now
            (message, source_addr)
            m
          ≡ ok m')
        × (m'.answers
            ≡ m.answers
              ++ (
                r.response_sink,
                result_of policy egress indications now r
                    (xor_socket_addr xor_mapped_address_id message),
              )
                ∷ [])
        × (total (has_key message.header.transaction_id) m'.outstanding_requests ≡ 0)
        × (total (has_tid message.header.transaction_id) m'.pending_timeouts ≡ 0)
  unfolding handle_incoming_message dispatch complete xor_socket_addr
  handle_incoming_message-answers measured now message source_addr m r c e =
      (done, elim c [ inl p ↦ rw (p, e) refl | inr p ↦ rw (p, e) refl ], refl, gone.0, gone.1)
    where
      tid : List ℕ
      tid = message.header.transaction_id

      done : Manager P S I
      done =
          complete policy egress indications measured now
            (xor_socket_addr xor_mapped_address_id message) source_addr (some r) m

      gone :
          (total (has_key tid) (remove tid m.outstanding_requests) ≡ 0)
          × (total (has_tid tid) (filter (λ pt. not (bytes_eq pt.tid tid)) m.pending_timeouts) ≡ 0)
      gone = (
        removed-absent (λ e. e.0) tid m.outstanding_requests,
        removed-absent (λ p. p.tid) tid m.pending_timeouts,
      )

  -- A response or an error whose id no request has changes nothing.
  pub handle_incoming_message-orphan :
      (measured now : ℕ) (message : Message) (source_addr : SocketAddr) (m : Manager P S I)
      → (message.header.class ≡ response) ⊎ (message.header.class ≡ error)
      → lookup message.header.transaction_id m.outstanding_requests ≡ none
      → handle_incoming_message policy egress indications measured now (message, source_addr) m
        ≡ ok m
  unfolding handle_incoming_message dispatch complete xor_socket_addr
  handle_incoming_message-orphan measured now message source_addr m c e = elim c [
    | inl p ↦ rw (p, e) refl
    | inr p ↦ rw (p, e) refl
  ]
