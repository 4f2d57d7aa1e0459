-- ===== src/Client/Manager/Outgoing.antt =====
-- What a request of the application does to the manager.
use mstun.Base.{ℕ, ◌+◌, ◌≡◌, refl, ◌∙◌, arith, none, some, List, [], ◌∷◌, ◌++◌, ◌==◌, ok, err}
use mstun.Base.Bytes.{bytes_eq, bytes_eq_refl}
use mstun.Base.Tally.{bit, total, total-filter_absent, All-filter}
use mstun.Extern.Channel.{AsyncSender}
use mstun.Core.Message.{Message, new_request}
use mstun.Core.Message.Xor.{xor_socket_addr}
use mstun.Core.Attributes.SocketAddr.{SocketAddr}
use mstun.Client.{channel_closed}
use mstun.Client.Rto.{RtoPolicy}
use mstun.Client.Manager.{
  Request, Indication, Manager, lookup, remove, register, unwrap_or, default_rto,
  handle_outgoing_request, xor_mapped_address_id,
}
use mstun.Client.Manager.Tables.{has_key, has_tid}
use mstun.Client.Manager.Invariant.{GivesUp, WellFormed, sinks, entered, untouched}

-- The message that is sent for a request.
abbrev pub request_message : List ℕ → Request → Message
request_message tid r =
    xor_socket_addr xor_mapped_address_id (new_request r.method tid r.attributes)

module _ {P S I : Type 0} (policy : RtoPolicy P) (egress : AsyncSender S (Message × SocketAddr))
    (indications : AsyncSender I Indication) (Fine : P → Type 0) (limit : ℕ)
    (gives_up : GivesUp policy Fine limit) where
  open egress use {queued, send, queued-send}

  -- A request under a fresh id is sent once, to its address. Its sender waits, and a timeout is set;
  -- the state stays well formed.
  pub handle_outgoing_request-WellFormed :
      (tid : List ℕ) (now : ℕ) (r : Request) (m : Manager P S I) (s : S)
      → WellFormed Fine limit m
      → total (has_tid tid) m.pending_timeouts ≡ 0
      → send (request_message tid r, r.destination_addr) m.egress_sink ≡ some s
      → (m' : Manager P S I) × (handle_outgoing_request policy egress indications tid now r m
          ≡ ok m')
        × WellFormed Fine limit m'
        × (queued m'.egress_sink
            ≡ queued m.egress_sink ++ (request_message tid r, r.destination_addr) ∷ [])
        × ((o : ℕ) → sinks o m' ≡ sinks o m + bit (r.response_sink == o))
        × (total (has_key tid) m'.outstanding_requests ≡ 1)
  unfolding handle_outgoing_request register
  handle_outgoing_request-WellFormed tid now r m s h fresh sent =
      let (next, p, calculated, fine, _) =
        gives_up.answers r.destination_addr 0 m.rto_policy h.fine (omega arith) in
      let kept = untouched m.pending_timeouts m.outstanding_requests tid h.matched fresh in
      let r' : Request = record r {
        attributes = (request_message tid r).attributes;
        attempts_made = 1;
        start_time = now;
      } in
      let at_ : ℕ = now + unwrap_or default_rto next in
      let new_matched = entered m.pending_timeouts m.outstanding_requests tid at_ r' kept fresh in
      let m' : Manager P S I = record m {
        egress_sink = s;
        rto_policy = p;
        pending_timeouts = record { timeout_at = at_; tid = tid } ∷ m.pending_timeouts;
        outstanding_requests = (tid, r') ∷ remove tid m.outstanding_requests;
      } in
      (
        m',
        rw (handle_outgoing_request, sent, register, calculated) refl,
        record {
          matched = new_matched;
          attempts = (gives_up.at_least_one, All-filter _ _ m.outstanding_requests h.attempts);
          fine = fine;
        },
        queued-send _ m.egress_sink s sent,
        λ o. omega (
          arith,
          total-filter_absent (λ e. bit (e.1.response_sink == o)) (λ e. bytes_eq e.0 tid)
              m.outstanding_requests ((h.matched tid).0 ∙ fresh),
        ),
        (new_matched tid).0 ∙ rw (bytes_eq_refl tid, fresh) refl,
      )

  -- What a response finds of the request, and the manager's answers so far.
  pub handle_outgoing_request-registered :
      (tid : List ℕ) (now : ℕ) (r : Request) (m : Manager P S I) (s : S)
      → WellFormed Fine limit m
      → send (request_message tid r, r.destination_addr) m.egress_sink ≡ some s
      → (m' : Manager P S I) × (r' : Request) × (handle_outgoing_request policy egress indications
            tid now r m
          ≡ ok m')
        × (lookup tid m'.outstanding_requests ≡ some r')
        × (r'.method ≡ r.method)
        × (r'.response_sink ≡ r.response_sink)
        × (m'.answers ≡ m.answers)
  unfolding handle_outgoing_request register
  handle_outgoing_request-registered tid now r m s h sent =
      let (next, p, calculated, fine, _) =
        gives_up.answers r.destination_addr 0 m.rto_policy h.fine (omega arith) in
      let r' : Request = record r {
        attributes = (request_message tid r).attributes;
        attempts_made = 1;
        start_time = now;
      } in
      let at_ : ℕ = now + unwrap_or default_rto next in
      let m' : Manager P S I = record m {
        egress_sink = s;
        rto_policy = p;
        pending_timeouts = record { timeout_at = at_; tid = tid } ∷ m.pending_timeouts;
        outstanding_requests = (tid, r') ∷ remove tid m.outstanding_requests;
      } in
      (
        m',
        r',
        rw (handle_outgoing_request, sent, register, calculated) refl,
        rw (bytes_eq_refl tid) refl,
        refl,
        refl,
        refl,
      )

  -- If the transport is gone, the request's sender is told so, and nothing is kept of the request.
  pub handle_outgoing_request-closed :
      (tid : List ℕ) (now : ℕ) (r : Request) (m : Manager P S I)
      → send (request_message tid r, r.destination_addr) m.egress_sink ≡ none
      → handle_outgoing_request policy egress indications tid now r m
        ≡ err (
          channel_closed,
          record m { answers = m.answers ++ (r.response_sink, err channel_closed) ∷ [] },
        )
  unfolding handle_outgoing_request
  handle_outgoing_request-closed tid now r m closed = rw (handle_outgoing_request, closed) refl
