-- ===== src/Client/Processor/Setup.antt =====
-- stunny-client/src/lib.rs: `setup_transactions`. The receivers of the channels are given by the
-- events of `run`.
use mstun.Base.{
  ℕ, ◌≤◌, ◌<◌, ◌≡◌, refl, List, [], none, Outcome, ok, panic, ◌>>=◌, expect, arith, leb, leb→le,
  leb→lt, Bool-cases, ◌⊎◌, inl, inr,
}
use mstun.Extern.Channel.{AsyncSender, Mpsc}
use mstun.Extern.Semaphore.{Semaphore, max_permits}
use mstun.Core.Message.{Message}
use mstun.Core.Attributes.SocketAddr.{SocketAddr}
use mstun.Client.{TransactionError}
use mstun.Client.Rto.{RtoPolicy}
use mstun.Client.Manager.{Request, Indication, Manager, new_manager, next_timeout}
use mstun.Client.Manager.Invariant.{GivesUp, Matched}
use mstun.Client.Processor.{Event, run}
use mstun.Client.Processor.Runs.{AllFit, Safe, run-Safe}

-- `RequestSender`: its channel and its slots.
pub record RequestSender (R N : Type 0) : Type 0 where
  pub sink : R
  pub request_slots : N

module _ {P S I R O N : Type 0} (policy : RtoPolicy P)
    (egress : AsyncSender S (Message × SocketAddr)) (indications : AsyncSender I Indication)
    (inbound_ind : Mpsc I Indication) (outbound_ind : Mpsc O Indication)
    (outbound_req : Mpsc R Request) (semaphore : Semaphore N) where
  open semaphore use {available, const_new, const_new_some, const_new_none}

  -- The channel of an `IndicationSender` stands for it.
  unfoldable pub setup_transactions :
      S → ℕ → P → Outcome TransactionError (RequestSender R N × O × Manager P S I)
  setup_transactions egress_sink max_outstanding_requests rto_policy = do
    inbound_ind_sink ← expect (inbound_ind.channel 1)
    outbound_ind_sink ← expect (outbound_ind.channel 1)
    outbound_req_sink ← expect (outbound_req.channel 1)
    request_slots ← expect (const_new max_outstanding_requests)
    let sender : RequestSender R N = record {
      sink = outbound_req_sink;
      request_slots = request_slots;
    }
    let manager : Manager P S I =
        new_manager policy egress indications rto_policy egress_sink inbound_ind_sink
    ok (sender, outbound_ind_sink, manager)

  module _ (Fine : P → Type 0) (limit : ℕ) (gives_up : GivesUp policy Fine limit) where
    nothing_waits : Matched [] []
    nothing_waits tid = (refl, omega arith)

    -- With as many slots as a semaphore can have at most, a client is set up without a panic: all
    -- slots of its sender are free, and no timeout is set. With a policy that gives up, and random
    -- ids that differ from those that wait, whatever happens then leaves the processor well formed
    -- or ends it because a channel is closed. With more slots, setting it up panics.
    pub setup_transactions-Safe :
        (egress_sink : S) (max_outstanding_requests : ℕ) (rto_policy : P) (events : List Event)
        → Fine rto_policy
        → ((sink : I)
            → AllFit policy egress indications Fine limit gives_up events
                (new_manager policy egress indications rto_policy egress_sink sink))
        → (max_outstanding_requests ≤ max_permits)
            × ((sender : RequestSender R N) × (ind : O) × (m : Manager P S I) × (setup_transactions
                    egress_sink max_outstanding_requests rto_policy
                  ≡ ok (sender, ind, m))
                × (available sender.request_slots ≡ max_outstanding_requests)
                × (next_timeout policy egress indications m ≡ none)
                × Safe policy egress indications Fine limit gives_up
                    (run policy egress indications events m))
          ⊎ (max_permits < max_outstanding_requests)
            × (setup_transactions egress_sink max_outstanding_requests rto_policy ≡ panic)
    unfolding setup_transactions new_manager next_timeout
    setup_transactions-Safe egress_sink max rto_policy events fine fit =
        let (i, e, _, _, _) = inbound_ind.channel-suc 0 in
        let (o, f, _, _, _) = outbound_ind.channel-suc 0 in
        let (r, g, _, _, _) = outbound_req.channel-suc 0 in
        let m : Manager P S I = new_manager policy egress indications rto_policy egress_sink i in
        elim (Bool-cases (leb max max_permits)) [
          | inl few ↦
              let (slots, k, free) = const_new_some max (leb→le _ _ few) in
              let sender : RequestSender R N = record { sink = r; request_slots = slots } in
              inl (
                leb→le _ _ few,
                (
                  sender,
                  o,
                  m,
                  rw (setup_transactions, e, f, g, k) refl,
                  free,
                  refl,
                  run-Safe policy egress indications Fine limit gives_up events m
                      (record { matched = nothing_waits; attempts = tt; fine = fine }) (fit i),
                ),
              )
          | inr many ↦
              let k : const_new max ≡ none = const_new_none max (leb→lt _ _ many) in
              inr (leb→lt _ _ many, rw (setup_transactions, e, f, g, k) refl)
        ]
