-- ===== src/Client/Processor/Runs.antt =====
-- The manager's invariant along a run of the processor.
use mstun.Base.{
  ℕ, ◌<◌, ◌≡◌, refl, List, [], ◌∷◌, Option, none, some, Outcome, ok, err, panic, stuck, ◌>>=◌,
}
use mstun.Base.Tally.{total}
use mstun.Extern.Channel.{AsyncSender}
use mstun.Core.Message.{Message}
use mstun.Core.Attributes.SocketAddr.{SocketAddr}
use mstun.Client.{TransactionError, channel_closed}
use mstun.Client.Rto.{RtoPolicy}
use mstun.Client.Manager.{
  Indication, Manager, next_timeout, handle_outgoing_indication, handle_outgoing_request, send_then,
}
use mstun.Client.Manager.Tables.{has_tid}
use mstun.Client.Manager.Invariant.{GivesUp, WellFormed}
use mstun.Client.Manager.Incoming.{handle_incoming_message-WellFormed}
use mstun.Client.Manager.Outgoing.{
  request_message, handle_outgoing_request-WellFormed, handle_outgoing_request-closed,
}
use mstun.Client.Manager.Rounds.{remaining_timeouts}
use mstun.Client.Manager.Timeouts.{Finished, handle_timeouts-fuel}
use mstun.Client.Processor.{
  Event, inbound, outbound_request, outbound_indication, timeouts, round, run,
}

module _ {P S I : Type 0} (policy : RtoPolicy P) (egress : AsyncSender S (Message × SocketAddr))
    (indications : AsyncSender I Indication) (Fine : P → Type 0) (limit : ℕ)
    (gives_up : GivesUp policy Fine limit) where
  abbrev State : Type 0
  State = Manager P S I

  abbrev Handled : Type 0
  Handled = Outcome (TransactionError × State) State

  -- What a run may come to: a well-formed state, or the end because a channel is closed.
  abbrev pub Safe : Handled → Type 0
  Safe (ok m) = WellFormed Fine limit m
  Safe (err (e, m)) = e ≡ channel_closed
  Safe panic = ⊥
  Safe stuck = ⊥

  -- A random id is not that of a request that waits, and the fuel is enough.
  abbrev pub Fits : Event → State → Type 0
  Fits (inbound measured now msg) m = Unit {0}
  Fits (outbound_request tid now r) m = total (has_tid tid) m.pending_timeouts ≡ 0
  Fits (outbound_indication tid i) m = Unit {0}
  Fits (timeouts fuel clock) m =
      remaining_timeouts policy egress indications Fine limit gives_up m < fuel

  -- Each event fits the state in which it comes.
  abbrev pub AllFit : List Event → State → Type 0
  AllFit [] m = Unit {0}
  AllFit (event ∷ events) m =
      Fits event m
      × ((m' : State) → round policy egress indications event m ≡ ok m' → AllFit events m')

  Finished-Safe :
      (m : State) (clock : ℕ → ℕ) (h : Handled)
      → Finished policy egress indications Fine limit gives_up m clock h
      → Safe h
  Finished-Safe m clock (ok m') f = f.0
  Finished-Safe m clock (err (e, m')) f = f.0
  Finished-Safe m clock panic f = f
  Finished-Safe m clock stuck f = f

  indication-Safe :
      (tid : List ℕ) (i : Indication) (m : State)
      → WellFormed Fine limit m
      → Safe (handle_outgoing_indication policy egress indications tid i m)
  unfolding handle_outgoing_indication
  indication-Safe tid i m h = sent_Safe (egress.send _ m.egress_sink)
    where
      sent_Safe :
          (sent : Option S)
          → Safe (send_then policy egress indications sent (λ s. record m { egress_sink = s }) m)
      sent_Safe none = refl
      sent_Safe (some s) = record { matched = h.matched; attempts = h.attempts; fine = h.fine }

  round-Safe :
      (event : Event) (m : State)
      → WellFormed Fine limit m
      → Fits event m
      → Safe (round policy egress indications event m)
  unfolding round
  round-Safe (inbound measured now none) m h f = refl
  round-Safe (inbound measured now (some (message, source_addr))) m h f =
      let (m', e, w, _) =
        handle_incoming_message-WellFormed policy egress indications Fine limit gives_up measured
          now message source_addr m h in
      rw e w
  round-Safe (outbound_request tid now r) m h f =
      by_sending (egress.send (request_message tid r, r.destination_addr) m.egress_sink) refl
    where
      by_sending :
          (sent : Option S)
          → egress.send (request_message tid r, r.destination_addr) m.egress_sink ≡ sent
          → Safe (handle_outgoing_request policy egress indications tid now r m)
      by_sending none e =
          rw
            (handle_outgoing_request-closed policy egress indications Fine limit gives_up tid now r
              m e)
            refl
      by_sending (some s) e =
          let (m', p, w, _, _, _) =
            handle_outgoing_request-WellFormed policy egress indications Fine limit gives_up tid now
              r m s h f e in
          rw p w
  round-Safe (outbound_indication tid i) m h f = indication-Safe tid i m h
  round-Safe (timeouts fuel clock) m h f =
      by_deadline (next_timeout policy egress indications m) refl
    where
      by_deadline :
          (deadline : Option ℕ)
          → next_timeout policy egress indications m ≡ deadline
          → Safe (round policy egress indications (timeouts fuel clock) m)
      by_deadline none e = rw (round, e) h
      by_deadline (some deadline) e =
          rw (round, e)
            (Finished-Safe m clock _
              (handle_timeouts-fuel policy egress indications Fine limit gives_up fuel clock m h f))

  chain-Safe :
      (h : Handled) (rest : State → Handled)
      → Safe h
      → ((m : State) → h ≡ ok m → WellFormed Fine limit m → Safe (rest m))
      → Safe (h >>= rest)
  chain-Safe (ok m) rest s k = k m refl s
  chain-Safe (err (e, m)) rest s k = s
  chain-Safe panic rest s k = s
  chain-Safe stuck rest s k = s

  -- However the branches of the select alternate, a run from a well-formed state never reaches the
  -- panic for a timeout without a request, nor a loop of timeouts that does not end: it stays well
  -- formed, or ends because a channel is closed. Random ids have to differ from those that wait.
  pub run-Safe :
      (events : List Event) (m : State)
      → WellFormed Fine limit m
      → AllFit events m
      → Safe (run policy egress indications events m)
  unfolding run
  run-Safe [] m h f = h
  run-Safe (event ∷ events) m h f =
      chain-Safe (round policy egress indications event m) (run policy egress indications events)
        (round-Safe event m h f.0) (λ m' e w. run-Safe events m' w (f.1 m' e))
