-- ===== src/Client/Processor.antt =====
-- stunny-client/src/lib.rs: `Processor::run`, the select over what the manager handles. Each round is
-- an event: the branch that was taken with what it received, and what the handler's clock and random
-- generator returned.
pub mod Runs
pub mod Setup
use mstun.Base.{ℕ, List, [], ◌∷◌, Option, none, some, Outcome, ok, err, ◌>>=◌}
use mstun.Extern.Channel.{AsyncSender}
use mstun.Core.Message.{Message}
use mstun.Core.Attributes.SocketAddr.{SocketAddr}
use mstun.Client.{TransactionError, channel_closed}
use mstun.Client.Rto.{RtoPolicy}
use mstun.Client.Manager.{
  Request, Indication, Manager, next_timeout, handle_timeouts, handle_outgoing_indication,
  handle_outgoing_request, handle_incoming_message,
}

pub data Event : Type 0 where
  inbound : (measured : ℕ) → (now : ℕ) → Option (Message × SocketAddr) → Event
  outbound_request : (tid : List ℕ) → (now : ℕ) → Request → Event
  outbound_indication : (tid : List ℕ) → Indication → Event
  timeouts : (fuel : ℕ) → (clock : ℕ → ℕ) → Event

module _ {P S I : Type 0} (policy : RtoPolicy P) (egress : AsyncSender S (Message × SocketAddr))
    (indications : AsyncSender I Indication) where
  -- A round of the loop; the branch of timeouts is disabled where there is none.
  unfoldable pub round :
      Event → Manager P S I → Outcome (TransactionError × Manager P S I) (Manager P S I)
  round (inbound measured now none) manager = err (channel_closed, manager)
  round (inbound measured now (some msg_and_src)) manager =
      handle_incoming_message policy egress indications measured now msg_and_src manager
  round (outbound_request tid now request) manager =
      handle_outgoing_request policy egress indications tid now request manager
  round (outbound_indication tid indication) manager =
      handle_outgoing_indication policy egress indications tid indication manager
  round (timeouts fuel clock) manager = elim (next_timeout policy egress indications manager) [
    | none ↦ ok manager
    | some deadline ↦ handle_timeouts policy egress indications fuel clock manager
  ]

  -- `run`, up to the end of the events or the first error.
  unfoldable pub run :
      List Event → Manager P S I → Outcome (TransactionError × Manager P S I) (Manager P S I)
  unfolding round
  run [] manager = ok manager
  run (event ∷ events) manager = round event manager >>= run events
