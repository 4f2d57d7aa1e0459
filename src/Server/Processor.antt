-- ===== src/Server/Processor.antt =====
-- stunny-server/src/processor.rs. A handler's future is run to its end when it is spawned; the
-- state of the transport's channel is passed from one to the next.
pub mod Answers
pub mod Lookup
pub mod Tasks
pub mod Responses
use mstun.Base.{
  ℕ, zero, suc, ◌+◌, Bool, true, false, List, [], ◌∷◌, ◌++◌, Option, none, some, Outcome, ok, err,
  panic, stuck, ◌==◌, if◌then◌else◌, length, not,
}
use mstun.Base.Tally.{filter}
use mstun.Extern.Buf.{SliceBuf}
use mstun.Extern.BufMut.{VecMut}
use mstun.Extern.Channel.{AsyncSender}
use mstun.Core.Message.{Message}
use mstun.Core.Attributes.SocketAddr.{SocketAddr, mapped_address, xor_mapped_address}
use mstun.Core.Attributes.ErrorCode.{ErrorCode, error_code}
use mstun.Server.{TransactionError}
use mstun.Server.Transactions.{
  Request, Response, build_response, with_attribute, send, send_error, Polled, pending, finished,
  ready, poll_next,
}

-- "unsupported"
abbrev pub unsupported : List ℕ
unsupported = 117 ∷ 110 ∷ 115 ∷ 117 ∷ 112 ∷ 112 ∷ 111 ∷ 114 ∷ 116 ∷ 101 ∷ 100 ∷ []

-- `let _ = result`, with what the channel is then.
abbrev pub ignore_result : {S : Type 0} → S → Outcome TransactionError S → S
ignore_result sink (ok sink') = sink'
ignore_result sink _ = sink

-- `trait Handler`: `handle_request`, with the state of the channel.
abbrev pub Handler : Type 0 → Type 0
Handler S = Request → S → S

pub record Processor (S : Type 0) : Type 0 where
  pub handlers : List (ℕ × Handler S)
  pub default_handler : Handler S

module _ {S : Type 0} where
  -- `self.handlers.get(..)`, and the default handler without one
  unfoldable pub handler_for : List (ℕ × Handler S) → Handler S → ℕ → Handler S
  handler_for [] default_handler method = default_handler
  handler_for ((key, handler) ∷ handlers) default_handler method =
      if key == method then handler else handler_for handlers default_handler method

  unfoldable pub set_handler : ℕ → Handler S → Processor S → Processor S
  set_handler method handler processor = record processor {
    handlers = (method, handler) ∷ filter (λ entry. not (entry.0 == method)) processor.handlers;
  }

  unfoldable pub set_default_handler : Handler S → Processor S → Processor S
  set_default_handler default_handler processor = record processor {
    default_handler = default_handler;
  }

  -- The loop of `run` until the receiver has nothing more; each round takes a message or more.
  unfoldable pub run_loop :
      ℕ → Processor S → Bool → List (Message × SocketAddr) → S → Outcome TransactionError S
  unfolding handler_for poll_next
  run_loop zero processor is_closed messages sink = stuck
  run_loop (suc fuel) processor is_closed messages sink = elim (poll_next is_closed messages) [
    | pending ↦ ok sink
    | finished ↦ ok sink
    | ready (ok request) rest ↦
        run_loop fuel processor is_closed rest
          (handler_for processor.handlers processor.default_handler request.method request sink)
    | ready (err e) rest ↦ err e
    | ready panic rest ↦ panic
    | ready stuck rest ↦ stuck
  ]

  unfoldable pub run :
      Processor S → Bool → List (Message × SocketAddr) → S → Outcome TransactionError S
  unfolding run_loop
  run processor is_closed messages sink =
      run_loop (length messages + 1) processor is_closed messages sink

module _ {B V S : Type 0} (slice : SliceBuf B) (vec : VecMut V)
    (egress : AsyncSender S (Message × SocketAddr)) where
  -- `UnrecognizedMethodHandler`
  unfoldable pub unrecognized_method_handler : Handler S
  unfolding build_response with_attribute send_error
  unrecognized_method_handler request sink = ignore_result sink (
      send_error egress
        (with_attribute (error_code slice vec) (record { code = 400; reason = unsupported })
          (build_response request))
        sink)

  -- `DefaultBindHandler`
  unfoldable pub default_bind_handler : Handler S
  unfolding build_response with_attribute send
  default_bind_handler request sink =
      let client_addr = request.source_addr in
      ignore_result sink (
        send egress
          (with_attribute (mapped_address slice vec) client_addr
            (with_attribute (xor_mapped_address slice vec) client_addr (build_response request)))
          sink)

  -- `Processor::new`
  unfoldable pub new : Processor S
  unfolding unrecognized_method_handler default_bind_handler
  new = record {
    handlers = (0x0001, default_bind_handler) ∷ [];
    default_handler = unrecognized_method_handler;
  }

  -- `setup_transactions` of stunny-server/src/lib.rs: what the receiver gives is an argument of `run`.
  abbrev pub setup_transactions : Processor S
  setup_transactions = new
