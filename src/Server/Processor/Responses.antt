-- ===== src/Server/Processor/Responses.antt =====
-- What a processor with the default handlers sends.
use mstun.Base.{
  ℕ, ◌≡◌, refl, sym, ap, ◌∙◌, arith, if◌then◌else◌, List, [], ◌∷◌, ◌++◌, append_assoc, append-nil,
  map, some, ◌==◌, Bool-cases, inl, inr,
}
use mstun.Base.Tally.{total}
use mstun.Extern.Buf.{SliceBuf}
use mstun.Extern.BufMut.{VecMut}
use mstun.Extern.Channel.{AsyncSender}
use mstun.Core.Message.{Message, new_error}
use mstun.Core.Attributes.SocketAddr.{SocketAddr}
use mstun.Core.Attributes.ErrorCode.{error_code}
use mstun.Core.Attributes.Collection.{append_attribute}
use mstun.Server.Transactions
use mstun.Server.Transactions.{Request, build_response, with_attribute}
use mstun.Server.Processor
use mstun.Server.Processor.{
  Processor, setup_transactions, handler_for, unsupported, default_bind_handler,
  unrecognized_method_handler,
}
use mstun.Server.Processor.Answers.{bind_answer, default_bind_handler-bind_answer}
use mstun.Server.Processor.Tasks.{
  requests_of, handle, handle_all, Reach, Serving, idle, handle_all-Reach,
}

module _ {B V S : Type 0} (slice : SliceBuf B) (vec : VecMut V)
    (egress : AsyncSender S (Message × SocketAddr)) where
  open egress use {queued, send, queued-send}

  abbrev pub defaults : Processor S
  defaults = setup_transactions slice vec egress

  -- The refusal of a request of a method without a handler.
  abbrev pub refusal : Request → Message
  refusal r =
      new_error r.method r.transaction_id
        (append_attribute (error_code slice vec) [] (record { code = 400; reason = unsupported }))

  -- The answer to a request, and where it goes.
  abbrev pub answer_of : Request → Message × SocketAddr
  answer_of r = ((if 1 == r.method then bind_answer vec r else refusal r), r.source_addr)

  -- The transport is alive: its channel takes every message.
  abbrev pub TakesAll : Type 0
  TakesAll = (m : Message × SocketAddr) (s : S) → (t : S) × (send m s ≡ some t)

  handle-answer_of :
      (r : Request) (s t : S) → send (answer_of r) s ≡ some t → handle defaults r s ≡ t
  unfolding Processor.new handler_for unrecognized_method_handler Transactions.send_error
      append_attribute with_attribute build_response
  handle-answer_of r s t sent = elim (Bool-cases (1 == r.method)) [
    | inl bind ↦
        rw (handler_for, bind)
          (default_bind_handler-bind_answer slice vec egress r s t (rw bind at sent))
    | inr other ↦
        let refused : send (refusal r, r.source_addr) s ≡ some t = rw other at sent in
        rw (handler_for, other, unrecognized_method_handler, Transactions.send_error, refused) refl
  ]

  handle_all-answers :
      (rs : List Request) (s : S)
      → TakesAll
      → queued (handle_all defaults rs s) ≡ queued s ++ map answer_of rs
  handle_all-answers [] s takes = sym (append-nil (queued s))
  handle_all-answers (r ∷ rs) s takes =
      let (t, e) = takes (answer_of r) s in
      ap (λ u. queued (handle_all defaults rs u)) (handle-answer_of r s t e)
      ∙ handle_all-answers rs t takes
      ∙ ap (λ l. l ++ map answer_of rs) (queued-send (answer_of r) s t e)
      ∙ append_assoc (queued s) (answer_of r ∷ []) (map answer_of rs)

  -- While the transport takes messages: of a server with the default handlers, when nothing waits and
  -- no task is open, each request that came has one answer in the channel, to where it came from: a
  -- binding response or the refusal of its method. Nothing else was sent, in whatever order the tasks
  -- have finished.
  pub answers-Reach :
      (s : S) (c : Serving defaults)
      → TakesAll
      → Reach defaults (idle defaults s) c
      → c.waiting ≡ []
      → c.tasks ≡ []
      → (queued c.sink ≡ queued s ++ map answer_of c.served)
        × ((w : Request → ℕ) → total w c.served ≡ total w (requests_of c.received))
  answers-Reach s c takes reach none_waits none_open =
      let (sink, all) = handle_all-Reach defaults s c reach in
      (
        ap queued sink ∙ handle_all-answers c.served s takes,
        λ w.
            omega
              (arith, all w, ap (total w) none_open, ap (λ l. total w (requests_of l)) none_waits),
      )
