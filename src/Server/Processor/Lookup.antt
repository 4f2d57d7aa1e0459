-- ===== src/Server/Processor/Lookup.antt =====
-- stunny-server/src/processor.rs: which handler serves a request, beside the lookup in the table.
use mstun.Base.{
  ℕ, ◌≡◌, ◌≢◌, refl, arith, All, Bool, true, false, List, [], ◌∷◌, ◌++◌, ok, ◌⊎◌, inl, inr,
  Bool-cases, ==_iff, ◌==◌,
}
use mstun.Core.Message.{Message, Class}
use mstun.Core.Attributes.SocketAddr.{SocketAddr}
use mstun.Server.Transactions.{Request, is_request}
use mstun.Server.Processor.{Handler, Processor, handler_for, run}
use mstun.Server.Processor.Answers.{request_of, serve_all, run-serve_all}

-- The requests among these messages, in order.
abbrev pub AreRequests : List (Message × SocketAddr) → List Request → Type 0
AreRequests [] requests = requests ≡ []
AreRequests (m ∷ messages) requests =
    ((m.0.header.class ≡ Class.request)
      × ((rest : List Request) × (requests ≡ request_of m ∷ rest) × AreRequests messages rest))
    ⊎ (m.0.header.class ≢ Class.request) × AreRequests messages requests

class_cases :
    (class : Class)
    → (is_request class ≡ true) × (class ≡ Class.request)
      ⊎ (is_request class ≡ false) × (class ≢ Class.request)
class_cases Class.request = inl (refl, refl)
class_cases Class.indication = inr (refl, λ e. cc)
class_cases Class.response = inr (refl, λ e. cc)
class_cases Class.error = inr (refl, λ e. cc)

module _ {S : Type 0} where
  -- No entry of the table has this method.
  abbrev pub Lacks : ℕ → List (ℕ × Handler S) → Type 0
  Lacks method handlers = All (λ entry. entry.0 ≢ method) handlers

  -- The handler that is registered for a method, or the default one for a method without.
  pub data Chosen (handlers : List (ℕ × Handler S)) (default_handler : Handler S) (method : ℕ)
      (handler : Handler S) : Type 0 where
    registered :
        (before after : List (ℕ × Handler S))
        → handlers ≡ before ++ (method, handler) ∷ after
        → Lacks method before
        → Chosen handlers default_handler method handler
    unregistered :
        Lacks method handlers
        → handler ≡ default_handler
        → Chosen handlers default_handler method handler

  one_further :
      (key : ℕ) (first handler default_handler : Handler S) (method : ℕ)
      (handlers : List (ℕ × Handler S))
      → key ≢ method
      → Chosen handlers default_handler method handler
      → Chosen ((key, first) ∷ handlers) default_handler method handler
  one_further key first handler default_handler method handlers other
        (registered before after e lacks) =
      registered ((key, first) ∷ before) after (cc) (other, lacks)
  one_further key first handler default_handler method handlers other (unregistered lacks e) =
      unregistered (other, lacks) e

  handler_for-Chosen :
      (handlers : List (ℕ × Handler S)) (default_handler : Handler S) (method : ℕ)
      → Chosen handlers default_handler method (handler_for handlers default_handler method)
  unfolding handler_for
  handler_for-Chosen [] default_handler method = unregistered tt refl
  handler_for-Chosen ((key, handler) ∷ handlers) default_handler method =
      elim (Bool-cases (key == method)) [
        | inl same ↦
            let e : key ≡ method = (==_iff key method).0 same in
            rw (handler_for, same) (registered [] handlers (rw e refl) tt)
        | inr other ↦
            rw (handler_for, other)
              (one_further key handler _ default_handler method handlers
                (λ e. ground (arith, other, e))
                (handler_for-Chosen handlers default_handler method))
      ]

  -- The requests have been served one after the other, each by the handler that is chosen for it.
  abbrev pub ServedBy : Processor S → List Request → S → S → Type 0
  ServedBy processor [] s t = t ≡ s
  ServedBy processor (r ∷ requests) s t =
      (handler : Handler S) × Chosen processor.handlers processor.default_handler r.method handler
      × ServedBy processor requests (handler r s) t

  module _ (processor : Processor S) where
    -- What serving comes to.
    abbrev handled : Request → S → S
    handled r = handler_for processor.handlers processor.default_handler r.method r

    pub ServedBy-cons :
        (r : Request) (requests : List Request) (s t : S)
        → ServedBy processor requests (handled r s) t
        → ServedBy processor (r ∷ requests) s t
    ServedBy-cons r requests s t h = (
      handler_for processor.handlers processor.default_handler r.method,
      handler_for-Chosen processor.handlers processor.default_handler r.method,
      h,
    )

    serve_all-ServedBy :
        (messages : List (Message × SocketAddr)) (s : S)
        → (requests : List Request) × AreRequests messages requests
          × ServedBy processor requests s (serve_all processor messages s)
    serve_all-ServedBy [] s = ([], refl, refl)
    serve_all-ServedBy (m ∷ messages) s = elim (class_cases m.0.header.class) [
      | inl (request, e) ↦
          let (requests, are, served) = serve_all-ServedBy messages (handled (request_of m) s) in
          (
            request_of m ∷ requests,
            inl (e, (requests, refl, are)),
            rw request (ServedBy-cons (request_of m) requests s _ served),
          )
      | inr (other, e) ↦
          let (requests, are, served) = serve_all-ServedBy messages s in
          (requests, inr (e, are), rw other served)
    ]

    -- `run` serves the requests among the messages that wait, in order, each by the handler that
    -- is registered for its method, or by the default one for a method without; it passes over all
    -- other messages, and neither panics nor runs out of rounds.
    pub run-ServedBy :
        (c : Bool) (messages : List (Message × SocketAddr)) (sink : S)
        → (requests : List Request) × (t : S) × (run processor c messages sink ≡ ok t)
          × AreRequests messages requests
          × ServedBy processor requests sink t
    run-ServedBy c messages sink =
        let (requests, are, served) = serve_all-ServedBy messages sink in
        (
          requests,
          serve_all processor messages sink,
          run-serve_all processor c messages sink,
          are,
          served,
        )
