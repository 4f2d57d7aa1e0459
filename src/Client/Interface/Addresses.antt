-- ===== src/Client/Interface/Addresses.antt =====
-- The addresses that a request is sent to, one after the other.
use mstun.Base.{
  ℕ, suc, ◌+◌, ◌≡◌, refl, sym, ap, ◌∙◌, List, [], ◌∷◌, ◌++◌, append_assoc, append-nil, length,
  if◌then◌else◌, Bool, true, false, arith, Option, some, err,
}
use mstun.Extern.Channel.{AsyncSender}
use mstun.Core.Message.{Tlv}
use mstun.Core.Attributes.SocketAddr.{SocketAddr}
use mstun.Client.{timeout}
use mstun.Client.Manager
use mstun.Client.Manager.{Request, Response, Answer}
use mstun.Client.Interface.{received, send_request, send_request_to_addrs, is_timeout}

module _ {S : Type 0} (sink : AsyncSender S Request) (answers : ℕ → Option Answer) (clock : ℕ → ℕ)
    (method : ℕ) (attributes : List Tlv) where
  open sink use {queued, send, queued-send}

  abbrev pub request_to : ℕ → SocketAddr → Request
  request_to n addr = Manager.new addr method attributes n (clock n)

  -- The requests to these addresses, numbered from `n`.
  abbrev pub requests : ℕ → List SocketAddr → List Request
  requests n [] = []
  requests n (addr ∷ addrs) = request_to n addr ∷ requests (suc n) addrs

  -- The requests to these addresses, numbered from `n`, time out.
  abbrev pub TimeOut : ℕ → List SocketAddr → Type 0
  TimeOut n [] = Unit {0}
  TimeOut n (addr ∷ addrs) = (received (answers n) ≡ err timeout) × TimeOut (suc n) addrs

  -- The manager is alive: its channel takes every request.
  abbrev pub TakesAll : Type 0
  TakesAll = (r : Request) (s : S) → (t : S) × (send r s ≡ some t)

  -- Where the request to `addr` was sent, what follows depends on whether it timed out.
  one_sent :
      (n : ℕ) (addr : SocketAddr) (addrs : List SocketAddr) (s t : S) (b : Bool)
      → send (request_to n addr) s ≡ some t
      → is_timeout (received (answers n)) ≡ b
      → send_request_to_addrs sink answers clock n (addr ∷ addrs) method attributes s ≡ (
          if b
          then send_request_to_addrs sink answers clock (suc n) addrs method attributes t
          else (received (answers n), t))
  unfolding send_request_to_addrs send_request
  one_sent n addr addrs s t b e late = rw (send_request_to_addrs, send_request, e, late) refl

  skip_timeouts :
      (n : ℕ) (before rest : List SocketAddr) (s : S)
      → TakesAll
      → TimeOut n before
      → (t : S) × (send_request_to_addrs sink answers clock n (before ++ rest) method attributes s
          ≡ send_request_to_addrs sink answers clock (n + length before) rest method attributes t)
        × (queued t ≡ queued s ++ requests n before)
  skip_timeouts n [] rest s takes h =
      let same : n ≡ n + 0 = omega arith in
      (
        s,
        ap (λ k. send_request_to_addrs sink answers clock k rest method attributes s) same,
        sym (append-nil (queued s)),
      )
  skip_timeouts n (addr ∷ before) rest s takes (h, hs) =
      let (t, e) = takes (request_to n addr) s in
      let (u, p, q) = skip_timeouts (suc n) before rest t takes hs in
      let same : suc n + length before ≡ n + suc (length before) = omega arith in
      (
        u,
        one_sent n addr (before ++ rest) s t true e (ap is_timeout h)
            ∙ p
            ∙ ap (λ k. send_request_to_addrs sink answers clock k rest method attributes u) same,
        q
            ∙ ap (λ l. l ++ requests (suc n) before) (queued-send (request_to n addr) s t e)
            ∙ append_assoc (queued s) (request_to n addr ∷ []) (requests (suc n) before),
      )

  -- While the manager takes requests: if those to the first addresses time out, and the next one is
  -- answered otherwise, that answer is returned. Requests went to these addresses only, in order,
  -- and to none behind.
  pub send_request_to_addrs-answered :
      (before : List SocketAddr) (addr : SocketAddr) (behind : List SocketAddr) (s : S)
      → TakesAll
      → TimeOut 0 before
      → is_timeout (received (answers (length before))) ≡ false
      → (t : S) × (send_request_to_addrs sink answers clock 0
            (before ++ addr ∷ behind)
            method
            attributes
            s
          ≡ (received (answers (length before)), t))
        × (queued t ≡ (queued s ++ requests 0 before) ++ request_to (length before) addr ∷ [])
  send_request_to_addrs-answered before addr behind s takes late answered =
      let (t, p, q) = skip_timeouts 0 before (addr ∷ behind) s takes late in
      let start : 0 + length before ≡ length before = omega arith in
      let (u, e) = takes (request_to (length before) addr) t in
      (
        u,
        p
            ∙ ap
                (λ k.
                  send_request_to_addrs sink answers clock k (addr ∷ behind) method attributes t)
                start
            ∙ one_sent (length before) addr behind t u false e answered,
        queued-send (request_to (length before) addr) t u e
            ∙ ap (λ l. l ++ request_to (length before) addr ∷ []) q,
      )

  -- If all requests time out, or there is no address, so does the call.
  pub send_request_to_addrs_timeout :
      (addrs : List SocketAddr) (s : S)
      → TakesAll
      → TimeOut 0 addrs
      → (t : S) × (send_request_to_addrs sink answers clock 0 addrs method attributes s
          ≡ (err timeout, t))
        × (queued t ≡ queued s ++ requests 0 addrs)
  unfolding send_request_to_addrs
  send_request_to_addrs_timeout addrs s takes late =
      let (t, p, q) = skip_timeouts 0 addrs [] s takes late in
      (
        t,
        ap (λ l. send_request_to_addrs sink answers clock 0 l method attributes s)
              (sym (append-nil addrs))
            ∙ p,
        q,
      )
