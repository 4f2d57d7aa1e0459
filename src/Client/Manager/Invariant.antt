-- ===== src/Client/Manager/Invariant.antt =====
-- What holds of the manager between two calls of its handlers.
use mstun.Base.{
  ℕ, ◌+◌, ◌≤◌, ◌≡◌, refl, sym, ap, subst, ◌∙◌, arith, Option, none, some, List, ◌∷◌, ◌==◌, inl, inr,
  All, not,
}
use mstun.Base.Bytes.{bytes_eq, bytes_eq_refl}
use mstun.Base.Tally.{bit, filter, total}
use mstun.Core.Attributes.SocketAddr.{SocketAddr}
use mstun.Client.Rto.{RtoPolicy}
use mstun.Client.Manager.{Request, PendingTimeout, Requests, Manager, remove, insert}
use mstun.Client.Manager.Tables.{has_key, has_tid, removed-absent, removed-others, tid_cases}

-- The policy never panics in a state of `Fine`, and gives up at the latest after `limit` attempts.
pub record GivesUp {P : Type 0} (policy : RtoPolicy P) (Fine : P → Type 0) (limit : ℕ)
    : Type 0 where
  pub at_least_one : 1 ≤ limit
  pub answers :
      (addr : SocketAddr) (n : ℕ) (p : P)
      → Fine p
      → n ≤ limit
      → (next : Option ℕ) × (p' : P) × (RtoPolicy.calculate_rto policy addr n p ≡ some (next, p'))
        × Fine p'
        × (n ≡ limit → next ≡ none)
  pub keeps_fine :
      (addr : SocketAddr) (rtt : ℕ) (p : P) → Fine p → Fine (RtoPolicy.submit_rtt policy addr rtt p)

-- Every id that waits for a timeout has one outstanding request and the other way round.
abbrev pub Matched : List PendingTimeout → Requests → Type 0
Matched pts entries =
    (tid : List ℕ)
    → (total (has_key tid) entries ≡ total (has_tid tid) pts) × (total (has_tid tid) pts ≤ 1)

module _ (pts others : List PendingTimeout) (first : PendingTimeout) (entries : Requests) where
  abbrev pub Splits : Type 0
  Splits = (w : PendingTimeout → ℕ) → total w pts ≡ w first + total w others

  pub popped-removed : Matched pts entries → Splits → Matched others (remove first.tid entries)
  popped-removed h split tid = elim (tid_cases tid first.tid) [
    | inl same ↦
        subst (λ t. Goal t) (sym same)
          (removed-absent (λ e. e.0) first.tid entries ∙ sym none_left, omega (arith, none_left))
    | inr apart ↦
        let kept = removed-others (λ e. e.0) first.tid entries tid apart.0 in
        let rest : total (has_tid tid) pts ≡ total (has_tid tid) others =
          split (has_tid tid) ∙ rw (apart.1) (omega arith) in
        (kept ∙ (h tid).0 ∙ rest, omega (arith, rest, (h tid).1))
  ]
    where
      Goal : List ℕ → Type 0
      Goal t =
          (total (has_key t) (remove first.tid entries) ≡ total (has_tid t) others)
          × (total (has_tid t) others ≤ 1)

      none_left : total (has_tid first.tid) others ≡ 0
      none_left =
          let one : has_tid first.tid first ≡ 1 = rw (bytes_eq_refl first.tid) refl in
          omega (arith, split (has_tid first.tid), (h first.tid).1, one)

-- An id that is entered in both, and was in neither.
pub entered :
    (pts : List PendingTimeout) (entries : Requests) (tid : List ℕ) (at_ : ℕ) (r : Request)
    → Matched pts (remove tid entries)
    → total (has_tid tid) pts ≡ 0
    → Matched (record { timeout_at = at_; tid = tid } ∷ pts) (insert tid r entries)
entered pts entries tid at_ r h absent t = elim (tid_cases tid t) [
  | inl same ↦
      let absent' : total (has_tid t) pts ≡ 0 =
        subst (λ k. total (has_tid k) pts ≡ 0) same absent in
      (ap (λ n. bit (bytes_eq tid t) + n) (h t).0, ground arith)
  | inr apart ↦ (ap (λ n. bit (bytes_eq tid t) + n) (h t).0, ground (arith, (h t).1))
]

pub untouched :
    (pts : List PendingTimeout) (entries : Requests) (tid : List ℕ)
    → Matched pts entries
    → total (has_tid tid) pts ≡ 0
    → Matched pts (remove tid entries)
untouched pts entries tid h absent t = elim (tid_cases t tid) [
  | inl same ↦ (
    subst (λ k. total (has_key k) (remove tid entries) ≡ total (has_tid k) pts) (sym same)
        (removed-absent (λ e. e.0) tid entries ∙ sym absent),
    (h t).1,
  )
  | inr apart ↦ (removed-others (λ e. e.0) tid entries t apart.0 ∙ (h t).0, (h t).1)
]

pub completed :
    (pts : List PendingTimeout) (entries : Requests) (tid : List ℕ)
    → Matched pts entries
    → Matched (filter (λ pt. not (bytes_eq pt.tid tid)) pts) (remove tid entries)
completed pts entries tid h t = elim (tid_cases t tid) [
  | inl same ↦
      subst (λ k. Goal k) (sym same)
        (removed-absent (λ e. e.0) tid entries ∙ sym gone, omega (arith, gone))
  | inr apart ↦
      let pts' = removed-others (λ p. p.tid) tid pts t apart.0 in
      (
        removed-others (λ e. e.0) tid entries t apart.0 ∙ (h t).0 ∙ sym pts',
        omega (arith, pts', (h t).1),
      )
]
  where
    kept : List PendingTimeout
    kept = filter (λ pt. not (bytes_eq pt.tid tid)) pts

    Goal : List ℕ → Type 0
    Goal k =
        (total (has_key k) (remove tid entries) ≡ total (has_tid k) kept)
        × (total (has_tid k) kept ≤ 1)

    gone : total (has_tid tid) kept ≡ 0
    gone = removed-absent (λ p. p.tid) tid pts

module _ {P S I : Type 0} (Fine : P → Type 0) (limit : ℕ) where
  pub record WellFormed (m : Manager P S I) : Type 0 where
    pub matched : Matched m.pending_timeouts m.outstanding_requests
    pub attempts : All (λ entry. entry.1.attempts_made ≤ limit) m.outstanding_requests
    pub fine : Fine m.rto_policy

module _ {P S I : Type 0} where
  -- How often a sender was used or waits to be.
  abbrev pub sinks : ℕ → Manager P S I → ℕ
  sinks o m =
      total (λ a. bit (a.0 == o)) m.answers
      + total (λ e. bit (e.1.response_sink == o)) m.outstanding_requests
