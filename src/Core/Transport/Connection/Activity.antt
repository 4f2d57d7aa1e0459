-- ===== src/Core/Transport/Connection/Activity.antt =====
-- stunny-core/src/transport/connection_pool.rs: `last_active` of `run_connection`, beside the messages
-- that are read and written.
use mstun.Base.{ℕ, ◌+◌, ◌≤◌, ◌<◌, ◌≡◌, ◌∙◌, arith, inl, inr, ◌⊎◌}
use mstun.Core.Transport.Connection.{Connection, Ingress, Egress}
use mstun.Core.Transport.Connection.Deadlines
use mstun.Core.Transport.Connection.Deadlines.{in_hand}
use mstun.Core.Transport.Connection.Wire
use mstun.Core.Transport.Connection.Wire.{unwritten}

-- No message has been read or written as a whole: the channel to the application, the bytes that wait
-- to be passed on and the messages that wait to be written are as before.
abbrev pub IsQuiet : {S : Type 0} → Connection S → Connection S → Type 0
IsQuiet before after =
    (after.ingress.sink ≡ before.ingress.sink)
    × (in_hand after.ingress.reading after.ingress ≡ in_hand before.ingress.reading before.ingress)
    × (unwritten after.egress.state after.egress ≡ unwritten before.egress.state before.egress)

-- Some message has been read or written as a whole.
abbrev pub IsBusy : {S : Type 0} → Connection S → Connection S → Type 0
IsBusy before after =
    let read = in_hand after.ingress.reading after.ingress in
    let read' = in_hand before.ingress.reading before.ingress in
    let written = unwritten after.egress.state after.egress in
    let written' = unwritten before.egress.state before.egress in
    (read ≤ read') × (written ≤ written') × (read + written < read' + written')

-- The last time when it was active stays unless a message is read or written, and is `now` then.
abbrev pub Moves : {S : Type 0} → ℕ → Connection S → Connection S → Type 0
Moves now before after =
    (after.last_active ≡ before.last_active) × IsQuiet before after
    ⊎ (after.last_active ≡ now) × IsBusy before after

module _ {S : Type 0} (start : Connection S) (now : ℕ) (c : Connection S) where
  pub read-Moves :
      (ingress : Ingress S) (last_active : ℕ)
      → Moves now start c
      → Deadlines.Moves now c.last_active last_active c.ingress ingress
      → Moves now start (record c { ingress = ingress; last_active = last_active })
  read-Moves ingress last_active (inl (p, (q, r, s))) (inl (p', q', r')) =
      inl (p' ∙ p, (q' ∙ q, r' ∙ r, s))
  read-Moves ingress last_active (inr (p, q)) (inl (p', q', r')) =
      inr (p' ∙ p, omega (arith, q, r'))
  read-Moves ingress last_active (inl (p, (q, r, s))) (inr (p', q')) =
      inr (p', omega (arith, q', r, s))
  read-Moves ingress last_active (inr (p, q)) (inr (p', q')) = inr (p', omega (arith, q, q'))

  pub write-Moves :
      (egress : Egress) (last_active : ℕ)
      → Moves now start c
      → Wire.Moves now c.last_active last_active c.egress egress
      → Moves now start (record c { egress = egress; last_active = last_active })
  write-Moves egress last_active (inl (p, (q, r, s))) (inl (p', s')) = inl (p' ∙ p, (q, r, s' ∙ s))
  write-Moves egress last_active (inr (p, q)) (inl (p', s')) = inr (p' ∙ p, omega (arith, q, s'))
  write-Moves egress last_active (inl (p, (q, r, s))) (inr (p', q')) =
      inr (p', omega (arith, q', r, s))
  write-Moves egress last_active (inr (p, q)) (inr (p', q')) = inr (p', omega (arith, q, q'))
