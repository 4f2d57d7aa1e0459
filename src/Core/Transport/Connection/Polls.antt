-- ===== src/Core/Transport/Connection/Polls.antt =====
-- stunny-core/src/transport/connection_pool.rs: what holds over the polls of `run_connection`, from
-- what each of its three futures does.
use mstun.Base.{ℕ, List, [], ◌∷◌, Outcome, ok, err, panic, stuck, ◌>>=◌}
use mstun.Extern.Buf.{SliceBuf}
use mstun.Extern.BufMut.{SliceMut}
use mstun.Extern.Bitvec.{Bitvec}
use mstun.Extern.Channel.{Sender}
use mstun.Core.Message.{Message}
use mstun.Core.Attributes.SocketAddr.{SocketAddr}
use mstun.Core.Transport.{IoError}
use mstun.Core.Transport.Connection.{
  Connection, First, ingress_first, egress_first, inactivity_first,
}
use mstun.Core.Transport.Connection.Join.{
  Event, happens, ingress_part, egress_part, inactivity_part, poll_connection, run_connection,
}

-- A result that is as `Q` says, or else ends as `Ends` says.
abbrev pub Upholds {ℓ} :
    {E C : Type 0} → (C → Type ℓ) → (Outcome E C → Type ℓ) → Outcome E C → Type ℓ
Upholds Q Ends (ok c) = Q c
Upholds Q Ends (err e) = Ends (err e)
Upholds Q Ends panic = Ends panic
Upholds Q Ends stuck = Ends stuck

pub >>=-Upholds {ℓ} :
    {E C : Type 0} (P Q : C → Type ℓ) (Ends : Outcome E C → Type ℓ) (m : Outcome E C)
    (f : C → Outcome E C)
    → Upholds P Ends m
    → ((c : C) → P c → Upholds Q Ends (f c))
    → Upholds Q Ends (m >>= f)
>>=-Upholds P Q Ends (ok c) f p next = next c p
>>=-Upholds P Q Ends (err e) f p next = p
>>=-Upholds P Q Ends panic f p next = p
>>=-Upholds P Q Ends stuck f p next = p

pub Upholds-map {ℓ} :
    {E C : Type 0} (P Q : C → Type ℓ) (Ends : Outcome E C → Type ℓ) (m : Outcome E C)
    → ((c : C) → P c → Q c)
    → Upholds P Ends m
    → Upholds Q Ends m
Upholds-map P Q Ends (ok c) f p = f c p
Upholds-map P Q Ends (err e) f p = p
Upholds-map P Q Ends panic f p = p
Upholds-map P Q Ends stuck f p = p

-- Between two states: `P` and `Own` hold of the second, and `Other` and `Another` if they held.
pub record Kept {C : Type 0} (P Own Other Another : C → Type 0) (before after : C) : Type 0 where
  pub base : P after
  pub own : Own after
  pub keeps_first : Other before → Other after
  pub keeps_second : Another before → Another after

module _ {A B W S : Type 0} (bits : Bitvec A) (slice : SliceBuf B) (slice_mut : SliceMut W)
    (channel : Sender S (Message × SocketAddr)) (remote_addr : SocketAddr) (timeout : ℕ) where
  -- Each future keeps `P`, brings about its own property, and keeps those of the two others.
  pub record Parts (now : ℕ) (P I G D : Connection S → Type 0)
      (Ends : Outcome IoError (Connection S) → Type 0) : Type 0 where
    pub ingress :
        (c : Connection S)
        → P c
        → Upholds
            (Kept P I G D c)
            Ends
            (ingress_part bits slice slice_mut channel remote_addr timeout now c)
    pub egress :
        (c : Connection S)
        → P c
        → Upholds
            (Kept P G I D c)
            Ends
            (egress_part bits slice slice_mut channel remote_addr timeout now c)
    pub inactivity :
        (c : Connection S)
        → P c
        → Upholds
            (Kept P D I G c)
            Ends
            (inactivity_part bits slice slice_mut channel remote_addr timeout now c)

  module _ (now : ℕ) (P I G D : Connection S → Type 0)
      (Ends : Outcome IoError (Connection S) → Type 0) where
    abbrev pub Whole : Connection S → Type 0
    Whole c = P c × I c × G c × D c

    pub poll_connection-Upholds :
        Parts now P I G D Ends
        → (first : First) (c : Connection S) → P c
        → Upholds Whole Ends
            (poll_connection bits slice slice_mut channel remote_addr timeout first now c)
    unfolding poll_connection
    poll_connection-Upholds parts ingress_first c p =
        let ingress = ingress_part bits slice slice_mut channel remote_addr timeout now c in
        let egress = egress_part bits slice slice_mut channel remote_addr timeout now in
        let inactivity = inactivity_part bits slice slice_mut channel remote_addr timeout now in
        let One = λ (c : Connection S). P c × I c in
        let Two = λ (c : Connection S). P c × I c × G c in
        >>=-Upholds Two Whole Ends (ingress >>= egress) inactivity
          (>>=-Upholds One Two Ends ingress egress
            (Upholds-map _ One Ends _ (λ c k. (k.base, k.own)) (parts.ingress c p))
            (λ c (p, x).
              Upholds-map _ Two Ends _ (λ c k. (k.base, k.keeps_first x, k.own))
                (parts.egress c p)))
          (λ c (p, x, y).
            Upholds-map _ Whole Ends _ (λ c k. (k.base, k.keeps_first x, k.keeps_second y, k.own))
              (parts.inactivity c p))
    poll_connection-Upholds parts egress_first c p =
        let egress = egress_part bits slice slice_mut channel remote_addr timeout now c in
        let inactivity = inactivity_part bits slice slice_mut channel remote_addr timeout now in
        let ingress = ingress_part bits slice slice_mut channel remote_addr timeout now in
        let One = λ (c : Connection S). P c × G c in
        let Two = λ (c : Connection S). P c × G c × D c in
        >>=-Upholds Two Whole Ends (egress >>= inactivity) ingress
          (>>=-Upholds One Two Ends egress inactivity
            (Upholds-map _ One Ends _ (λ c k. (k.base, k.own)) (parts.egress c p))
            (λ c (p, x).
              Upholds-map _ Two Ends _ (λ c k. (k.base, k.keeps_second x, k.own))
                (parts.inactivity c p)))
          (λ c (p, x, y).
            Upholds-map _ Whole Ends _ (λ c k. (k.base, k.own, k.keeps_first x, k.keeps_second y))
              (parts.ingress c p))
    poll_connection-Upholds parts inactivity_first c p =
        let inactivity = inactivity_part bits slice slice_mut channel remote_addr timeout now c in
        let ingress = ingress_part bits slice slice_mut channel remote_addr timeout now in
        let egress = egress_part bits slice slice_mut channel remote_addr timeout now in
        let One = λ (c : Connection S). P c × D c in
        let Two = λ (c : Connection S). P c × D c × I c in
        >>=-Upholds Two Whole Ends (inactivity >>= ingress) egress
          (>>=-Upholds One Two Ends inactivity ingress
            (Upholds-map _ One Ends _ (λ c k. (k.base, k.own)) (parts.inactivity c p))
            (λ c (p, x).
              Upholds-map _ Two Ends _ (λ c k. (k.base, k.keeps_second x, k.own))
                (parts.ingress c p)))
          (λ c (p, x, y).
            Upholds-map _ Whole Ends _ (λ c k. (k.base, k.keeps_first y, k.own, k.keeps_second x))
              (parts.egress c p))

  pub run_connection-Upholds :
      (Q : List Event → Connection S → Type 0) (Ends : Outcome IoError (Connection S) → Type 0)
      → ((event : Event) (events : List Event) (c : Connection S)
          → Q (event ∷ events) c
          → Upholds (Q events) Ends (
              poll_connection bits slice slice_mut channel remote_addr timeout event.first event.now
                (happens event.happening c)))
      → (events : List Event) (c : Connection S) → Q events c
      → Upholds
          (Q [])
          Ends
          (run_connection bits slice slice_mut channel remote_addr timeout events c)
  unfolding run_connection
  run_connection-Upholds Q Ends step [] c q = q
  run_connection-Upholds Q Ends step (event ∷ events) c q =
      let poll =
        poll_connection bits slice slice_mut channel remote_addr timeout event.first event.now
          (happens event.happening c) in
      let rest = run_connection bits slice slice_mut channel remote_addr timeout events in
      >>=-Upholds (Q events) (Q []) Ends poll rest (step event events c q)
        (run_connection-Upholds Q Ends step events)
