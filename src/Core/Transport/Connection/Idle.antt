-- ===== src/Core/Transport/Connection/Idle.antt =====
-- stunny-core/src/transport/connection_pool.rs: when `run_connection` ends with an inactivity timeout.
use mstun.Base.{ℕ, ◌+◌, ◌≤◌, ◌≡◌, List, [], ◌∷◌, ◌++◌, Outcome, ok, ◌⊎◌}
use mstun.Extern.Buf.{SliceBuf}
use mstun.Extern.BufMut.{SliceMut}
use mstun.Extern.Bitvec.{Bitvec}
use mstun.Extern.Channel.{Sender}
use mstun.Core.Message.{Message}
use mstun.Core.Attributes.SocketAddr.{SocketAddr}
use mstun.Core.Transport.{IoError}
use mstun.Core.Transport.Connection.{Connection}
use mstun.Core.Transport.Connection.Join.{Event, happens, poll_connection}
use mstun.Core.Transport.Connection.Activity.{IsQuiet}

-- The clock does not go back.
abbrev pub Ordered : ℕ → List Event → Type 0
Ordered now [] = Unit
Ordered now (event ∷ events) = (now ≤ event.now) × Ordered event.now events

module _ {A B W S : Type 0} (bits : Bitvec A) (slice : SliceBuf B) (slice_mut : SliceMut W)
    (channel : Sender S (Message × SocketAddr)) (remote_addr : SocketAddr) (timeout : ℕ) where
  abbrev poll_at : Event → Connection S → Outcome IoError (Connection S)
  poll_at event c =
      poll_connection bits slice slice_mut channel remote_addr timeout event.first event.now
        (happens event.happening c)

  -- All these polls go on, and in none behind the time `since` a message is read or written to its end.
  abbrev pub QuietBehind : ℕ → List Event → Connection S → Type 0
  QuietBehind since [] c = Unit
  QuietBehind since (event ∷ events) c =
      (d : Connection S) × (poll_connection bits slice slice_mut channel remote_addr timeout
          event.first event.now (happens event.happening c)
        ≡ ok d)
      × ((event.now ≤ since) ⊎ IsQuiet (happens event.happening c) d)
      × QuietBehind since events d

  -- The polls before the one that ends it, and when the connection was last active.
  record EndsIdle (events : List Event) (c : Connection S) : Type 0 where
    pub before : List Event
    pub last : Event
    pub after : List Event
    pub since : ℕ
    pub split : events ≡ before ++ last ∷ after
    pub active : c.last_active ≤ since
    pub idle : since + timeout ≤ last.now
    pub quiet : QuietBehind since before c

  module _ (event : Event) (events : List Event) (c : Connection S)
      (active : c.last_active ≤ event.now) where
    abbrev happened : Connection S
    happened = happens event.happening c
