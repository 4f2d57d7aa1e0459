-- ===== src/Extern/Channel.antt =====
-- `tokio::sync::mpsc::Sender`: a bounded queue, which is closed when its receiver is dropped.
use mstun.Base.{ℕ, suc, ◌≡◌, Bool, true, false, Option, some, List, [], ◌∷◌, ◌++◌}

-- The results of `try_send`: `Ok`, `TrySendError::Full` and `TrySendError::Closed`.
pub data TrySend : Type 0 where
  sent full closed : TrySend

pub record Sender (S M : Type 0) : Type 0 where
  -- what waits for the receiver, the room that is left, and whether the receiver is gone
  pub queued : S → List M
  pub room : S → ℕ
  pub is_closed : S → Bool
  pub try_send : M → S → TrySend × S
  pub try_send_closed : (m : M) (s : S) → is_closed s ≡ true → try_send m s ≡ (closed, s)
  pub try_send_full : (m : M) (s : S) → is_closed s ≡ false → room s ≡ 0 → try_send m s ≡ (full, s)
  pub try_send_sent :
      (m : M) (s : S) (n : ℕ)
      → is_closed s ≡ false
      → room s ≡ suc n
      → (t : S) × (try_send m s ≡ (sent, t))
        × (queued t ≡ queued s ++ m ∷ [])
        × (room t ≡ n)
        × (is_closed t ≡ false)

-- `sender.send(message).await` once it is ready: the channel with the message behind the others, or
-- none if the receiver is gone. The same holds for `reserve().await` with a `send` of the permit.
pub record AsyncSender (S M : Type 0) : Type 0 where
  pub queued : S → List M
  pub send : M → S → Option S
  pub queued-send : (m : M) (s t : S) → send m s ≡ some t → queued t ≡ queued s ++ m ∷ []

-- `mpsc::channel(n)`: the sender of a new channel with room for `n`; none where it panics. The limit of
-- tokio on `n`, `Semaphore::MAX_PERMITS`, is left out: the client's channels have room for one, and a
-- pool could not have been made beyond it, since its own channel has the room of its connections'.
pub record Mpsc (S M : Type 0) : Type 0 where
  pub sender : Sender S M
  pub channel : ℕ → Option S
  pub channel-suc :
      (n : ℕ)
      → (s : S) × (channel (suc n) ≡ some s)
        × (sender.queued s ≡ [])
        × (sender.room s ≡ suc n)
        × (sender.is_closed s ≡ false)
