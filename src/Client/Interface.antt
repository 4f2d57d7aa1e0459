-- ===== src/Client/Interface.antt =====
-- stunny-client/src/interface.rs: the senders that an application calls. A request's oneshot receiver
-- gives an answer, or none if its sender was dropped; the answers to the requests that a call sends
-- come as a function of their number, which stands for the oneshot channel as well.
pub mod Addresses
pub mod Slots
pub mod Schemes
use mstun.Base.{
  ℕ, suc, ◌+◌, Bool, true, false, if◌then◌else◌, List, [], ◌∷◌, ◌++◌, Option, none, some, Outcome,
  ok, err, panic, stuck,
}
use mstun.Extern.Channel.{AsyncSender}
use mstun.Core.Message.{Tlv}
use mstun.Core.Attributes.SocketAddr.{SocketAddr}
use mstun.Client.{TransactionError, timeout, channel_closed, io}
use mstun.Client.Dns.{Resolved, found, failed, resolve_uri, resolve_secure_uri}
use mstun.Client.Manager
use mstun.Client.Manager.{Request, Response, Indication, Answer}

-- `rx.await.map_err(|_e| TransactionError::Timeout)??`
abbrev pub received : Option Answer → Answer
received none = err timeout
received (some answer) = answer

abbrev pub is_timeout : Answer → Bool
is_timeout (err timeout) = true
is_timeout _ = false

-- The senders of a `CompositeRequestSender`: the states of their channels, of which that of TLS may
-- be missing.
pub record Channels (S : Type 0) : Type 0 where
  pub udp : S
  pub tcp : S
  pub tls : Option S

module _ {S : Type 0} where
  abbrev pub by_udp : Channels S → Answer × S → Answer × Channels S
  by_udp channels (answer, s) = (answer, record channels { udp = s })

  abbrev pub by_tcp : Channels S → Answer × S → Answer × Channels S
  by_tcp channels (answer, s) = (answer, record channels { tcp = s })

  abbrev pub by_tls : Channels S → Answer × S → Answer × Channels S
  by_tls channels (answer, s) = (answer, record channels { tls = some s })

module _ {S : Type 0} (sink : AsyncSender S Request) where
  open sink use {send}

  -- `send_request`, once it has its slot: the result and the channel of requests.
  abbrev pub after_send : Option Answer → S → Option S → Answer × S
  after_send answer s none = (err channel_closed, s)
  after_send answer s (some t) = (received answer, t)

  unfoldable pub send_request :
      (ℕ → Option Answer) → (ℕ → ℕ) → ℕ → SocketAddr → ℕ → List Tlv → S → Answer × S
  send_request answers clock n destination method attributes s =
      after_send (answers n) s (send (Manager.new destination method attributes n (clock n)) s)

  -- `match self.send_request(..).await`; `later` are the addresses that follow.
  abbrev pub after_request : (S → Answer × S) → Answer × S → Answer × S
  after_request later (answer, s) = if is_timeout answer then later s else (answer, s)

  -- `send_request_to_addrs`; the requests are numbered from `n`.
  unfoldable pub send_request_to_addrs :
      (ℕ → Option Answer) → (ℕ → ℕ) → ℕ → List SocketAddr → ℕ → List Tlv → S → Answer × S
  unfolding send_request
  send_request_to_addrs answers clock n [] method attributes s = (err timeout, s)
  send_request_to_addrs answers clock n (addr ∷ addrs) method attributes s =
      after_request (send_request_to_addrs answers clock (suc n) addrs method attributes)
        (send_request answers clock n addr method attributes s)

  module _ (lookup_host : List ℕ → Option (List SocketAddr)) where
    -- `dns::resolve_uri(..).await?` and the rest
    abbrev pub udp_resolved :
        (ℕ → Option Answer) → (ℕ → ℕ) → Resolved → ℕ → List Tlv → Channels S → Answer × Channels S
    udp_resolved answers clock (failed e) method attributes channels = (err io, channels)
    udp_resolved answers clock (found addrs) method attributes channels =
        by_udp channels (send_request_to_addrs answers clock 0 addrs method attributes channels.udp)

    unfoldable pub udp_request :
        (ℕ → Option Answer) → (ℕ → ℕ) → List ℕ → ℕ → List Tlv → Channels S → Answer × Channels S
    unfolding send_request_to_addrs
    udp_request answers clock stun_uri method attributes channels =
        udp_resolved answers clock (resolve_uri lookup_host stun_uri) method attributes channels

    -- `if let Some(tls) = ..` and the `if` inside
    abbrev pub tls_resolved :
        (ℕ → Option Answer)
        → (ℕ → ℕ)
        → Option S
        → Resolved
        → ℕ
        → List Tlv
        → Channels S
        → Answer × Channels S
    tls_resolved answers clock none secure method attributes channels = (err io, channels)
    tls_resolved answers clock (some tls) (failed e) method attributes channels = (err io, channels)
    tls_resolved answers clock (some tls) (found addrs) method attributes channels =
        by_tls channels (send_request_to_addrs answers clock 0 addrs method attributes tls)

    -- `if let Ok(addrs) = ..`, and what follows
    abbrev pub tcp_resolved :
        (ℕ → Option Answer)
        → (ℕ → ℕ)
        → Resolved
        → Resolved
        → ℕ
        → List Tlv
        → Channels S
        → Answer × Channels S
    tcp_resolved answers clock (found addrs) secure method attributes channels =
        by_tcp channels (send_request_to_addrs answers clock 0 addrs method attributes channels.tcp)
    tcp_resolved answers clock (failed e) secure method attributes channels =
        tls_resolved answers clock channels.tls secure method attributes channels

    unfoldable pub tcp_request :
        (ℕ → Option Answer) → (ℕ → ℕ) → List ℕ → ℕ → List Tlv → Channels S → Answer × Channels S
    unfolding send_request_to_addrs
    tcp_request answers clock stun_uri method attributes channels =
        tcp_resolved answers clock (resolve_uri lookup_host stun_uri)
          (resolve_secure_uri lookup_host stun_uri) method attributes channels

-- `IndicationSender::send_indication`
module _ {I : Type 0} (sink : AsyncSender I Indication) where
  open sink use {send}

  abbrev pub sent_or_closed : Option I → Outcome TransactionError I
  sent_or_closed none = err channel_closed
  sent_or_closed (some sink) = ok sink

  unfoldable pub send_indication : SocketAddr → ℕ → List Tlv → I → Outcome TransactionError I
  send_indication destination method attributes sink =
      sent_or_closed
        (send (record { farend_addr = destination; method = method; attributes = attributes }) sink)

-- `IndicationReceiver::receive_next`, with what the channel's `recv` gave.
unfoldable pub receive_next : Option Indication → Outcome TransactionError Indication
receive_next none = err channel_closed
receive_next (some indication) = ok indication
