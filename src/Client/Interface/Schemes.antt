-- ===== src/Client/Interface/Schemes.antt =====
-- Which channels the request for a URI goes to.
use mstun.Base.{ℕ, ◌≡◌, refl, List, ◌++◌, Option, none, some, err}
use mstun.Extern.Channel.{AsyncSender}
use mstun.Core.Message.{Tlv}
use mstun.Core.Attributes.SocketAddr.{SocketAddr}
use mstun.Client.{io}
use mstun.Client.Dns.{
  Resolved, found, failed, prefix_missing, uri_secure_prefix, resolve_uri, resolve_secure_uri,
}
use mstun.Client.Manager.{Request, Answer}
use mstun.Client.Interface.{Channels, tls_resolved, udp_request, tcp_request}

module _ {S : Type 0} (sink : AsyncSender S Request)
    (lookup_host : List ℕ → Option (List SocketAddr)) (answers : ℕ → Option Answer) (clock : ℕ → ℕ)
    (method : ℕ) (attributes : List Tlv) where
  not_plain :
      (name : List ℕ) → resolve_uri lookup_host (uri_secure_prefix ++ name) ≡ failed prefix_missing
  unfolding resolve_uri
  not_plain name = refl

  abbrev tls_part : Option S → Resolved → Channels S → Answer × Channels S
  tls_part tls secure channels =
      tls_resolved sink lookup_host answers clock tls secure method attributes channels

  tls_part-others :
      (tls : Option S) (secure : Resolved) (channels : Channels S)
      → ((tls_part tls secure channels).1.udp ≡ channels.udp)
        × ((tls_part tls secure channels).1.tcp ≡ channels.tcp)
        × (tls ≡ none → tls_part tls secure channels ≡ (err io, channels))
  tls_part-others none secure channels = (refl, refl, λ missing. refl)
  tls_part-others (some tls) (failed e) channels = (refl, refl, λ missing. refl)
  tls_part-others (some tls) (found addrs) channels =
      (refl, refl, λ missing. absurd (clash missing))
    where
      clash : some tls ≡ none → ⊥
      clash p = cc

  -- Requests for a secure URI never go out in clear: the channels of UDP and of TCP stay as they are.
  -- UDP refuses such a URI, and so does TCP without a channel of TLS.
  pub tcp_request_secure :
      (name : List ℕ) (channels : Channels S)
      → (udp_request sink lookup_host answers clock
            (uri_secure_prefix ++ name)
            method
            attributes
            channels
          ≡ (err io, channels))
        × ((tcp_request sink lookup_host answers clock
              (uri_secure_prefix ++ name)
              method
              attributes
              channels).1.udp
            ≡ channels.udp)
        × ((tcp_request sink lookup_host answers clock
              (uri_secure_prefix ++ name)
              method
              attributes
              channels).1.tcp
            ≡ channels.tcp)
        × (channels.tls ≡ none
            → tcp_request sink lookup_host answers clock
                (uri_secure_prefix ++ name)
                method
                attributes
                channels
              ≡ (err io, channels))
  unfolding udp_request tcp_request
  tcp_request_secure name channels =
      let others =
        tls_part-others channels.tls (resolve_secure_uri lookup_host (uri_secure_prefix ++ name))
          channels in
      (
        rw (udp_request, not_plain name) refl,
        rw (tcp_request, not_plain name) (others.0),
        rw (tcp_request, not_plain name) (others.1),
        λ missing. rw (tcp_request, not_plain name) (others.2 missing),
      )
