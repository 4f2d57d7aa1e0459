-- ===== src/Core/Transport/Tls.antt =====
-- stunny-core/src/transport/tls.rs: connections over TLS. Beside what tcp.rs takes, the handshake of
-- `TlsConnector` for the name of the peer is a parameter, which returns none for an `io::Error`.
use mstun.Base.{ℕ, Option, Outcome, ◌>>=◌, List}
use mstun.Extern.Channel.{Mpsc}
use mstun.Core.Message.{Message}
use mstun.Core.Attributes.SocketAddr.{SocketAddr, v4, v6}
use mstun.Core.Transport.{IoError}
use mstun.Core.Transport.Pool.{ConnectionPool, setup_connection_pool}
use mstun.Core.Transport.Tcp.{or_failed}

-- `ServerName::IpAddress(remote_addr.ip().into())`: the octets of the address.
abbrev pub server_name : SocketAddr → List ℕ
server_name (v4 octets port) = octets
server_name (v6 octets port flowinfo scope_id) = octets

module _ {K T L : Type 0} (connect : K → SocketAddr → Option T)
    (tls_connect : List ℕ → T → Option L) where
  -- `TlsStreamFactory::new_connected_stream`
  unfoldable pub new_connected_stream : Option K → SocketAddr → Outcome IoError L
  new_connected_stream made remote_addr = do
    socket ← or_failed made
    stream ← or_failed (connect socket remote_addr)
    or_failed (tls_connect (server_name remote_addr) stream)

-- `setup_tls`
unfoldable pub setup_tls :
    {S I : Type 0}
    → Mpsc S Message
    → Mpsc I (Message × SocketAddr)
    → ℕ
    → ℕ
    → Outcome IoError (ConnectionPool S I)
unfolding setup_connection_pool
setup_tls mpsc ingress max_outstanding_requests connection_keep_alive =
    setup_connection_pool mpsc ingress max_outstanding_requests connection_keep_alive
