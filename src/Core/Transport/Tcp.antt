-- ===== src/Core/Transport/Tcp.antt =====
-- stunny-core/src/transport/tcp.rs: connections over TCP. What the application's `socket_factory`
-- returns is an argument; `TcpSocket::connect` is a parameter, which returns none for an `io::Error`.
use mstun.Base.{ℕ, Option, none, some, Outcome, ok, err, ◌>>=◌}
use mstun.Extern.Channel.{Mpsc}
use mstun.Core.Message.{Message}
use mstun.Core.Attributes.SocketAddr.{SocketAddr}
use mstun.Core.Transport.{IoError, socket_failed}
use mstun.Core.Transport.Pool.{ConnectionPool, setup_connection_pool}

-- The `io::Error` of a call of the operating system.
abbrev pub or_failed : {T : Type 0} → Option T → Outcome IoError T
or_failed none = err socket_failed
or_failed (some t) = ok t

module _ {K T : Type 0} (connect : K → SocketAddr → Option T) where
  -- `TcpStreamFactory::new_connected_stream`
  unfoldable pub new_connected_stream : Option K → SocketAddr → Outcome IoError T
  new_connected_stream made remote_addr = do
    socket ← or_failed made
    or_failed (connect socket remote_addr)

-- `setup_tcp`
unfoldable pub setup_tcp :
    {S I : Type 0}
    → Mpsc S Message
    → Mpsc I (Message × SocketAddr)
    → ℕ
    → ℕ
    → Outcome IoError (ConnectionPool S I)
unfolding setup_connection_pool
setup_tcp mpsc ingress max_outstanding_requests connection_keep_alive =
    setup_connection_pool mpsc ingress max_outstanding_requests connection_keep_alive
