-- ===== src/Lib.antt =====
-- stunny: STUN messages (RFC 8489), transports over UDP, TCP and TLS, and a client and a server of
-- STUN transactions, in three Rust crates. A transport turns datagrams into messages, and passes
-- them on through channels of tokio; the client's manager matches responses with the requests that wait for them,
-- and retransmits these by a policy; the server's processor gives each request to the handler of
-- its method.
--
--   Base            lists, results, bytes and words that all models share
--   Extern          what the code uses of `bytes`, `bitvec` and tokio's channels, as records of
--                   operations and laws, which the models take as parameters; Extern/Concrete
--                   has values of each
--   Core/Message    stunny-core/src/message.rs: data and length; HeaderCodec and TlvCodec are
--                   `decode_from` and `encode_into` of a header and of attributes, Xor is
--                   `xor_socket_addr`, and Xor/Masks sets it beside the layout of an address
--   Core/Attributes stunny-core/src/attributes.rs: SocketAddr, ErrorCode, and Collection for
--                   `append_attribute` and `extract_attribute`
--   Core/Transport  stunny-core/src/transport/udp.rs: one poll of `Ingress` (`ingress_poll`) and of
--                   `Egress` (`egress_poll`), over lists of what the socket and the channels answer,
--                   and Udp/Driver for `setup_udp` and the driver that joins them;
--                   Transport/ConnectionPool has the two loops that serve a connected stream of
--                   stunny-core/src/transport/connection_pool.rs, and Transport/Pool the
--                   pool's `run` over events, and `detect_inactivity`; Transport/Tcp and Tls make
--                   the streams (tcp.rs and tls.rs beside it); Transport/Connection is `run_connection`
--                   poll by poll: its ReadLoop and WriteLoop are a poll of `process_ingress` and of
--                   `process_egress`, and Join is a poll of the three futures and what happens
--                   between polls; Chunks and Resume set a poll beside reading the whole stream,
--                   Wire and Deadlines are about one poll of a loop, Sound, Activity, Lifetime, Idle,
--                   ReadPolls, Reads and Writes about the three futures together (by Polls), and
--                   Pipe about two connections; Transport/Testutils has the data of the repository's tests
--   Client/Rto      stunny-client/src/rto.rs: the retransmission policies
--   Client/Manager  stunny-client/src/manager.rs: the manager's state and its handlers;
--                   Rounds and Timeouts are about one call of `handle_timeouts`, Expiry about a
--                   chain of calls
--   Client/Dns      stunny-client/src/dns.rs: prefixes, ports and the lookup of a URI; Numbers has
--                   what a port is, beside the code
--   Client/Interface stunny-client/src/interface.rs: requests to the addresses of a URI, and
--                   (Slots) calls of `send_request` side by side as a step relation
--   Client/Processor stunny-client/src/lib.rs: the select of `Processor::run` as a list of events,
--                   and (Setup) `setup_transactions`
--   Server          stunny-server/src/transactions.rs and processor.rs: requests, responses, the
--                   handlers, and `run` over what waits in the transport's channel; Processor/Lookup
--                   has which handler serves a request, beside the code, and Processor/Tasks the
--                   tasks that it spawns as a step relation
--   Exchange        a binding request and its answer, from the client's manager through the codec to
--                   the server's processor and back
--   Tests           the theorems at concrete inputs; Vectors has what the repository's tests check
--
-- A call comes to `ok`, `err`, `panic` or `stuck`; the last is a loop without fuel. `&mut` arguments
-- are passed in and returned. Bytes and words are natural numbers with their range stated where it
-- matters, and wrap-around and casts are written out; `usize` has 64 bits. Times are nanoseconds,
-- without an upper bound on an `Instant`. Overflow panics, as in debug builds.
--
-- Fuel: `egress_poll` gets one round for each message and result that waits and one more;
-- `decode_tlvs` one for each byte; the server's `run` one for each message. `process_ingress` takes
-- it as an argument, one for each message that comes in; so does `handle_timeouts`, where one more
-- than the timeouts that the outstanding requests can still have is enough.
--
-- A poll of a connection's reading loop gets one for each byte at hand and four more, of its writing
-- loop two for each message and two more. The clock stands still during a poll.
--
-- Readings of the clock and random ids are arguments of the handlers. A handler's `await` on a
-- channel is the send that it comes to. The heap is a list, from which an element with the least
-- time is taken; the map is an association list. A oneshot sender is a number, and the manager
-- keeps a list of what was sent through each.
--
-- Not modelled: logging, sockets and TLS themselves, which the sources only call, and the
-- runtime that polls the tasks.
pub mod Base
pub mod Exchange
pub mod Extern
pub mod Core
pub mod Client
pub mod Server
pub mod Tests
