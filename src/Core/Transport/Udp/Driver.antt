-- ===== src/Core/Transport/Udp/Driver.antt =====
-- stunny-core/src/transport/udp.rs: `setup_udp`, and `IoDriver::run`, which joins the two futures.
use mstun.Base.{
  ℕ, ◌≤◌, ◌≡◌, refl, ap, ◌∙◌, Bool, true, false, List, [], ◌++◌, none, Outcome, ok, ◌>>=◌, expect,
  length, take, All,
}
use mstun.Extern.Buf.{SliceBuf}
use mstun.Extern.BufMut.{SliceMut}
use mstun.Extern.Bitvec.{Bitvec}
use mstun.Extern.Channel.{Mpsc, Sender}
use mstun.Core.Message.{Message}
use mstun.Core.Attributes.SocketAddr.{SocketAddr}
use mstun.Core.Transport.{IoError}
use mstun.Core.Transport.Udp.{
  Poll, pending, failed, Received, SendResult, World, ingress_poll, egress_poll,
}
use mstun.Core.Transport.Udp.Codec.{IsEncodable}
use mstun.Core.Transport.Udp.Receiving.{AreBytes, ending, decoded, ingress_poll-decoded}
use mstun.Core.Transport.Udp.Sending.{datagrams, egress_poll-datagrams}

-- The two futures of `IoDriver::run`: what the socket will answer to reads and the channel for
-- messages, and the future of `Egress` with what its polls will be answered.
pub record IoDriver (S : Type 0) : Type 0 where
  pub received : List Received
  pub ingress_sender : S
  pub world : World

-- `setup_udp`: the sender of outgoing messages, and that of the driver.
unfoldable pub setup_udp :
    {E S : Type 0}
    → Mpsc E (Message × SocketAddr)
    → Mpsc S (Message × SocketAddr)
    → ℕ
    → Outcome IoError (E × S)
setup_udp egress ingress max_outstanding_requests = do
  ingress_sender ← expect (ingress.channel max_outstanding_requests)
  egress_sender ← expect (egress.channel max_outstanding_requests)
  ok (egress_sender, ingress_sender)

-- The futures as `IoDriver::run` makes them.
unfoldable pub start :
    {S : Type 0}
    → S
    → List Received
    → List (Message × SocketAddr)
    → Bool
    → List SendResult
    → IoDriver S
start ingress_sender received source source_closed sends = record {
  received = received;
  ingress_sender = ingress_sender;
  world = record {
    egress = record { buffer = []; pos = 0; pending_recipient = none };
    source = source;
    source_closed = source_closed;
    sends = sends;
    wire = [];
  };
}

module _ {A B W S : Type 0} (bits : Bitvec A) (slice : SliceBuf B) (slice_mut : SliceMut W)
    (channel : Sender S (Message × SocketAddr)) where
  open channel use {queued, room, is_closed}

  abbrev pub Polled : Type 0
  Polled = Outcome IoError (Poll × IoDriver S)

  -- `rest` is the other future, which is polled unless this one has failed.
  abbrev pub poll_ingress : (IoDriver S → Polled) → IoDriver S → Polled
  poll_ingress rest driver = do
    (poll, sink) ← ingress_poll bits slice channel driver.received driver.ingress_sender
    let polled : IoDriver S = record driver { received = []; ingress_sender = sink }
    elim poll [ failed e ↦ ok (failed e, polled) | pending ↦ rest polled ]

  abbrev pub poll_egress : (IoDriver S → Polled) → IoDriver S → Polled
  poll_egress rest driver = do
    (poll, world) ← egress_poll bits slice_mut driver.world
    let polled : IoDriver S = record driver { world = world }
    elim poll [ failed e ↦ ok (failed e, polled) | pending ↦ rest polled ]

  abbrev pub both_pending : IoDriver S → Polled
  both_pending driver = ok (pending, driver)

  -- A poll of `try_join!`, which polls one or the other future first.
  unfoldable pub driver_poll : Bool → IoDriver S → Polled
  driver_poll true driver = poll_ingress (poll_egress both_pending) driver
  driver_poll false driver = poll_egress (poll_ingress both_pending) driver

  -- A poll of the driver as it starts, whichever future it polls first: while the application
  -- holds its ends of both channels, the socket reports no error of reading, and it has an answer
  -- for every datagram, so that writing never has to wait, all datagrams are read and the messages
  -- that decode are queued, in order and as far as there is room; the datagram of each message
  -- that fits 1500 bytes is handed to the socket, in order; and the driver goes on. The messages'
  -- attributes can be encoded.
  pub driver_poll-serves :
      (first : Bool) (sink : S) (received : List Received) (source : List (Message × SocketAddr))
      (sends : List SendResult) (n : ℕ)
      → All AreBytes received
      → ending received ≡ pending
      → is_closed sink ≡ false
      → room sink ≡ n
      → All (λ p. IsEncodable p.0) source
      → length (datagrams source) ≤ length sends
      → (driver : IoDriver S) × (driver_poll first (start sink received source false sends)
          ≡ ok (pending, driver))
        × (queued driver.ingress_sender
            ≡ queued sink ++ take n (decoded bits slice channel received))
        × (driver.world.wire ≡ datagrams source)
  unfolding driver_poll start
  driver_poll-serves first sink received source sends n hb quiet open_s free enc enough =
      let (t, p, q) = ingress_poll-decoded bits slice channel received sink n hb open_s free in
      let (w, p', q') =
        egress_poll-datagrams bits slice_mut (start sink received source false sends).world refl enc
          enough in
      let served : IoDriver S = record { received = []; ingress_sender = t; world = w } in
      (served, by_order first t w (p ∙ ap (λ e. ok (e, t)) quiet) p', q, q')
    where
      by_order :
          (first : Bool) (t : S) (w : World)
          → ingress_poll bits slice channel received sink ≡ ok (pending, t)
          → egress_poll bits slice_mut (start sink received source false sends).world
            ≡ ok (pending, w)
          → driver_poll first (start sink received source false sends)
            ≡ ok (pending, record { received = []; ingress_sender = t; world = w })
      by_order true t w p p' = rw (driver_poll, p, p') refl
      by_order false t w p p' = rw (driver_poll, p', p) refl
