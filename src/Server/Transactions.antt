-- ===== src/Server/Transactions.antt =====
-- stunny-server/src/transactions.rs. A request's `response_sink` is a clone of the transport's
-- channel, whose state is passed on beside the request instead.
pub mod Errors
use mstun.Base.{
  ℕ, Bool, true, false, List, [], ◌∷◌, Option, none, some, Outcome, ok, err, panic, if◌then◌else◌,
}
use mstun.Extern.Channel.{AsyncSender}
use mstun.Core.Message.{Tlv, Message, Class, new_response, new_error}
use mstun.Core.Message.Xor.{xor_socket_addr}
use mstun.Core.Attributes.{Attribute}
use mstun.Core.Attributes.Collection.{append_attribute}
use mstun.Core.Attributes.SocketAddr.{SocketAddr}
use mstun.Server.{TransactionError, channel_closed}

-- `XorMappedAddress::ID`
abbrev pub xor_mapped_address_id : ℕ
xor_mapped_address_id = 0x0020

pub record Request : Type 0 where
  pub source_addr : SocketAddr
  pub transaction_id : List ℕ
  pub method : ℕ
  pub attributes : List Tlv

pub record Response : Type 0 where
  pub request : Request
  pub attributes : List Tlv

abbrev pub is_request : Class → Bool
is_request Class.request = true
is_request _ = false

-- `Request::new`, behind its assertion
unfoldable pub new : Message × SocketAddr → Outcome TransactionError Request
new (message, source_addr) =
    let message' = xor_socket_addr xor_mapped_address_id message in
    if is_request message.header.class
    then ok (record {
      source_addr = source_addr;
      transaction_id = message'.header.transaction_id;
      method = message'.header.method;
      attributes = message'.attributes;
    })
    else panic

unfoldable pub build_response : Request → Response
build_response request = record { request = request; attributes = [] }

unfoldable pub with_attribute : {A : Type 0} → Attribute A → A → Response → Response
with_attribute attribute a response = record response {
  attributes = append_attribute attribute response.attributes a;
}

-- `Poll<Option<Request>>`
pub data Polled : Type 0 where
  pending finished : Polled
  ready : Outcome TransactionError Request → List (Message × SocketAddr) → Polled

-- `RequestReceiver::poll_next`: the messages that wait, and whether the channel is closed behind
-- them; the messages that are left stay with a request.
unfoldable pub poll_next : Bool → List (Message × SocketAddr) → Polled
unfolding new
poll_next is_closed [] = if is_closed then finished else pending
poll_next is_closed ((message, addr) ∷ messages) =
    let later = poll_next is_closed messages in
    if is_request message.header.class then ready (new (message, addr)) messages else later

module _ {S : Type 0} (egress : AsyncSender S (Message × SocketAddr)) where
  -- `response_sink.send(..).await?`
  abbrev pub sent_or_closed : Option S → Outcome TransactionError S
  sent_or_closed none = err channel_closed
  sent_or_closed (some sink) = ok sink

  unfoldable pub send : Response → S → Outcome TransactionError S
  send response sink =
      let response_message = xor_socket_addr xor_mapped_address_id (
        new_response response.request.method response.request.transaction_id response.attributes) in
      sent_or_closed (egress.send (response_message, response.request.source_addr) sink)

  unfoldable pub send_error : Response → S → Outcome TransactionError S
  send_error response sink =
      let response_message =
        new_error response.request.method response.request.transaction_id response.attributes in
      sent_or_closed (egress.send (response_message, response.request.source_addr) sink)
