-- ===== src/Tests/Interface.antt =====
-- The senders of the client.
use mstun.Base.{
  ℕ, zero, suc, ◌+◌, ◌≤◌, ◌≡◌, ◌≢◌, refl, List, [], ◌∷◌, ◌++◌, Option, some, none, err, false,
}
use mstun.Extern.Concrete.{Queue, queue_async}
use mstun.Extern.Concrete.Counters.{counter, take_permit, open_async}
use mstun.Core.Attributes.SocketAddr.{SocketAddr}
use mstun.Client.{io}
use mstun.Client.Dns.{
  uri_prefix, uri_secure_prefix, failed, prefix_missing, resolve_uri, resolve_secure_uri, found,
}
use mstun.Client.Dns.Ports.{plain_port, IsFound, resolve_uri-found}
use mstun.Client.Manager.{Request, Answer}
use mstun.Client.Interface.{Channels, send_request_to_addrs, udp_request, tcp_request}
use mstun.Client.Interface.Addresses.{request_to, requests, send_request_to_addrs-answered}
use mstun.Client.Interface.Slots.{
  acquiring, sending, abandoned, Calls, Reach, here, next, called, acquired, sent,
  dropped_receiving, held, unanswered, left_behind, request_slots-Reach,
}
use mstun.Client.Interface.Schemes.{tcp_request_secure}
use mstun.Tests.{software_tlv, address}

-- A host "h" that is found with a port.
abbrev lookup_host : List ℕ → Option (List SocketAddr)
lookup_host name = some (address ∷ [])

abbrev host_uri : List ℕ
host_uri = uri_prefix ++ b'h' ∷ []

host_uri-found : resolve_uri lookup_host host_uri ≡ found (address ∷ [])
unfolding resolve_uri
host_uri-found = refl

resolve_uri-found_example :
    (name : List ℕ) × (host_uri ≡ uri_prefix ++ name)
    × IsFound lookup_host plain_port name (address ∷ [])
    × (address ∷ [] ≢ [])
    × (resolve_secure_uri lookup_host host_uri ≡ failed prefix_missing)
resolve_uri-found_example = resolve_uri-found lookup_host host_uri (address ∷ []) host_uri-found

-- The first address gives no answer, the second one an error.
abbrev second_answers : ℕ → Option Answer
second_answers zero = none
second_answers (suc n) = some (err io)

send_request_to_addrs-answered_example :
    (t : List Request) × (send_request_to_addrs open_async second_answers
        (λ n. 10 + n)
        0
        ((address ∷ []) ++ address ∷ address ∷ [])
        1
        (software_tlv ∷ [])
        []
      ≡ (err io, t))
    × (t
        ≡ ([]
            ++ requests open_async second_answers
                (λ n. 10 + n)
                1
                (software_tlv ∷ [])
                0
                (address ∷ []))
          ++ request_to open_async second_answers (λ n. 10 + n) 1 (software_tlv ∷ []) 1 address
            ∷ [])
send_request_to_addrs-answered_example =
    send_request_to_addrs-answered open_async second_answers (λ n. 10 + n) 1 (software_tlv ∷ [])
      (address ∷ []) address (address ∷ []) [] (λ r s. (s ++ r ∷ [], refl)) (refl, tt) refl

-- One slot: a call whose request is on its way is dropped, and then the first of two calls holds the
-- slot.
abbrev no_calls : Calls counter
no_calls = record { request_slots = 1; phases = [] }

abbrev two_calls : Calls counter
two_calls = record { request_slots = 0; phases = acquiring ∷ sending ∷ abandoned ∷ [] }

two_calls-Reach : Reach counter no_calls two_calls
two_calls-Reach =
    next
      (next
        (next
          (next
            (next (next (next here (called refl)) (acquired [] [] 0 refl refl refl))
              (sent [] [] refl refl))
            (dropped_receiving [] [] refl refl))
          (called refl))
        (acquired [] (abandoned ∷ []) 0 refl refl refl))
      (called refl)

request_slots-Reach_example :
    (held counter two_calls.phases + 0 ≡ 1)
    × (take_permit 0 ≡ none → held counter two_calls.phases ≡ 1)
    × (unanswered counter two_calls.phases ≤ 1 + left_behind counter two_calls.phases)
request_slots-Reach_example =
    request_slots-Reach counter no_calls two_calls 1 refl refl two_calls-Reach

abbrev channels : Channels (Queue Request)
channels = record { udp = ([], 1, false); tcp = ([], 1, false); tls = none }

tcp_request_secure_example :
    (udp_request queue_async lookup_host second_answers
        (λ n. n)
        (uri_secure_prefix ++ b'h' ∷ [])
        1
        []
        channels
      ≡ (err io, channels))
    × ((tcp_request queue_async lookup_host second_answers
          (λ n. n)
          (uri_secure_prefix ++ b'h' ∷ [])
          1
          []
          channels).1.udp
        ≡ ([], 1, false))
    × ((tcp_request queue_async lookup_host second_answers
          (λ n. n)
          (uri_secure_prefix ++ b'h' ∷ [])
          1
          []
          channels).1.tcp
        ≡ ([], 1, false))
    × (channels.tls ≡ none
        → tcp_request queue_async lookup_host second_answers
            (λ n. n)
            (uri_secure_prefix ++ b'h' ∷ [])
            1
            []
            channels
          ≡ (err io, channels))
tcp_request_secure_example =
    tcp_request_secure queue_async lookup_host second_answers (λ n. n) 1 [] (b'h' ∷ []) channels
