-- ===== src/Client/Dns.antt =====
-- stunny-client/src/dns.rs. A text is the list of its bytes; `tokio::net::lookup_host` is a
-- parameter, which returns none for an `io::Error`.
pub mod Numbers
pub mod Ports
use mstun.Base.{
  ℕ, ◌+◌, ◌-◌, ◌*◌, Bool, true, false, ◌&&◌, List, [], ◌∷◌, ◌++◌, Option, none, some, ltb, leb,
  ◌==◌, if◌then◌else◌,
}
use mstun.Core.Attributes.SocketAddr.{SocketAddr}

-- The `io::Error`s: `InvalidData`, what the lookup reports, and `HostUnreachable`.
pub data ResolveError : Type 0 where
  prefix_missing lookup_failed host_unreachable : ResolveError

pub data Resolved : Type 0 where
  found : List SocketAddr → Resolved
  failed : ResolveError → Resolved

-- "stun:"
abbrev pub uri_prefix : List ℕ
uri_prefix = b's' ∷ b't' ∷ b'u' ∷ b'n' ∷ b':' ∷ []

-- "stuns:"
abbrev pub uri_secure_prefix : List ℕ
uri_secure_prefix = b's' ∷ b't' ∷ b'u' ∷ b'n' ∷ b's' ∷ b':' ∷ []

-- `str::strip_prefix`
abbrev pub strip_prefix : List ℕ → List ℕ → Option (List ℕ)
strip_prefix [] text = some text
strip_prefix (p ∷ prefix) [] = none
strip_prefix (p ∷ prefix) (c ∷ text) = if p == c then strip_prefix prefix text else none

-- What stands behind the last `mark`, if there is one: the second part of `rsplit_once`.
abbrev pub behind_first : Option (List ℕ) → Bool → List ℕ → Option (List ℕ)
behind_first (some port) here text = some port
behind_first none true text = some text
behind_first none false text = none

abbrev pub behind_last : ℕ → List ℕ → Option (List ℕ)
behind_last mark [] = none
behind_last mark (c ∷ text) = behind_first (behind_last mark text) (c == mark) text

-- The digits of `str::parse::<u16>`, from `n` on: none on another byte or on overflow.
abbrev pub parse_digits : ℕ → List ℕ → Option ℕ
parse_digits n [] = some n
parse_digits n (c ∷ text) =
    if leb b'0' c && leb c b'9' && ltb (n * 10 + (c - b'0')) 65536
    then parse_digits (n * 10 + (c - b'0')) text
    else none

-- `str::parse::<u16>`: one digit or more, behind a sign `+` if there is one.
abbrev pub parse_u16 : List ℕ → Option ℕ
parse_u16 [] = none
parse_u16 (c ∷ []) = if c == b'+' then none else parse_digits 0 (c ∷ [])
parse_u16 (c ∷ d ∷ text) =
    if c == b'+' then parse_digits 0 (d ∷ text) else parse_digits 0 (c ∷ d ∷ text)

abbrev pub is_some {ℓ} : {A : Type ℓ} → Option A → Bool
is_some none = false
is_some (some a) = true

abbrev pub port_of : Option (List ℕ) → Option ℕ
port_of none = none
port_of (some port) = parse_u16 port

unfoldable pub has_port : List ℕ → Bool
has_port uri = is_some (port_of (behind_last b':' uri))

-- The name that is looked up.
unfoldable pub with_port : List ℕ → List ℕ → List ℕ
unfolding has_port
with_port default uri = if has_port uri then uri else uri ++ b':' ∷ default

-- What the lookup's result is returned as.
abbrev pub reachable : Option (List SocketAddr) → Resolved
reachable none = failed lookup_failed
reachable (some []) = failed host_unreachable
reachable (some (addr ∷ addrs)) = found (addr ∷ addrs)

module _ (lookup_host : List ℕ → Option (List SocketAddr)) where
  -- The rest of `resolve_uri` and `resolve_secure_uri`, behind the prefix.
  abbrev pub resolve_stripped : List ℕ → Option (List ℕ) → Resolved
  resolve_stripped default none = failed prefix_missing
  resolve_stripped default (some uri) = reachable (lookup_host (with_port default uri))

  -- The default port is 3478.
  unfoldable pub resolve_uri : List ℕ → Resolved
  unfolding with_port
  resolve_uri uri = resolve_stripped (b'3' ∷ b'4' ∷ b'7' ∷ b'8' ∷ []) (strip_prefix uri_prefix uri)

  -- The default port is 5349.
  unfoldable pub resolve_secure_uri : List ℕ → Resolved
  unfolding with_port
  resolve_secure_uri uri =
      resolve_stripped (b'5' ∷ b'3' ∷ b'4' ∷ b'9' ∷ []) (strip_prefix uri_secure_prefix uri)
