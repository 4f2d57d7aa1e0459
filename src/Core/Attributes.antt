-- ===== src/Core/Attributes.antt =====
-- stunny-core/src/attributes.rs: attributes, their values in bytes, and lists of them.
pub mod SocketAddr
pub mod ErrorCode
pub mod Collection
use mstun.Base.{ℕ, ◌++◌, List, [], ◌∷◌, Outcome, ok, err, map_err}
use mstun.Core.Message.{Tlv}

-- The errors inside a `ParseError`; the attribute's name, which goes into the text, is not kept.
pub data ParseError : Type 0 where
  buffer_too_short incorrect_prefix not_enough_for_ipv4 not_enough_for_ipv6 : ParseError
  unexpected_ip_version : ℕ → ParseError
  nonzero_prefix invalid_utf8 : ParseError
  invalid_error_class invalid_error_number : ℕ → ParseError

-- `trait Attribute`, for the attribute type `A`.
pub record Attribute (A : Type 0) : Type 0 where
  pub id : ℕ
  pub encode_value : A → List ℕ
  pub decode_value : List ℕ → Outcome ParseError A

pub data LookupError : Type 0 where
  not_found : ℕ → LookupError
  malformed : ParseError → LookupError
