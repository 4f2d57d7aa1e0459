-- ===== src/Tests.antt =====
-- The theorems at concrete inputs, with the buffers and channels of Extern/Concrete.
mod Core
mod Udp
mod Streams
mod Connection
mod Vectors
mod Client
mod Runs
mod Server
mod Pool
mod Interface
mod Exchange
use mstun.Base.{ℕ, Bool, true, false, ◌&&◌, ltb, List, [], ◌∷◌, ◌++◌, ◌≡◌, refl, arith, All}
use mstun.Base.Words.{IsByte}
use mstun.Core.Message.{Tlv, Header, Message, Class}
use mstun.Core.Attributes.SocketAddr.{SocketAddr, v4}

abbrev pub are_bytes : List ℕ → Bool
are_bytes [] = true
are_bytes (x ∷ xs) = ltb x 256 && are_bytes xs

pub are_bytes-All : (xs : List ℕ) → are_bytes xs ≡ true → All IsByte xs
are_bytes-All [] h = tt
are_bytes-All (x ∷ xs) h = (ground arith, are_bytes-All xs (ground arith))

abbrev pub id : List ℕ
id = 1 ∷ 2 ∷ 3 ∷ 4 ∷ 5 ∷ 6 ∷ 7 ∷ 8 ∷ 9 ∷ 10 ∷ 11 ∷ 12 ∷ []

-- SOFTWARE, "abc"
abbrev pub software_tlv : Tlv
software_tlv = record { attribute_type = 0x8022; value = 97 ∷ 98 ∷ 99 ∷ [] }

abbrev pub response_header : Header
response_header = record { method = 1; class = Class.response; transaction_id = id; length = 8 }

abbrev pub response_message : Message
response_message = record { header = response_header; attributes = software_tlv ∷ [] }

-- 1.2.3.4:5349
abbrev pub address : SocketAddr
address = v4 (1 ∷ 2 ∷ 3 ∷ 4 ∷ []) 5349
