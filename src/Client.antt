-- ===== src/Client.antt =====
-- stunny-client/src/error.rs: `TransactionError`, and the modules of the client.
pub mod Rto
pub mod Dns
pub mod Manager
pub mod Interface
pub mod Processor
use mstun.Base.{ℕ}

-- `TransactionError`; what an `io::Error` holds is not kept.
pub data TransactionError : Type 0 where
  timeout channel_closed : TransactionError
  method_mismatch : (request_method : ℕ) → (response_method : ℕ) → TransactionError
  io : TransactionError
