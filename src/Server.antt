-- ===== src/Server.antt =====
-- stunny-server: the requests of the transport, and the processor that answers them.
pub mod Transactions
pub mod Processor

-- stunny-server/src/error.rs: `TransactionError`
pub data TransactionError : Type 0 where
  channel_closed : TransactionError
