-- ===== src/Extern.antt =====
-- The crates that the repository calls and does not contain, as interfaces: operations, and the
-- documented behaviour that the code relies on. `none` is a panic.
pub mod Buf
pub mod BufMut
pub mod Bitvec
pub mod Channel
pub mod Semaphore
pub mod Concrete
