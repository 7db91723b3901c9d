-- ===== src/Vault/RoundTrip.antt =====
-- What is written against what is read: the records, the descriptor, and the whole object.
pub mod Records
pub mod Head
pub mod Whole
pub mod Codec
pub mod Loops
