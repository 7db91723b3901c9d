-- ===== src/Vault/Safety.antt =====
-- What the reader releases and hashes, and its fuel, on any source whatever.
pub mod Release
pub mod Coverage
