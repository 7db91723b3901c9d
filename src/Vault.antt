-- ===== src/Vault.antt =====
-- vault/format.py: the encrypted vault object, a header, a canonical descriptor and a sequence of
-- authenticated records.
pub mod Bytes
pub mod Descriptor
pub mod Stream
pub mod Write
pub mod Read
pub mod RoundTrip
pub mod Safety
