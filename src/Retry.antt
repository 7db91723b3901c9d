-- ===== src/Retry.antt =====
-- adapters/retry.py: the bounded retry loop, and the bounded reading and decoding of a response.
pub mod Reading
pub mod Loop
