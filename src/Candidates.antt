-- ===== src/Candidates.antt =====
-- candidates/builder.py: the candidate groups that a rebuild derives from the current observations.
pub mod Objects
pub mod Search
pub mod Groups
pub mod Projector
