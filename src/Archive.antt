-- ===== src/Archive.antt =====
-- archive/jira/selector.py: which Jira issues belong to an archive, and what of them is kept.
pub mod Metadata
pub mod Assignments
