-- ===== src/Decisions.antt =====
-- candidates/decisions.py: the append-only ledger of human decisions.
pub mod Ledger
pub mod Compensation
pub mod Scope
pub mod Ancestry
pub mod Append
pub mod Rows
pub mod Undo
pub mod Invariant
pub mod History
pub mod Ownership
pub mod Lineage
pub mod Context
