-- ===== src/Decisions/Ownership.antt =====
-- Which app a decision belongs to: creation snapshots, and the walk along undo ancestry.
pub mod Related
pub mod Creation
pub mod Ancestry
