-- ===== src/Decisions/Undo.antt =====
-- What an undo event does to the compensation map and to the active stream.
pub mod Canceled
pub mod Inversion
pub mod First
pub mod Removal
