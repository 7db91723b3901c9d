-- ===== src/Packets.antt =====
-- packets/: what the evidence of a contribution supports.
pub mod Kinds
pub mod Release
pub mod Periods
pub mod Activity
