-- ===== src/Tests.antt =====
-- Concrete runs of the models, and each theorem at an input that exercises the code.
mod Decisions
mod Vault
mod Sources
mod Server
mod Cursors
mod Projector
mod Archive
mod Packets
mod Linking
mod Listing
