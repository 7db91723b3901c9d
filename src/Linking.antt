-- ===== src/Linking.antt =====
-- linking/: which proposed links between objects are admissible.
pub mod Mappings
