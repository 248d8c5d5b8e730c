-- ===== src/Routing.antt =====
-- The framework layer's routing: src/cweb/router.h and src/cweb/router.cc.
pub mod Split
pub mod Trie
pub mod Router
