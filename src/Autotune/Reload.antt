-- ===== src/Autotune/Reload.antt =====
-- An accepted entry is accepted again, unchanged, when it is read back from a written cache.
pub mod Canonical
pub mod Entry
pub mod Cache
