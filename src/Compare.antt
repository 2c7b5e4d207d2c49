-- ===== src/Compare.antt =====
-- pkg/lib/compare: the comparison of an expected JSON document with an actual one.
pub mod Types
pub mod Control
pub mod Checks
pub mod Arrays
pub mod Objects
pub mod Equal
