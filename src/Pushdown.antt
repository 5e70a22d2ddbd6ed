-- ===== src/Pushdown.antt =====
-- The pushdown of quals: src/fdw/pushdown.rs and src/fdw/pushdown_walk.rs.
pub mod Order
pub mod Expr
pub mod Prune
pub mod Truth
pub mod Sound
pub mod Groups
pub mod Invert
pub mod Like
