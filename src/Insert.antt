-- ===== src/Insert.antt =====
-- src/fdw/modify/insert.rs: the INSERT path.
pub mod Target
pub mod Walk
pub mod RoundTrip
