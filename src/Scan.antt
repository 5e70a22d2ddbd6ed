-- ===== src/Scan.antt =====
-- The scan: src/fdw/scan.rs.
pub mod State
pub mod Row
pub mod Total
pub mod Register
pub mod Invariant
pub mod Keeps
pub mod Turns
pub mod Agreement
pub mod Distinct
pub mod Resolving
pub mod Stamps
