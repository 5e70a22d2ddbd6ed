-- ===== src/Partition.antt =====
-- src/fdw/partition.rs: Hive partition values in blob paths.
pub mod Path
pub mod Datum
pub mod Prune
