-- ===== src/Options.antt =====
-- src/fdw/options.rs: the options of servers, user mappings and tables.
pub mod PartitionType
pub mod Names
pub mod Server
pub mod Table
pub mod Container
pub mod Laws
