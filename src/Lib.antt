-- ===== src/Lib.antt =====
-- parquet_azure_fdw: a Postgres foreign data wrapper for parquet blobs in Azure storage.
--
-- A foreign table names a container and a blob pattern. A scan (src/fdw/scan.rs) lists the blobs,
-- publishes the list with its etags for a modify node over the same relation
-- (src/fdw/modify/scan_handoff.rs), streams the rows blob by blob and stamps a synthetic ctid on
-- each (src/fdw/modify/rowid.rs). UPDATE and DELETE take the published list, lay out a table of
-- chunks for it and resolve the ctids that the executor hands back to a blob and a row
-- (src/fdw/modify/update.rs), gather the edits of each blob and, at the end, rewrite every edited blob
-- into a staging blob (src/fdw/modify/kernel.rs) and swap them in under the etags of the scan
-- (src/azure/mod.rs); the staging blobs of a transaction that aborts are swept
-- (src/fdw/modify/coordinator.rs). INSERT into a partitioned table writes the partition values into the
-- blob's name (src/fdw/modify/insert.rs), from which later scans read them (src/fdw/partition.rs).
-- Quals are pushed into the scan, where the statistics of a row group rule it out
-- (src/fdw/pushdown.rs, src/fdw/pushdown_walk.rs). In a parallel scan the blobs are handed out to
-- the workers through a segment of shared memory (src/fdw/parallel.rs). The options of servers and
-- tables are checked when they are declared (src/fdw/options.rs).
--
-- The files and the code:
--   Error        src/error.rs: FdwError, FdwResult and its chaining; messages are left out;
--                Exec for fallible calls that change a state
--   Azure        src/azure/mod.rs: the conditional requests of the client, over a service
--   Options      src/fdw/options.rs: Names for the validators and small parsers (with
--                src/parquet_io/writer.rs), Server (with src/azure/auth.rs) and Table for the lists,
--                PartitionType for the types of partition keys
--   Partition    Path for partition_values_from_path of src/fdw/partition.rs, Datum for
--                parse_text_to_datum of src/convert/arrow_to_pg.rs, Prune for the splitting of quals and
--                their evaluation against the partition values
--   Insert       Target for the blob names of src/fdw/modify/insert.rs, src/azure/writer.rs and
--                src/convert/partition_datum.rs; Walk and RoundTrip for their reading
--   Modify       RowId for src/fdw/modify/rowid.rs, BlobTable for the chunk table of build_plan and
--                resolve_to_source of src/fdw/modify/update.rs, Handoff for
--                src/fdw/modify/scan_handoff.rs, Kernel for src/fdw/modify/kernel.rs over an interface
--                of arrow, Edits for record_delete, record_update and their callers, Commit for
--                commit_plan (src/fdw/modify/update.rs), Coordinator for
--                src/fdw/modify/coordinator.rs
--   Scan         src/fdw/scan.rs: State for ScanState and one turn of next_row's loop, Row for the
--                loop, register_chunk_if_boundary, iterate_foreign_scan and re_scan_foreign_scan;
--                Invariant, Register, Keeps, Turns, Agreement, Distinct, Resolving and Stamps for the
--                invariant and what follows of it, Total for the loop's end
--   Merge        src/parquet_io/multifile.rs: the merge of sorted streams; Conservation for the rows
--                that are given out, Ascending for their order, Exhaustion for its end, Turn for
--                what a successful call went through
--   Parallel     src/fdw/parallel.rs: the shared segment; Layout for its bytes, Cursor for the calls
--                of the workers
--   Pushdown     Expr for the quals, Prune for the pruning of row groups, Truth for the
--                specification in SQL's logic, Order for the comparisons; Sound, Groups, Invert and
--                Like for the laws
--   ImportSchema src/fdw/import_schema.rs: the grouping of blobs and the statements that create
--                tables; Quoting, Grouping, Directories, Claims and Tables for their
--                laws
--   Tests        the theorems at concrete inputs
--
-- Conventions. A Rust string is the list of its UTF-8 bytes, a machine integer a number with its
-- wrap-around written out, a `Result` an FdwResult. Shared state is passed as a value. What is not
-- code of the repository is a parameter: the stream of batches that the parquet reader gives for a
-- blob under the scan's filter (open_blob), the row count of a blob (blob_row_count), the reading
-- of a date (date_to_pg), the comparison of floats, the check of UTF-8,
-- the arrays of arrow (Modify.Kernel.Arrow), the blob service (Azure.BlobService) and the readers and
-- writers of parquet files (Modify.Commit.Parquet). The loop of next_row
-- runs on fuel: one turn for each blob that is left and for each batch of the streams, and one
-- more; no other turn can go on (Scan.Row.work counts them).
--
-- Not modelled: the calls of Postgres, of the Azure SDK and of arrow's kernels, the conversion of
-- values between arrow and Postgres, the use of the merge by sorted scans, the start of workers, other writers between two calls of one
-- commit, the inference of columns and the redaction of messages.
pub mod Prelude
pub mod Error
pub mod Azure
pub mod Options
pub mod Partition
pub mod Insert
pub mod Modify
pub mod Scan
pub mod Merge
pub mod Parallel
pub mod Pushdown
pub mod ImportSchema
pub mod Tests
