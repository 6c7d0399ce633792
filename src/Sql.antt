-- ===== src/Sql.antt =====
-- What the repositories use of database/sql, sqlite and squirrel: statements and queries with their
-- parameters in place, the rows that a query gives and how Rows.Scan fills the fields of a record.
-- The database itself, and the raft log that writes go through, are parameters.
pub mod Values
pub mod Reads
pub mod Fields
pub mod Scans
pub mod Outcomes
unfoldable pub use Values.*
unfoldable pub use Reads.*
