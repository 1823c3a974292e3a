-- ===== src/Database.antt =====
-- internal/store/store.go: the run database, an SQLite file that the commands share.
-- Of SQLite it is modelled what the code relies on: primary keys, NOT NULL, foreign keys, one
-- statement at a time. Legacy files, which `ensureSchema` alters, and failures of the disk are not.
pub mod Structs
pub mod Rows
pub mod Engine
pub mod Runs
pub mod Inserts
pub mod Reads
pub mod Session
pub mod Integrity
pub mod Sound
mod Schema
pub mod Refused
mod Lookup
mod Latest
pub mod Report
mod Samples
