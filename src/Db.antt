-- ===== src/Db.antt =====
-- db/: the emulator schema and its repositories.
pub mod Numeric
pub mod Rows
pub mod Values
pub mod Repository
