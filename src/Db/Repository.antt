-- ===== src/Db/Repository.antt =====
-- db/repository.py: every method is one transaction, a function of the database. An exception rolls
-- back, so a failed method has no new database.
pub mod Inserts
pub mod Grading
pub mod Queries
pub mod Ledger
pub mod Consistent
