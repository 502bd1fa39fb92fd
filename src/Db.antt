-- ===== src/Db.antt =====
-- internal/db: the column types (types.go), transactions (tx.go) and the parsing of a UUID.
pub mod Types
pub mod Tx
pub mod Parse
pub mod Equality
pub mod Triples
pub mod Transactions
pub mod Attempts
pub mod Outcomes
