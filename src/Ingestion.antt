-- ===== src/Ingestion.antt =====
-- apps/api/app/services/transactions.py: a payment event is preserved, resolved to entities and
-- stored as a transaction, or marked as failed.
pub mod Domain
pub mod Session
pub mod Upserts
pub mod Edges
pub mod Rows
pub mod Ingest
pub mod Triples
pub mod Holding
pub mod Store
pub mod Marking
pub mod Normalized
pub mod Ends
pub mod Runs
pub mod Total
pub mod Returns
pub mod Liveness
mod Tests
