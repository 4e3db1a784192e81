-- ===== src/Store.antt =====
-- Package internal/store: the invoice row (models.go), the serialised writes (store.go) and the
-- batch operations (postgres.go).
pub mod Invoice
pub mod Db
pub mod Writes
pub mod Opening
pub mod Batches
pub mod Persistence
