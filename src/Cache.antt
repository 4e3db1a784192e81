-- ===== src/Cache.antt =====
-- Package internal/cache: the contract of the OCR result cache (cache.go) and the cache in memory
-- (ocr.go).
pub mod Entry
pub mod Memory
pub mod Redis
