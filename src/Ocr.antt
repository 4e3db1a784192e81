-- ===== src/Ocr.antt =====
-- Package internal/ocr: the usage counters (engine.go), the text clean-up (clean.go, and
-- `trimOCRFences` of ollama.go), and the engines (ollama.go, openrouter.go, tesseract.go,
-- tesseract_gosseract.go) with their factory (factory.go).
pub mod Usage
pub mod Clean
pub mod Ollama
pub mod Vision
pub mod Tesseract
pub mod Gosseract
pub mod Factory
pub mod Inspect
