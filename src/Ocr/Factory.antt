-- ===== src/Ocr/Factory.antt =====
-- internal/ocr/factory.go: `NewEngine`.
use invoice_ocr_poc.Base.{◌||◌, if◌then◌else◌}
use invoice_ocr_poc.Strings.{Text, codes, same_text, to_lower, trim_space}
use invoice_ocr_poc.Ocr.Tesseract.{Tesseract, new_tesseract}
use invoice_ocr_poc.Ocr.Ollama.{Ollama, new_ollama}
use invoice_ocr_poc.Ocr.Vision.{OpenRouter, new_open_router}

-- The engines behind the interface.
pub data Engine : Type 0 where
  tesseract : Tesseract → Engine
  ollama : Ollama → Engine
  open_router : OpenRouter → Engine

-- `EngineOptions`, with the options of the engines.
pub record EngineOptions : Type 0 where
  pub name : Text
  pub or_base_url : Text
  pub or_api_key : Text
  pub or_model : Text
  pub ollama_base_url : Text
  pub ollama_model : Text
  pub tess_lang : Text

abbrev by_name : EngineOptions → Text → Engine
by_name opts name =
    if same_text name (codes "tesseract")
    then tesseract (new_tesseract opts.tess_lang)
    else if same_text name (codes "ollama") || same_text name (codes "glm-ocr")
    then ollama (new_ollama opts.ollama_base_url opts.ollama_model)
    else open_router (new_open_router opts.or_base_url opts.or_api_key opts.or_model)

unfoldable pub new_engine : EngineOptions → Engine
unfolding same_text to_lower trim_space new_tesseract new_ollama new_open_router
new_engine opts = by_name opts (to_lower (trim_space opts.name))
