-- ===== src/Httpserver/Health.antt =====
-- internal/httpserver/server.go: `health`, `runtime` and `inspectOllama`; internal/httpserver/cors.go.
-- The answers of the database's ping and of Ollama are arguments.
use invoice_ocr_poc.Base.{
  ℕ, Bool, true, false, not, ◌&&◌, ◌||◌, Option, none, some, [], ◌≡◌, ◌↔◌, Int64, is_empty,
  if◌then◌else◌, arith,
}
use invoice_ocr_poc.Errors.{Error, Result, ok, err}
use invoice_ocr_poc.Ocr.Inspect.{ModelInfo}
use invoice_ocr_poc.Strings.{Text, codes, same_text, to_lower, trim_space}

-- `Deps`, less the service and the store.
pub record Deps : Type 0 where
  pub ocr_available : Option Bool
  pub has_ollama : Bool
  pub has_api_key : Bool
  pub has_openrouter_key : Bool
  pub max_body_bytes : Int64
  pub ocr_name : Text
  pub ollama_model : Text
  pub openrouter_model : Text
  pub openrouter_ocr_model : Text

-- `healthResponse`, with the four checks of its map.
pub record Health : Type 0 where
  pub status : Text
  pub sqlite : Text
  pub ocr : Text
  pub typesafe : Text
  pub openrouter : Text

-- `d.OCR == nil || !d.OCR.Available()` does not hold.
unfoldable pub has_engine : Deps → Bool
has_engine d = elim d.ocr_available [ none ↦ false | some available ↦ available ]

-- The four tests of `health` in their order; each one that fails degrades the status.
abbrev ping_check : Option Error → Health → Health
ping_check none h = h
ping_check (some e) h = record h { sqlite = codes "error"; status = codes "degraded" }

abbrev engine_check : Deps → Health → Health
engine_check d h =
    if not (has_engine d)
    then record h { ocr = codes "missing"; status = codes "degraded" }
    else if is_empty d.ocr_name
    then h
    else record h { ocr = d.ocr_name }

abbrev api_key_check : Deps → Health → Health
api_key_check d h =
    if d.has_api_key
    then h
    else record h { typesafe = codes "missing_api_key"; status = codes "degraded" }

abbrev openrouter_key_check : Deps → Health → Health
openrouter_key_check d h =
    if d.has_openrouter_key
    then h
    else record h { openrouter = codes "missing_api_key"; status = codes "degraded" }

abbrev all_well : Health
all_well = record {
  status = codes "ok";
  sqlite = codes "ok";
  ocr = codes "ok";
  typesafe = codes "ok";
  openrouter = codes "ok";
}

unfoldable pub health : Deps → Option Error → Health
unfolding has_engine
health d ping = openrouter_key_check d (api_key_check d (engine_check d (ping_check ping all_well)))

-- Go's zero value.
abbrev no_info : ModelInfo
no_info = record {
  reachable = false;
  loaded = false;
  parameter_size = [];
  quantization = [];
  context_length = 0;
  size_bytes = 0;
  vram_bytes = 0;
}

-- Without an Ollama there is nothing to inspect; a failed inspection gives the zero value.
unfoldable pub inspect_ollama : Deps → Result ModelInfo → Option ModelInfo
inspect_ollama d (ok info) = if d.has_ollama then some info else none
inspect_ollama d (err e) = if d.has_ollama then some no_info else none

pub record Runtime : Type 0 where
  pub ocr_engine : Text
  pub max_upload_bytes : Int64
  pub ollama_model : Text
  pub ollama_configured : Bool
  pub ollama : ModelInfo
  pub openrouter_model : Text
  pub openrouter_ocr_model : Text
  pub openrouter_configured : Bool

abbrev engine_of : Deps → Text
engine_of d =
    let engine = to_lower (trim_space d.ocr_name) in
    if is_empty engine then codes "openrouter" else engine

abbrev info_or_none : Option ModelInfo → ModelInfo
info_or_none none = no_info
info_or_none (some info) = info

unfoldable pub runtime : Deps → Result ModelInfo → Runtime
unfolding has_engine inspect_ollama to_lower trim_space same_text
runtime d inspected = record {
  ocr_engine = engine_of d;
  max_upload_bytes = d.max_body_bytes;
  ollama_model = d.ollama_model;
  ollama_configured =
      (same_text (engine_of d) (codes "ollama") || same_text (engine_of d) (codes "glm-ocr"))
      && has_engine d;
  ollama = info_or_none (inspect_ollama d inspected);
  openrouter_model = d.openrouter_model;
  openrouter_ocr_model = d.openrouter_ocr_model;
  openrouter_configured = d.has_openrouter_key;
}

-- `cors`: the allowed origin, and the status with which a preflight request ends at once. The other
-- headers are fixed.
unfoldable pub cors : Text → Text → Text × Option ℕ
unfolding same_text
cors origin method =
    let allowed = if is_empty origin then codes "*" else origin in
    (allowed, if same_text method (codes "OPTIONS") then some 204 else none)

-- The status is "ok" exactly if the database answers, there is an engine that is available, and both
-- keys are set.
pub health-ok :
    (d : Deps) (ping : Option Error)
    → ((health d ping).status ≡ codes "ok") ↔ (
        (ping ≡ none)
        × (has_engine d ≡ true)
        × (d.has_api_key ≡ true)
        × (d.has_openrouter_key ≡ true))
unfolding health
health-ok d none = ground arith
health-ok d (some e) = ground arith
