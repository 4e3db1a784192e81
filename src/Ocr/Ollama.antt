-- ===== src/Ocr/Ollama.antt =====
-- internal/ocr/ollama.go: `NewOllama`, `Available`, `Recognize` and `nsToMs`. Files, base64, JSON, HTTP
-- and the clock are parameters; the fixed fields of the request and the log are left out.
use invoice_ocr_poc.Base.{
  ◌/◌, Bool, not, Option, none, some, ◌++◌, Int64, is_pos, is_empty, if◌then◌else◌, ◌==◌,
}
use invoice_ocr_poc.Errors.{other, Result, ok, err, wrap}
use invoice_ocr_poc.Float.{Float, nought}
use invoice_ocr_poc.Strings.{Text, codes, trim_space, trim_right_by}
use invoice_ocr_poc.Http.{Transport, Verbs, fetch}
use invoice_ocr_poc.Ocr.Clean.{trim_ocr_fences}
use invoice_ocr_poc.Ocr.Usage.{Usage, no_usage}
use invoice_ocr_poc.Ocr.Usage

pub record Ollama : Type 0 where
  pub base_url : Text
  pub model : Text

abbrev pub or_default : Text → Text → Text
or_default s fallback = if is_empty (trim_space s) then fallback else s

unfoldable pub new_ollama : Text → Text → Ollama
unfolding trim_space trim_right_by
new_ollama base_url model = record {
  base_url =
      trim_right_by (λ c. c == b'/')
        (trim_space (or_default base_url (codes "http://127.0.0.1:11434")));
  model = trim_space (or_default model (codes "glm-ocr:latest"));
}

-- No engine is Go's `nil`.
unfoldable pub available : Option Ollama → Bool
available none = Bool.false
available (some o) = not (is_empty o.base_url)

unfoldable pub ns_to_ms : Int64 → Int64
ns_to_ms ns = if is_pos ns then ns / 1_000_000 else 0

-- `ollamaGenerateResponse`; `content` is that of its message.
pub record GenerateResponse : Type 0 where
  pub response : Text
  pub content : Text
  pub total_duration : Int64
  pub load_duration : Int64
  pub eval_count : Int64
  pub eval_duration : Int64
  pub prompt_eval_count : Int64
  pub prompt_eval_duration : Int64

-- `os.ReadFile`, and `json.Marshal` of the request for a model and an image in base64.
pub record Inputs : Type 0 where
  pub read_file : Text → Result Text
  pub marshal : Text → Text → Result Text
  pub decode : Text → Result GenerateResponse

unfoldable pub answer_text : GenerateResponse → Text
unfolding trim_space trim_ocr_fences
answer_text parsed =
    let text = trim_space parsed.response in
    trim_ocr_fences (if is_empty text then trim_space parsed.content else text)

module _ {F : Type 0} ⦃d : Float F⦄ (net : Transport) (verbs : Verbs) (inputs : Inputs)
    (elapsed : Int64) where
  unfoldable pub usage_of : GenerateResponse → Usage F
  unfolding ns_to_ms
  usage_of parsed = record no_usage {
    duration_ms =
        if is_pos (ns_to_ms parsed.total_duration) then ns_to_ms parsed.total_duration else elapsed;
    load_duration_ms = ns_to_ms parsed.load_duration;
    prompt_eval_count = parsed.prompt_eval_count;
    prompt_eval_duration_ms = ns_to_ms parsed.prompt_eval_duration;
    eval_count = parsed.eval_count;
    eval_duration_ms = ns_to_ms parsed.eval_duration;
  }

  abbrev pub read_response : Result GenerateResponse → Result (Usage.Result F)
  read_response (err e) = err e
  read_response (ok parsed) =
      if is_empty (answer_text parsed)
      then err (other "ollama ocr returned empty text")
      else ok (record { text = answer_text parsed; confidence = nought; usage = usage_of parsed })

  abbrev pub ask : Ollama → Result Text → Result (Usage.Result F)
  ask o (err e) = err (wrap "marshal ollama request" e)
  ask o (ok payload) =
      read_response
        (fetch net verbs "ollama" inputs.decode (o.base_url ++ codes "/api/generate") payload)

  abbrev pub read_image : Ollama → Result Text → Result (Usage.Result F)
  read_image o (err e) = err (wrap "read image" e)
  read_image o (ok raw) = ask o (inputs.marshal o.model raw)

  unfoldable pub recognize : Option Ollama → Text → Result (Usage.Result F)
  unfolding available fetch answer_text usage_of
  recognize none path = err (other "ollama ocr url is not configured")
  recognize (some o) path =
      if available (some o)
      then read_image o (inputs.read_file path)
      else err (other "ollama ocr url is not configured")
