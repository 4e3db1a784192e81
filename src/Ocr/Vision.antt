-- ===== src/Ocr/Vision.antt =====
-- internal/ocr/openrouter.go: `NewOpenRouter`, `Available`, `Recognize` and `imageMIME`. Files, base64,
-- JSON, HTTP, the clock and the detection of media types are parameters; the fixed fields of the
-- request, its headers and the log are left out.
use invoice_ocr_poc.Base.{
  Bool, not, ◌||◌, Option, none, some, List, [], ◌∷◌, ◌++◌, Int64, is_empty, if◌then◌else◌, ◌==◌,
}
use invoice_ocr_poc.Errors.{other, Result, ok, err, wrap}
use invoice_ocr_poc.Float.{Float, nought}
use invoice_ocr_poc.Strings.{
  Text, codes, same_text, to_lower, cut_prefix, trim_space, trim_right_by,
}
use invoice_ocr_poc.Http.{Transport, Verbs, fetch}
use invoice_ocr_poc.Ocr.Ollama.{or_default}
use invoice_ocr_poc.Ocr.Usage.{TokenUsage, to_usage}
use invoice_ocr_poc.Ocr.Usage

pub record OpenRouter : Type 0 where
  pub base_url : Text
  pub api_key : Text
  pub model : Text

unfoldable pub new_open_router : Text → Text → Text → OpenRouter
unfolding trim_space trim_right_by
new_open_router base_url api_key model = record {
  base_url =
      trim_right_by (λ c. c == b'/')
        (trim_space (or_default base_url (codes "https://openrouter.ai/api/v1")));
  api_key = trim_space api_key;
  model = trim_space (or_default model (codes "google/gemini-2.5-flash"));
}

-- No engine is Go's `nil`.
unfoldable pub available : Option OpenRouter → Bool
available none = Bool.false
available (some o) = not (is_empty o.api_key)

pub record ChatResponse (F : Type 0) : Type 0 where
  pub contents : List Text
  pub usage : TokenUsage F

-- `filepath.Ext`, `http.DetectContentType`, `os.ReadFile`, the encoding in base64, and JSON: a request
-- is made of the model and the image's URL.
pub record Inputs (F : Type 0) : Type 0 where
  pub ext : Text → Text
  pub detect : Text → Text
  pub read_file : Text → Result Text
  pub base64 : Text → Text
  pub marshal : Text → Text → Result Text
  pub decode : Text → Result (ChatResponse F)

abbrev by_detection : Text → Text
by_detection detected = elim (cut_prefix (codes "image/") detected) [
  | some kind ↦ detected
  | none ↦ codes "image/png"
]

-- The switch of `imageMIME`, for an extension and the type that is detected.
unfoldable pub image_mime : Text → Text → Text
unfolding cut_prefix
image_mime ext detected =
    if same_text ext (codes ".jpg") || same_text ext (codes ".jpeg")
    then codes "image/jpeg"
    else if same_text ext (codes ".webp")
    then codes "image/webp"
    else if same_text ext (codes ".gif")
    then codes "image/gif"
    else if same_text ext (codes ".png")
    then codes "image/png"
    else by_detection detected

module _ {F : Type 0} ⦃d : Float F⦄ (net : Transport) (verbs : Verbs) (inputs : Inputs F)
    (elapsed : Int64) where
  abbrev pub read_text : TokenUsage F → Text → Result (Usage.Result F)
  read_text usage text =
      if is_empty text
      then err (other "openrouter ocr returned empty text")
      else ok (record { text = text; confidence = nought; usage = to_usage usage elapsed })

  abbrev pub read_choices : TokenUsage F → List Text → Result (Usage.Result F)
  read_choices usage [] = err (other "openrouter ocr returned no choices")
  read_choices usage (content ∷ contents) = read_text usage (trim_space content)

  abbrev pub read_response : Result (ChatResponse F) → Result (Usage.Result F)
  read_response (err e) = err e
  read_response (ok parsed) = read_choices parsed.usage parsed.contents

  abbrev pub ask : OpenRouter → Result Text → Result (Usage.Result F)
  ask o (err e) = err (wrap "marshal openrouter ocr request" e)
  ask o (ok payload) = read_response (
      fetch net verbs "openrouter ocr" inputs.decode (o.base_url ++ codes "/chat/completions")
        payload)

  abbrev pub data_url : Text → Text → Text
  data_url path raw =
      codes "data:"
      ++ image_mime (to_lower (inputs.ext path)) (inputs.detect raw)
      ++ codes ";base64,"
      ++ inputs.base64 raw

  abbrev pub read_image : OpenRouter → Text → Result Text → Result (Usage.Result F)
  read_image o path (err e) = err (wrap "read image" e)
  read_image o path (ok raw) = ask o (inputs.marshal o.model (data_url path raw))

  unfoldable pub recognize : Option OpenRouter → Text → Result (Usage.Result F)
  unfolding available fetch image_mime to_usage trim_space to_lower
  recognize none path = err (other "openrouter ocr api key is not configured")
  recognize (some o) path =
      if available (some o)
      then read_image o path (inputs.read_file path)
      else err (other "openrouter ocr api key is not configured")
