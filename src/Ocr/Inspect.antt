-- ===== src/Ocr/Inspect.antt =====
-- internal/ocr/ollama.go: `Inspect`, `showModel`, `runningModels`, `contextLength` and `sameModel`.
use Prim.Native.String.{◌++◌ as ◌<>◌}
use invoice_ocr_poc.Base.{
  any, Bool-cases, inl, inr, Bool, true, false, ◌||◌, Option, none, some, List, [], ◌∷◌, ◌++◌, ◌≡◌,
  ◌↔◌, Int64, is_pos, is_empty, if◌then◌else◌, arith,
}
use invoice_ocr_poc.Errors.{other, Result, ok, err, wrap}
use invoice_ocr_poc.Float.{Float}
use invoice_ocr_poc.Strings.{
  Text, codes, same_text, same_text_iff, to_lower, trim_space, trim_suffix,
}
use invoice_ocr_poc.Http.{Reply, is_success, Transport, Verbs, fetch}
use invoice_ocr_poc.Ocr.Ollama.{Ollama, available}

-- The name without case, space around it, and the tag of the latest version.
unfoldable pub model_name : Text → Text
unfolding trim_suffix trim_space to_lower
model_name a = trim_suffix (codes ":latest") (trim_space (to_lower a))

unfoldable pub same_model : Text → Text → Bool
unfolding trim_suffix trim_space to_lower
same_model a b =
    let a' = trim_space (to_lower a) in
    let b' = trim_space (to_lower b) in
    if same_text a' b'
    then true
    else same_text (trim_suffix (codes ":latest") a') (trim_suffix (codes ":latest") b')

-- Two names are of one model exactly if they agree without case, space and the tag.
pub same_model-model_name : (a b : Text) → (same_model a b ≡ true) ↔ (model_name a ≡ model_name b)
unfolding same_model model_name
same_model-model_name a b = ground (
  arith,
  same_text_iff (trim_space (to_lower a)) (trim_space (to_lower b)),
  same_text_iff (trim_suffix (codes ":latest") (trim_space (to_lower a)))
      (trim_suffix (codes ":latest") (trim_space (to_lower b))),
)

-- A value of `model_info`.
pub data InfoValue (F : Type 0) : Type 0 where
  float : F → InfoValue F
  int : Int64 → InfoValue F
  opaque : InfoValue F

-- `ollamaShowResponse`; the entries of `model_info` stand in the order in which the loop meets them.
pub record ShowResponse (F : Type 0) : Type 0 where
  pub parameter_size : Text
  pub quantization_level : Text
  pub model_info : List (Text × InfoValue F)

pub record RunningModel : Type 0 where
  pub name : Text
  pub model : Text
  pub size : Int64
  pub size_vram : Int64
  pub context_length : Int64
  pub parameter_size : Text
  pub quantization_level : Text

pub record ModelInfo : Type 0 where
  pub reachable : Bool
  pub loaded : Bool
  pub parameter_size : Text
  pub quantization : Text
  pub context_length : Int64
  pub size_bytes : Int64
  pub vram_bytes : Int64

-- `strings.HasSuffix`.
abbrev has_suffix : Text → Text → Bool
has_suffix part [] = is_empty part
has_suffix part (c ∷ s) = same_text (c ∷ s) part || has_suffix part s

abbrev pub or_text : Text → Text → Text
or_text s fallback = if is_empty s then fallback else s

abbrev pub is_running : Text → RunningModel → Bool
is_running model m = same_model m.name model || same_model m.model model

abbrev pub with_running : RunningModel → ModelInfo → ModelInfo
with_running m info = record info {
  loaded = true;
  size_bytes = m.size;
  vram_bytes = m.size_vram;
  context_length = if is_pos m.context_length then m.context_length else info.context_length;
  parameter_size = or_text m.parameter_size info.parameter_size;
  quantization = or_text m.quantization_level info.quantization;
}

-- The loop over the running models.
unfoldable pub with_models : Text → List RunningModel → ModelInfo → ModelInfo
unfolding same_model
with_models model [] info = info
with_models model (m ∷ ms) info =
    with_models model ms (if is_running model m then with_running m info else info)

-- The model counts as loaded exactly if one of the running models is it.
pub with_models-loaded :
    (model : Text) (ms : List RunningModel) (info : ModelInfo)
    → (with_models model ms info).loaded ≡ (info.loaded || any (is_running model) ms)
unfolding with_models
with_models-loaded model [] info = ground arith
with_models-loaded model (m ∷ ms) info = elim (Bool-cases (is_running model m)) [
  | inl same ↦
      simp (with_models, same, with_models-loaded model ms (with_running m info)) (ground arith)
  | inr differs ↦ simp (with_models, differs, with_models-loaded model ms info) (ground arith)
]

module _ {F : Type 0} ⦃d : Float F⦄ where
  abbrev pub number_of : InfoValue F → Option Int64
  number_of (float n) = some (d.truncate n)
  number_of (int n) = some n
  number_of opaque = none

  unfoldable pub context_length_of : List (Text × InfoValue F) → Int64
  context_length_of [] = 0
  context_length_of ((key, raw) ∷ info) =
      let rest = context_length_of info in
      if has_suffix (codes "context_length") key
      then elim (number_of raw) [ some n ↦ n | none ↦ rest ]
      else rest

  abbrev pub shown : ShowResponse F → ModelInfo
  shown show = record {
    reachable = true;
    loaded = false;
    parameter_size = show.parameter_size;
    quantization = show.quantization_level;
    context_length = context_length_of show.model_info;
    size_bytes = 0;
    vram_bytes = 0;
  }

  module _ (net : Transport) (verbs : Verbs) (marshal : Text → Result Text)
      (decode_show : Text → Result (ShowResponse F))
      (decode_models : Text → Result (List RunningModel)) where
    abbrev pub show_model : Ollama → Result (ShowResponse F)
    show_model o = elim (marshal o.model) [
      | err e ↦ err (wrap "marshal ollama show" e)
      | ok payload ↦ fetch net verbs "ollama" decode_show (o.base_url ++ codes "/api/show") payload
    ]

    abbrev pub listed_models : Reply → Text → Result (List RunningModel)
    listed_models reply body =
        if is_success reply.status
        then elim (decode_models body) [
          | ok models ↦ ok models
          | err e ↦ err (wrap "decode ollama ps" e)
        ]
        else err (other ("ollama ps status " <> verbs.number reply.status))

    abbrev pub read_models : Result Reply → Result (List RunningModel)
    read_models (err e) = err (wrap "ollama ps" e)
    read_models (ok reply) = elim reply.body [
      | err e ↦ err (wrap "read ollama ps" e)
      | ok body ↦ listed_models reply body
    ]

    -- A request without a body.
    unfoldable pub running_models : Ollama → Result (List RunningModel)
    running_models o =
        let url = o.base_url ++ codes "/api/ps" in
        elim (net.new_request url) [
          | some e ↦ err (wrap "new ollama ps request" e)
          | none ↦ read_models (net.exchange url [])
        ]

    -- An error of `runningModels` is dropped.
    abbrev pub with_running_models : Ollama → ModelInfo → Result (List RunningModel) → ModelInfo
    with_running_models o info (err e) = info
    with_running_models o info (ok models) = with_models o.model models info

    abbrev pub inspected : Ollama → Result (ShowResponse F) → Result ModelInfo
    inspected o (err e) = err e
    inspected o (ok show) = ok (with_running_models o (shown show) (running_models o))

    unfoldable pub inspect : Option Ollama → Result ModelInfo
    unfolding available fetch running_models with_models context_length_of
    inspect none = err (other "ollama ocr url is not configured")
    inspect (some o) =
        if available (some o)
        then inspected o (show_model o)
        else err (other "ollama ocr url is not configured")
