-- ===== src/Ocr/Usage.antt =====
-- internal/ocr/engine.go: `Usage`, `TokenUsage` and `Result`. Counters are Go's 64-bit integers.
use invoice_ocr_poc.Base.{Bool, ◌||◌, Int64, add64, is_pos, ◌==◌, if◌then◌else◌}
use invoice_ocr_poc.Float.{Float, nought}
use mathlib.Core.List.{[]}
use invoice_ocr_poc.Strings.{Text}

pub record Usage (F : Type 0) : Type 0 where
  pub prompt_tokens : Int64
  pub completion_tokens : Int64
  pub total_tokens : Int64
  pub cost_usd : F
  pub duration_ms : Int64
  pub load_duration_ms : Int64
  pub prompt_eval_count : Int64
  pub prompt_eval_duration_ms : Int64
  pub eval_count : Int64
  pub eval_duration_ms : Int64

pub record TokenUsage (F : Type 0) : Type 0 where
  pub prompt_tokens : Int64
  pub completion_tokens : Int64
  pub total_tokens : Int64
  pub cost : F

pub record Result (F : Type 0) : Type 0 where
  pub text : Text
  pub confidence : F
  pub usage : Usage F

module _ {F : Type 0} ⦃d : Float F⦄ where
  -- Go's zero value.
  abbrev pub no_usage : Usage F
  no_usage = record {
    prompt_tokens = 0;
    completion_tokens = 0;
    total_tokens = 0;
    cost_usd = nought;
    duration_ms = 0;
    load_duration_ms = 0;
    prompt_eval_count = 0;
    prompt_eval_duration_ms = 0;
    eval_count = 0;
    eval_duration_ms = 0;
  }

  abbrev pub no_result : Result F
  no_result = record { text = []; confidence = nought; usage = no_usage }

  unfoldable pub add : Usage F → Usage F → Usage F
  add u other = record {
    prompt_tokens = add64 u.prompt_tokens other.prompt_tokens;
    completion_tokens = add64 u.completion_tokens other.completion_tokens;
    total_tokens = add64 u.total_tokens other.total_tokens;
    cost_usd = d.add u.cost_usd other.cost_usd;
    duration_ms = add64 u.duration_ms other.duration_ms;
    load_duration_ms = add64 u.load_duration_ms other.load_duration_ms;
    prompt_eval_count = add64 u.prompt_eval_count other.prompt_eval_count;
    prompt_eval_duration_ms = add64 u.prompt_eval_duration_ms other.prompt_eval_duration_ms;
    eval_count = add64 u.eval_count other.eval_count;
    eval_duration_ms = add64 u.eval_duration_ms other.eval_duration_ms;
  }

  unfoldable pub has_open_router : Usage F → Bool
  has_open_router u =
      is_pos u.prompt_tokens
      || is_pos u.completion_tokens
      || is_pos u.total_tokens
      || d.lt nought u.cost_usd

  unfoldable pub to_usage : TokenUsage F → Int64 → Usage F
  to_usage u duration_ms = record {
    prompt_tokens = u.prompt_tokens;
    completion_tokens = u.completion_tokens;
    total_tokens =
        if u.total_tokens == 0 then add64 u.prompt_tokens u.completion_tokens else u.total_tokens;
    cost_usd = u.cost;
    duration_ms = duration_ms;
    load_duration_ms = 0;
    prompt_eval_count = 0;
    prompt_eval_duration_ms = 0;
    eval_count = 0;
    eval_duration_ms = 0;
  }
