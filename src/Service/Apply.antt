-- ===== src/Service/Apply.antt =====
-- internal/invoice/service.go: `applyOCRUsage`, `applyOpenRouterUsage`, `applyJevUsage` and
-- `applyJudgment`, which copy the results of a call into the invoice.
use invoice_ocr_poc.Base.{add64, str_eq, if◌then◌else◌}
use invoice_ocr_poc.Float.{Float}
use invoice_ocr_poc.Ocr.Usage.{Usage, has_open_router}
use invoice_ocr_poc.Store.Invoice.{Invoice}
use invoice_ocr_poc.Jev.Answers.{Judgment}
use invoice_ocr_poc.Jev.Answers

module _ {F : Type 0} ⦃d : Float F⦄ where
  unfoldable pub apply_open_router_usage : Usage F → Invoice F → Invoice F
  apply_open_router_usage usage inv = record inv {
    open_router_prompt_tokens = add64 inv.open_router_prompt_tokens usage.prompt_tokens;
    open_router_completion_tokens = add64 inv.open_router_completion_tokens usage.completion_tokens;
    open_router_total_tokens = add64 inv.open_router_total_tokens usage.total_tokens;
    open_router_cost_usd = d.add inv.open_router_cost_usd usage.cost_usd;
    open_router_latency_ms = add64 inv.open_router_latency_ms usage.duration_ms;
  }

  unfoldable pub apply_ollama_usage : Usage F → Invoice F → Invoice F
  apply_ollama_usage usage inv = record inv {
    ollama_duration_ms = add64 inv.ollama_duration_ms usage.duration_ms;
    ollama_load_duration_ms = add64 inv.ollama_load_duration_ms usage.load_duration_ms;
    ollama_prompt_eval_count = add64 inv.ollama_prompt_eval_count usage.prompt_eval_count;
    ollama_prompt_eval_duration_ms =
        add64 inv.ollama_prompt_eval_duration_ms usage.prompt_eval_duration_ms;
    ollama_eval_count = add64 inv.ollama_eval_count usage.eval_count;
    ollama_eval_duration_ms = add64 inv.ollama_eval_duration_ms usage.eval_duration_ms;
  }

  unfoldable pub apply_ocr_usage : Usage F → Invoice F → Invoice F
  unfolding apply_open_router_usage apply_ollama_usage has_open_router
  apply_ocr_usage usage inv =
      if has_open_router usage
      then apply_open_router_usage usage inv
      else apply_ollama_usage usage inv

  unfoldable pub apply_jev_usage : Answers.Usage F → Invoice F → Invoice F
  apply_jev_usage usage inv = record inv {
    jev_input_tokens = add64 inv.jev_input_tokens usage.input_tokens;
    jev_output_tokens = add64 inv.jev_output_tokens usage.output_tokens;
    jev_total_tokens = add64 inv.jev_total_tokens usage.total_tokens;
    jev_cost_usd = d.add inv.jev_cost_usd usage.cost_usd;
    jev_latency_ms = add64 inv.jev_latency_ms usage.latency_ms;
    jev_model = if str_eq usage.model "" then inv.jev_model else usage.model;
  }

  unfoldable pub apply_judgment : Judgment F → Invoice F → Invoice F
  apply_judgment j inv = record inv {
    document_type = j.document_type;
    document_type_conf = j.document_type_conf;
    suggested_routing = j.suggested_routing;
    routing_confidence = j.routing_confidence;
    effective_routing = j.effective_routing;
    amounts_supported = j.amounts_supported;
    items_qty_supported = j.items_qty_supported;
    total_consistent = j.total_consistent;
    risk_score = j.risk_score;
    risk_label = j.risk_label;
    risk_confidence = j.risk_confidence;
    needs_review = j.needs_review;
    items_confirmed = j.items_confirmed;
  }
