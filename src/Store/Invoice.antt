-- ===== src/Store/Invoice.antt =====
-- internal/store/models.go. The three time stamps of a row are written by gorm and are left to it.
use invoice_ocr_poc.Base.{Bool, false, String, Int64}
use invoice_ocr_poc.Float.{Float, nought}
use mathlib.Core.List.{[]}
use invoice_ocr_poc.Strings.{Text}

-- The four values of the `Status` column.
pub data Status : Type 0 where
  queued processing done failed : Status

pub record Invoice (F : Type 0) : Type 0 where
  pub id : String
  pub status : Status
  pub original_name : Text
  pub stored_path : Text
  pub mime_type : Text
  pub ocr_text : Text
  pub ocr_confidence : F
  pub estimated_total : F
  pub computed_items_total : F
  pub items_json : String
  pub items_confirmed : Bool
  pub document_type : String
  pub document_type_conf : F
  pub suggested_routing : String
  pub routing_confidence : F
  pub effective_routing : String
  pub amounts_supported : F
  pub items_qty_supported : F
  pub total_consistent : F
  pub risk_score : F
  pub risk_label : String
  pub risk_confidence : F
  pub needs_review : Bool
  pub assist_model : String
  pub assist_notes : Text
  pub assist_used : Bool
  pub error_message : String
  pub processing_ms : Int64
  pub open_router_prompt_tokens : Int64
  pub open_router_completion_tokens : Int64
  pub open_router_total_tokens : Int64
  pub open_router_cost_usd : F
  pub open_router_latency_ms : Int64
  pub ollama_duration_ms : Int64
  pub ollama_load_duration_ms : Int64
  pub ollama_prompt_eval_count : Int64
  pub ollama_prompt_eval_duration_ms : Int64
  pub ollama_eval_count : Int64
  pub ollama_eval_duration_ms : Int64
  pub jev_input_tokens : Int64
  pub jev_output_tokens : Int64
  pub jev_total_tokens : Int64
  pub jev_cost_usd : F
  pub jev_latency_ms : Int64
  pub jev_model : String

-- The fields that an upload leaves at Go's zero value.
abbrev pub new_invoice : {F : Type 0} ⦃d : Float F⦄ → String → Text → Text → Text → Invoice F
new_invoice id original_name stored_path mime_type = record {
  id = id;
  status = queued;
  original_name = original_name;
  stored_path = stored_path;
  mime_type = mime_type;
  ocr_text = [];
  ocr_confidence = nought;
  estimated_total = nought;
  computed_items_total = nought;
  items_json = "";
  items_confirmed = false;
  document_type = "";
  document_type_conf = nought;
  suggested_routing = "";
  routing_confidence = nought;
  effective_routing = "";
  amounts_supported = nought;
  items_qty_supported = nought;
  total_consistent = nought;
  risk_score = nought;
  risk_label = "";
  risk_confidence = nought;
  needs_review = false;
  assist_model = "";
  assist_notes = [];
  assist_used = false;
  error_message = "";
  processing_ms = 0;
  open_router_prompt_tokens = 0;
  open_router_completion_tokens = 0;
  open_router_total_tokens = 0;
  open_router_cost_usd = nought;
  open_router_latency_ms = 0;
  ollama_duration_ms = 0;
  ollama_load_duration_ms = 0;
  ollama_prompt_eval_count = 0;
  ollama_prompt_eval_duration_ms = 0;
  ollama_eval_count = 0;
  ollama_eval_duration_ms = 0;
  jev_input_tokens = 0;
  jev_output_tokens = 0;
  jev_total_tokens = 0;
  jev_cost_usd = nought;
  jev_latency_ms = 0;
  jev_model = "";
}
