-- ===== src/Httpserver/Dto.antt =====
-- internal/httpserver/dto.go: the bodies of the answers. JSON leaves out some fields that are zero.
use invoice_ocr_poc.Base.{Bool, String, Int64, List, [], is_pos, str_eq, if◌then◌else◌}
use invoice_ocr_poc.Float.{Float, nought}
use invoice_ocr_poc.Strings.{Text}
use invoice_ocr_poc.Extract.{Item}
use invoice_ocr_poc.Store.Invoice.{Invoice, Status}
use invoice_ocr_poc.Jev.Answers.{estimate_cost_usd}
use invoice_ocr_poc.Jev.Explain.{localize_doc_type, localize_routing, localize_risk}

pub record UsageOpenRouter (F : Type 0) : Type 0 where
  pub prompt_tokens : Int64
  pub completion_tokens : Int64
  pub total_tokens : Int64
  pub cost_usd : F
  pub latency_ms : Int64

pub record UsageOllama : Type 0 where
  pub duration_ms : Int64
  pub load_duration_ms : Int64
  pub prompt_eval_count : Int64
  pub prompt_eval_duration_ms : Int64
  pub eval_count : Int64
  pub eval_duration_ms : Int64

pub record UsageJev (F : Type 0) : Type 0 where
  pub input_tokens : Int64
  pub output_tokens : Int64
  pub total_tokens : Int64
  pub cost_usd : F
  pub latency_ms : Int64
  pub model : String

pub record InvoiceUsage (F : Type 0) : Type 0 where
  pub open_router : UsageOpenRouter F
  pub ollama : UsageOllama
  pub jev : UsageJev F

pub record InvoiceResponse (F : Type 0) : Type 0 where
  pub id : String
  pub status : Status
  pub original_name : Text
  pub mime_type : Text
  pub ocr_text : Text
  pub ocr_confidence : F
  pub items : List (Item F)
  pub estimated_total : F
  pub computed_items_total : F
  pub items_confirmed : Bool
  pub document_type : String
  pub document_type_conf : F
  pub suggested_routing : String
  pub routing_confidence : F
  pub effective_routing : String
  pub amounts_supported : F
  pub items_qty_supported : F
  pub total_consistent : F
  pub risk_score : F
  pub risk_label : String
  pub risk_confidence : F
  pub needs_review : Bool
  pub assist_used : Bool
  pub assist_model : String
  pub assist_notes : Text
  pub error_message : String
  pub processing_ms : Int64
  pub usage : InvoiceUsage F

module _ {F : Type 0} ⦃d : Float F⦄ where
  unfoldable pub jev_cost_usd : Invoice F → F
  unfolding estimate_cost_usd
  jev_cost_usd inv =
      if d.lt nought inv.jev_cost_usd
      then inv.jev_cost_usd
      else if is_pos inv.jev_input_tokens
      then estimate_cost_usd inv.jev_input_tokens
      else nought

  -- `unmarshal` gives what `json.Unmarshal` leaves in the list of items, whose error is ignored.
  unfoldable pub to_invoice_response : (String → List (Item F)) → Invoice F → InvoiceResponse F
  unfolding jev_cost_usd localize_doc_type localize_routing localize_risk
  to_invoice_response unmarshal inv = record {
    id = inv.id;
    status = inv.status;
    original_name = inv.original_name;
    mime_type = inv.mime_type;
    ocr_text = inv.ocr_text;
    ocr_confidence = inv.ocr_confidence;
    items = if str_eq inv.items_json "" then [] else unmarshal inv.items_json;
    estimated_total = inv.estimated_total;
    computed_items_total = inv.computed_items_total;
    items_confirmed = inv.items_confirmed;
    document_type = localize_doc_type inv.document_type;
    document_type_conf = inv.document_type_conf;
    suggested_routing = localize_routing inv.suggested_routing;
    routing_confidence = inv.routing_confidence;
    effective_routing = localize_routing inv.effective_routing;
    amounts_supported = inv.amounts_supported;
    items_qty_supported = inv.items_qty_supported;
    total_consistent = inv.total_consistent;
    risk_score = inv.risk_score;
    risk_label = localize_risk inv.risk_label;
    risk_confidence = inv.risk_confidence;
    needs_review = inv.needs_review;
    assist_used = inv.assist_used;
    assist_model = inv.assist_model;
    assist_notes = inv.assist_notes;
    error_message = inv.error_message;
    processing_ms = inv.processing_ms;
    usage = record {
      open_router = record {
        prompt_tokens = inv.open_router_prompt_tokens;
        completion_tokens = inv.open_router_completion_tokens;
        total_tokens = inv.open_router_total_tokens;
        cost_usd = inv.open_router_cost_usd;
        latency_ms = inv.open_router_latency_ms;
      };
      ollama = record {
        duration_ms = inv.ollama_duration_ms;
        load_duration_ms = inv.ollama_load_duration_ms;
        prompt_eval_count = inv.ollama_prompt_eval_count;
        prompt_eval_duration_ms = inv.ollama_prompt_eval_duration_ms;
        eval_count = inv.ollama_eval_count;
        eval_duration_ms = inv.ollama_eval_duration_ms;
      };
      jev = record {
        input_tokens = inv.jev_input_tokens;
        output_tokens = inv.jev_output_tokens;
        total_tokens = inv.jev_total_tokens;
        cost_usd = jev_cost_usd inv;
        latency_ms = inv.jev_latency_ms;
        model = inv.jev_model;
      };
    };
  }
