-- ===== src/Jev/Compose.antt =====
-- internal/jev/client.go: `compose`, and the thresholds that it shares with explain.go.
use invoice_ocr_poc.Base.{not, ◌||◌, String, Int64, str_eq, if◌then◌else◌}
use invoice_ocr_poc.Float.{Float, nought}
use invoice_ocr_poc.Jev.Answers.{State, Judgment, Response, answer_of, choice_of, noul_of, score_of}

module _ {F : Type 0} ⦃d : Float F⦄ where
  abbrev pub noul_threshold : F
  noul_threshold = d.decimal 5 10

  abbrev pub confidence_floor : F
  confidence_floor = d.decimal 6 10

  abbrev pub total_delta : F
  total_delta = d.decimal 5 100

  unfoldable pub abs : F → F
  abs v = if d.lt v nought then d.neg v else v

  unfoldable pub compose : (Int64 → String) → State F → Response F → Judgment F
  compose show_int state resp =
      let (doc_type, doc_conf) = choice_of (answer_of "document_type" resp.answers) in
      let (routing, route_conf) = choice_of (answer_of "routing" resp.answers) in
      let amounts = noul_of (answer_of "amounts_supported" resp.answers) in
      let items_qty = noul_of (answer_of "items_qty_supported" resp.answers) in
      let total_ok = noul_of (answer_of "total_consistent" resp.answers) in
      let (risk_score, risk_conf, risk_label) = score_of show_int (answer_of "risk" resp.answers) in
      let numeric_mismatch =
        d.lt total_delta
          (abs (d.sub state.extracted.estimated_total state.extracted.computed_items_total)) in
      let needs_review =
        d.lt amounts noul_threshold
        || d.lt items_qty noul_threshold
        || d.lt total_ok noul_threshold
        || d.lt doc_conf confidence_floor
        || d.lt route_conf confidence_floor
        || d.lt risk_conf confidence_floor
        || numeric_mismatch in
      record {
        document_type = doc_type;
        document_type_conf = doc_conf;
        suggested_routing = routing;
        routing_confidence = route_conf;
        effective_routing =
            if str_eq routing "other" || d.lt route_conf confidence_floor
            then "review"
            else routing;
        amounts_supported = amounts;
        items_qty_supported = items_qty;
        total_consistent = total_ok;
        risk_score = risk_score;
        risk_label = risk_label;
        risk_confidence = risk_conf;
        needs_review = needs_review;
        items_confirmed = not needs_review;
      }
