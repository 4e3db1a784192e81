-- ===== src/Tests/Judge.antt =====
-- Judging and explaining at a receipt whose amounts are not supported by its text.
use invoice_ocr_poc.Base.{
  true, not, ◌&&◌, ◌||◌, none, some, [], ◌∷◌, ◌≡◌, refl, String, Int64, any, is_empty, str_eq,
  if◌then◌else◌,
}
use invoice_ocr_poc.Base.Int.{pos}
use invoice_ocr_poc.Float.{Micros, micros_float}
use invoice_ocr_poc.Strings.{codes}
use invoice_ocr_poc.Extract.{Extract, Item, no_extract}
use invoice_ocr_poc.Ocr.Usage
use invoice_ocr_poc.Jev.Answers.{State, Response, text, number}
use invoice_ocr_poc.Jev.Explain.{explain, has_factor}
use invoice_ocr_poc.Jev.Verdict.{judged, is_triggered, check_triggered, explain_faithful}
use invoice_ocr_poc.Service.Types.{Assistant, new_job}
use invoice_ocr_poc.Service.Judging.{judge_with}
use invoice_ocr_poc.Service.Judging.Agreement.{SameEvidence, IsJudgedOn, judge_with_agrees}
use invoice_ocr_poc.Tests.Data.{invoice, strict_judge, times}

abbrev shown : Micros → String
shown v = "0.00"

abbrev shown_int : Int64 → String
shown_int n = "0"

abbrev seen : State Micros
seen = record { ocr_text = codes "CAFE 5,00"; extracted = no_extract }

abbrev response : Response Micros
response = record {
  model = "jev-1";
  answers =
      ("routing", ("choice", text "ops") ∷ ("confidence", number (pos 900_000)) ∷ [])
      ∷ ("amounts_supported", ("noul", number (pos 200_000)) ∷ [])
      ∷ [];
  usage = record { input_tokens = 10; output_tokens = 5; cost_usd = none; cost = none };
}

explain_faithful_example :
    let inv = judged shown shown_int seen response invoice refl refl in
    let a = explain shown inv in
    (a.verdict.needs_review
      ≡ (any (is_triggered shown) a.questions || any (check_triggered shown) a.code_checks))
    × (a.verdict.items_confirmed ≡ not a.verdict.needs_review)
    × (is_empty a.determinants
        ≡ (not a.verdict.needs_review && not (str_eq inv.suggested_routing "other")))
    × (inv.effective_routing ≡ (
        if has_factor a.determinants "routing" || has_factor a.determinants "effective_routing"
        then "review"
        else inv.suggested_routing))
explain_faithful_example = explain_faithful shown shown_int seen response invoice refl refl

-- An assistant that finds one item.
abbrev coffee : Item Micros
coffee = record {
  description = codes "CAFE";
  quantity = pos 1_000_000;
  unit_amount = pos 5_000_000;
  line_total = pos 5_000_000;
}

abbrev helped : Extract Micros
helped = record no_extract { items = coffee ∷ [] }

abbrev helper : Assistant Micros
helper = record {
  enabled = true;
  model = "m";
  assist = λ ocr_text hint. (helped, [], Usage.no_usage, none);
}

judge_with_agrees_example :
    let r =
      judge_with codes strict_judge
        (some helper)
        (codes "CAFE 5,00")
        no_extract
        times
        (new_job invoice) in
    (x : Extract Micros) × SameEvidence x r.parsed × IsJudgedOn strict_judge (codes "CAFE 5,00") x r
judge_with_agrees_example =
    judge_with_agrees codes strict_judge (some helper) (codes "CAFE 5,00") no_extract times
      (new_job invoice)
