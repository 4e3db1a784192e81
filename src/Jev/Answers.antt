-- ===== src/Jev/Answers.antt =====
-- internal/jev/client.go: the data of a request and of a response, and how an answer is read.
-- An answer is a JSON object; a field is read by `v, _ := ans[k].(T)`, which gives Go's zero value
-- where the field is missing or of another type.
use invoice_ocr_poc.Base.{
  Bool, Option, none, some, List, [], String, Int64, add64, is_pos, str_eq, if◌then◌else◌,
}
use invoice_ocr_poc.Base.Assoc.{lookup}
use invoice_ocr_poc.Float.{Float, nought}
use invoice_ocr_poc.Strings.{Text}
use invoice_ocr_poc.Extract.{Extract}

pub record State (F : Type 0) : Type 0 where
  pub ocr_text : Text
  pub extracted : Extract F

pub record Judgment (F : Type 0) : Type 0 where
  pub document_type : String
  pub document_type_conf : F
  pub suggested_routing : String
  pub routing_confidence : F
  pub effective_routing : String
  pub amounts_supported : F
  pub items_qty_supported : F
  pub total_consistent : F
  pub risk_score : F
  pub risk_label : String
  pub risk_confidence : F
  pub needs_review : Bool
  pub items_confirmed : Bool

pub record Usage (F : Type 0) : Type 0 where
  pub input_tokens : Int64
  pub output_tokens : Int64
  pub total_tokens : Int64
  pub cost_usd : F
  pub latency_ms : Int64
  pub model : String

pub record TokenUsage (F : Type 0) : Type 0 where
  pub input_tokens : Int64
  pub output_tokens : Int64
  pub cost_usd : Option F
  pub cost : Option F

-- The values of an answer's fields that the code looks at; the legend is an object of texts.
pub data Value (F : Type 0) : Type 0 where
  text : String → Value F
  number : F → Value F
  legend : List (String × String) → Value F

abbrev pub Answer : Type 0 → Type 0
Answer F = List (String × Value F)

pub record Response (F : Type 0) : Type 0 where
  pub model : String
  pub answers : List (String × Answer F)
  pub usage : TokenUsage F

-- `resp.Answers[id]`: a missing answer is the nil map, which has no fields.
unfoldable pub answer_of : {F : Type 0} → String → List (String × Answer F) → Answer F
unfolding lookup
answer_of id answers = elim (lookup id answers) [ some ans ↦ ans | none ↦ [] ]

module _ {F : Type 0} ⦃d : Float F⦄ where
  abbrev pub no_judgment : Judgment F
  no_judgment = record {
    document_type = "";
    document_type_conf = nought;
    suggested_routing = "";
    routing_confidence = nought;
    effective_routing = "";
    amounts_supported = nought;
    items_qty_supported = nought;
    total_consistent = nought;
    risk_score = nought;
    risk_label = "";
    risk_confidence = nought;
    needs_review = Bool.false;
    items_confirmed = Bool.false;
  }

  abbrev pub no_usage : Usage F
  no_usage = record {
    input_tokens = 0;
    output_tokens = 0;
    total_tokens = 0;
    cost_usd = nought;
    latency_ms = 0;
    model = "";
  }

  -- `v, _ := ans[k].(float64)` and `v, _ := ans[k].(string)`.
  unfoldable pub number_field : String → Answer F → F
  number_field k ans = elim (lookup k ans) [ some (number v) ↦ v | _ ↦ nought ]

  unfoldable pub text_field : String → Answer F → String
  text_field k ans = elim (lookup k ans) [ some (text s) ↦ s | _ ↦ "" ]

  unfoldable pub legend_field : Answer F → Option (List (String × String))
  legend_field ans = elim (lookup "legend" ans) [ some (legend m) ↦ some m | _ ↦ none ]

  unfoldable pub choice_of : Answer F → String × F
  choice_of ans = (text_field "choice" ans, number_field "confidence" ans)

  unfoldable pub noul_of : Answer F → F
  noul_of ans = number_field "noul" ans

  -- `fmt.Sprintf("%d", int(score+0.5))` is `show_int` of the number.
  unfoldable pub legend_label : (Int64 → String) → F → Answer F → String
  legend_label show_int score ans = elim (legend_field ans) [
    | none ↦ "medium"
    | some m ↦ elim (lookup (show_int (d.truncate (d.add score (d.decimal 5 10)))) m) [
      | some s ↦ if str_eq s "" then "medium" else s
      | none ↦ "medium"
    ]
  ]

  -- The label after the `switch`, which stands behind the legend's and is given it.
  unfoldable pub risk_label_of : F → String → String
  risk_label_of score label =
      if d.lt score (d.decimal 75 100)
      then "low"
      else if d.lt score (d.decimal 15 10)
      then "medium"
      else "high"

  unfoldable pub score_of : (Int64 → String) → Answer F → F × F × String
  score_of show_int ans =
      let score = number_field "score" ans in
      (score, number_field "confidence" ans, risk_label_of score (legend_label show_int score ans))

  unfoldable pub estimate_cost_usd : Int64 → F
  estimate_cost_usd input_tokens =
      if is_pos input_tokens
      then d.div (d.mul (d.of_int input_tokens) (d.decimal 42 1000)) (d.decimal 1_000_000 1)
      else nought

  unfoldable pub reported_cost_usd : TokenUsage F → Option F
  reported_cost_usd u = elim u.cost_usd [ some c ↦ some c | none ↦ u.cost ]

  unfoldable pub usage_of : Response F → Int64 → Usage F
  usage_of resp latency_ms = record {
    input_tokens = resp.usage.input_tokens;
    output_tokens = resp.usage.output_tokens;
    total_tokens = add64 resp.usage.input_tokens resp.usage.output_tokens;
    cost_usd = elim (reported_cost_usd resp.usage) [
      | some c ↦ c
      | none ↦ estimate_cost_usd resp.usage.input_tokens
    ];
    latency_ms = latency_ms;
    model = resp.model;
  }
