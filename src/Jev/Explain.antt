-- ===== src/Jev/Explain.antt =====
-- internal/jev/explain.go. `fixed2` is `fmt.Sprintf("%.2f", v)`.
use Prim.Native.String.{◌++◌ as ◌<>◌}
use invoice_ocr_poc.Base.{
  Bool, false, not, ◌&&◌, ◌||◌, List, [], ◌∷◌, ◌++◌, String, str_eq, if◌then◌else◌,
}
use invoice_ocr_poc.Float.{Float, nought}
use invoice_ocr_poc.Strings.{Text}
use invoice_ocr_poc.Store.Invoice.{Invoice}
use invoice_ocr_poc.Jev.Compose.{noul_threshold, confidence_floor, total_delta, abs}

pub record LlmSupport : Type 0 where
  pub used : Bool
  pub model : String
  pub notes : Text
  pub role : String

pub record Verdict : Type 0 where
  pub needs_review : Bool
  pub items_confirmed : Bool
  pub effective_routing : String
  pub suggested_routing : String

-- The values of the `Type` field.
pub data QuestionType : Type 0 where
  choice noul score : QuestionType

pub record Question (F : Type 0) : Type 0 where
  pub id : String
  pub type : QuestionType
  pub instructions : String
  pub answer : String
  pub noul : F
  pub score : F
  pub confidence : F
  pub threshold : F
  pub triggered : Bool

pub record CodeCheck (F : Type 0) : Type 0 where
  pub id : String
  pub description : String
  pub estimated_total : F
  pub computed_items_total : F
  pub triggered : Bool

pub record Factor : Type 0 where
  pub id : String
  pub reason : String

pub record Analysis (F : Type 0) : Type 0 where
  pub invoice_id : String
  pub verdict : Verdict
  pub questions : List (Question F)
  pub code_checks : List (CodeCheck F)
  pub determinants : List Factor
  pub llm_support : LlmSupport

unfoldable pub localize_doc_type : String → String
localize_doc_type v =
    if str_eq v "nfe"
    then "NF-e"
    else if str_eq v "receipt"
    then "recibo"
    else if str_eq v "service_invoice"
    then "fatura de serviço"
    else if str_eq v "other"
    then "outro"
    else v

unfoldable pub localize_routing : String → String
localize_routing v =
    if str_eq v "fiscal"
    then "setor fiscal"
    else if str_eq v "accounts_payable"
    then "contas a pagar"
    else if str_eq v "review"
    then "revisão"
    else if str_eq v "other"
    then "outro"
    else v

unfoldable pub localize_risk : String → String
localize_risk v =
    if str_eq v "low"
    then "baixo"
    else if str_eq v "medium"
    then "médio"
    else if str_eq v "high"
    then "alto"
    else v

unfoldable pub has_factor : List Factor → String → Bool
has_factor [] id = false
has_factor (f ∷ fs) id = str_eq f.id id || has_factor fs id

module _ {F : Type 0} ⦃d : Float F⦄ where
  unfoldable pub choice_question : String → String → String → F → Question F
  choice_question id instructions answer conf = record {
    id = id;
    type = choice;
    instructions = instructions;
    answer = answer;
    noul = nought;
    score = nought;
    confidence = conf;
    threshold = confidence_floor;
    triggered = d.lt conf confidence_floor;
  }

  unfoldable pub noul_question : String → String → F → Question F
  noul_question id instructions value = record {
    id = id;
    type = QuestionType.noul;
    instructions = instructions;
    answer = "";
    noul = value;
    score = nought;
    confidence = nought;
    threshold = noul_threshold;
    triggered = d.lt value noul_threshold;
  }

  unfoldable pub score_question : String → String → String → F → F → Question F
  score_question id instructions label value conf = record {
    id = id;
    type = QuestionType.score;
    instructions = instructions;
    answer = label;
    noul = nought;
    score = value;
    confidence = conf;
    threshold = confidence_floor;
    triggered = d.lt conf confidence_floor;
  }

  unfoldable pub questions_of : Invoice F → List (Question F)
  unfolding choice_question noul_question score_question
  questions_of inv =
      choice_question "document_type" "Que tipo de documento é o texto do OCR?"
        (localize_doc_type inv.document_type) inv.document_type_conf
      ∷ choice_question "routing" "Se este documento precisa ser encaminhado, para qual setor?"
          (localize_routing inv.suggested_routing) inv.routing_confidence
      ∷ noul_question "amounts_supported"
          "Os valores extraídos dos itens e o total estimado aparecem no texto do OCR?"
          inv.amounts_supported
      ∷ noul_question "items_qty_supported"
          "Os itens e as quantidades extraídos têm suporte no texto do OCR?" inv.items_qty_supported
      ∷ noul_question "total_consistent"
          "O total estimado é consistente com a soma dos itens e com os totais do OCR?"
          inv.total_consistent
      ∷ score_question "risk" "Qual o risco de confiar nos dados extraídos em relação ao OCR?"
          (localize_risk inv.risk_label) inv.risk_score inv.risk_confidence
      ∷ []

  unfoldable pub mismatch_of : Invoice F → Bool
  mismatch_of inv = d.lt total_delta (abs (d.sub inv.estimated_total inv.computed_items_total))

  module _ (fixed2 : F → String) where
    unfoldable pub question_reason : Question F → String
    question_reason q = elim q.type [
      | noul ↦
          "probabilidade sim/não "
          <> fixed2 q.noul
          <> " está abaixo do limiar "
          <> fixed2 q.threshold
      | choice ↦
          "confiança " <> fixed2 q.confidence <> " está abaixo do limiar " <> fixed2 q.threshold
      | score ↦
          "confiança " <> fixed2 q.confidence <> " está abaixo do limiar " <> fixed2 q.threshold
    ]

    -- The loop that collects the triggered questions.
    unfoldable pub triggered_factors : List (Question F) → List Factor
    triggered_factors [] = []
    triggered_factors (q ∷ qs) =
        let rest = triggered_factors qs in
        if q.triggered then record { id = q.id; reason = question_reason q } ∷ rest else rest

    unfoldable pub mismatch_factors : Invoice F → List Factor
    unfolding mismatch_of
    mismatch_factors inv =
        if mismatch_of inv
        then record {
          id = "item_total_mismatch";
          reason =
              "o total estimado ("
              <> fixed2 inv.estimated_total
              <> ") e a soma dos itens ("
              <> fixed2 inv.computed_items_total
              <> ") diferem mais que "
              <> fixed2 total_delta;
        }
          ∷ []
        else []

    unfoldable pub routing_factors : Invoice F → List Factor → List Factor
    routing_factors inv found =
        if (str_eq inv.suggested_routing "other" || d.lt inv.routing_confidence confidence_floor)
          && not (has_factor found "routing")
        then record {
          id = "effective_routing";
          reason =
              "o roteamento sugerido é indefinido ou a confiança está abaixo do limiar; o roteamento efetivo é revisão";
        }
          ∷ []
        else []

    unfoldable pub determinants_of : Invoice F → List Factor
    unfolding triggered_factors mismatch_factors routing_factors
    determinants_of inv =
        let found = triggered_factors (questions_of inv) ++ mismatch_factors inv in
        found ++ routing_factors inv found

    unfoldable pub explain : Invoice F → Analysis F
    unfolding determinants_of questions_of mismatch_of
    explain inv = record {
      invoice_id = inv.id;
      verdict = record {
        needs_review = inv.needs_review;
        items_confirmed = inv.items_confirmed;
        effective_routing = localize_routing inv.effective_routing;
        suggested_routing = localize_routing inv.suggested_routing;
      };
      questions = questions_of inv;
      code_checks =
          record {
            id = "item_total_mismatch";
            description =
                "estimated_total é o valor de total lido no cupom/OCR. computed_items_total é a soma das linhas extraídas (quantidade × valor ou subtotal). Quando os dois são iguais, a conta fecha; se diferirem além do limiar, o código marca revisão.";
            estimated_total = inv.estimated_total;
            computed_items_total = inv.computed_items_total;
            triggered = mismatch_of inv;
          }
          ∷ [];
      determinants = determinants_of inv;
      llm_support = record {
        used = inv.assist_used;
        model = inv.assist_model;
        notes = inv.assist_notes;
        role =
            "Apoio à leitura do OCR (itens e notas). O Jev e o código decidem revisão e roteamento.";
      };
    }
