-- ===== src/Jev/Questions.antt =====
-- internal/jev/client.go: the questions that a request asks.
use invoice_ocr_poc.Base.{List, [], ◌∷◌, String}
use invoice_ocr_poc.Jev.Explain.{QuestionType, choice, noul, score}

-- A question; the criteria of a score have no names.
pub record Asked : Type 0 where
  pub id : String
  pub type : QuestionType
  pub instructions : String
  pub criteria : List (String × String)

unfoldable pub questions : List Asked
questions =
    record {
      id = "document_type";
      type = choice;
      instructions = "What kind of document is `ocr_text`?";
      criteria =
          ("nfe", "A Brazilian NF-e or similar tax invoice.")
          ∷ ("receipt", "A payment receipt or comprovante.")
          ∷ ("service_invoice", "A service invoice or NFS-e.")
          ∷ ("other", "None of the listed document types.")
          ∷ [];
    }
    ∷ record {
      id = "routing";
      type = choice;
      instructions =
          "If this document must be routed, which desk should review it given `ocr_text` and `extracted`?";
      criteria =
          ("fiscal", "Tax / fiscal review.")
          ∷ ("accounts_payable", "Accounts payable.")
          ∷ ("other", "Neither fiscal nor accounts payable, or unclear.")
          ∷ [];
    }
    ∷ record {
      id = "amounts_supported";
      type = noul;
      instructions =
          "Are the amounts in `extracted.items` and `extracted.estimated_total` supported by `ocr_text`?";
      criteria =
          ("true", "The cited amounts appear in the OCR text.")
          ∷ ("false", "The amounts are missing, invented, or contradicted.")
          ∷ [];
    }
    ∷ record {
      id = "items_qty_supported";
      type = noul;
      instructions =
          "Are the line items and quantities in `extracted.items` supported by `ocr_text`?";
      criteria =
          ("true", "Item descriptions and quantities match the OCR text.")
          ∷ ("false", "Items or quantities are unsupported or contradicted.")
          ∷ [];
    }
    ∷ record {
      id = "total_consistent";
      type = noul;
      instructions =
          "Is `extracted.estimated_total` consistent with `extracted.computed_items_total` and the totals in `ocr_text`?";
      criteria =
          ("true", "The estimated total agrees with the item sum and OCR totals.")
          ∷ ("false", "The totals disagree or a total is missing.")
          ∷ [];
    }
    ∷ record {
      id = "risk";
      type = score;
      instructions = "How risky is trusting `extracted` against `ocr_text`?";
      criteria =
          ("", "Amounts, quantities, and totals line up with the OCR text.")
          ∷ ("", "Some lines are missing, ambiguous, or only partly supported.")
          ∷ ("", "Totals or quantities contradict the OCR text or look fabricated.")
          ∷ [];
    }
    ∷ []
