-- ===== src/Service/Judging.antt =====
-- internal/invoice/service.go: `applyAssist`, `judgeWithAssist`, `evaluateJudge` and
-- `extractChanged`. The assistant and the judge run side by side on the same hint, and neither reads
-- what the other writes, so the model runs one after the other. Times are inputs.
pub mod Agreement
use invoice_ocr_poc.Base.{
  Bool, true, false, not, ◌&&◌, ◌||◌, Option, none, some, List, [], ◌∷◌, String, Int64, add64,
  is_empty, if◌then◌else◌, length, ◌==◌,
}
use invoice_ocr_poc.Float.{Float, nought}
use invoice_ocr_poc.Strings.{Text, codes, same_text}
use invoice_ocr_poc.Errors.{Error, other, message}
use mathlib.Core.List.{◌++◌}
use invoice_ocr_poc.Extract.{Extract, Item}
use invoice_ocr_poc.Jev.Answers.{State, Judgment, no_judgment}
use invoice_ocr_poc.Jev.Answers
use invoice_ocr_poc.Store.Invoice.{Invoice}
use invoice_ocr_poc.Service.Types.{Assistant, Judge, Job, needs_assist}
use invoice_ocr_poc.Service.Apply.{apply_open_router_usage}

-- The milliseconds that the two hops and the second judgment took.
pub record HopTimes : Type 0 where
  pub assist_took : Int64
  pub jev_took : Int64
  pub again_took : Int64

-- What `judgeWithAssist` returns, with the job that it changed.
pub record Judged (F : Type 0) : Type 0 where
  pub job : Job F
  pub parsed : Extract F
  pub judgment : Judgment F
  pub usage : Answers.Usage F
  pub error : Option Error

module _ {F : Type 0} ⦃d : Float F⦄ where
  unfoldable pub same_item : Item F → Item F → Bool
  same_item a b =
      same_text a.description b.description
      && d.eq a.quantity b.quantity
      && d.eq a.unit_amount b.unit_amount
      && d.eq a.line_total b.line_total

  -- The loop over two lists of one length.
  unfoldable pub items_differ : List (Item F) → List (Item F) → Bool
  items_differ [] bs = false
  items_differ (a ∷ as') [] = false
  items_differ (a ∷ as') (b ∷ bs) = if same_item a b then items_differ as' bs else true

  unfoldable pub extract_changed : Extract F → Extract F → Bool
  extract_changed before after =
      if is_empty after.items
      then false
      else if not (length before.items == length after.items)
      then true
      else if not (d.eq before.estimated_total after.estimated_total)
          || not (d.eq before.computed_items_total after.computed_items_total)
      then true
      else items_differ before.items after.items

  -- A call of `Assist`: the extract after it, and the invoice with its traces. The notes of a failed
  -- call are the error's text.
  unfoldable pub ask_assist :
      (String → Text) → Assistant F → Text → Extract F → Invoice F → Extract F × Invoice F
  ask_assist text_of a ocr_text parsed inv =
      let (improved, notes, usage, failure) = a.assist ocr_text parsed in
      let called = apply_open_router_usage usage (record inv { assist_model = a.model }) in
      elim failure [
        | some e ↦ (
          parsed,
          record called {
            assist_notes = codes "falha no apoio LLM: " ++ text_of (message e);
            assist_used = false;
          },
        )
        | none ↦ (
          if is_empty improved.items then parsed else improved,
          record called { assist_used = true; assist_notes = notes },
        )
      ]

  unfoldable pub apply_assist :
      (String → Text) → Option (Assistant F) → Text → Extract F → Invoice F → Extract F × Invoice F
  apply_assist text_of none ocr_text parsed inv = (parsed, inv)
  apply_assist text_of (some a) ocr_text parsed inv =
      if a.enabled && needs_assist parsed
      then ask_assist text_of a ocr_text parsed inv
      else (parsed, inv)

  unfoldable pub evaluate_judge :
      Judge F → Text → Extract F → Judgment F × Answers.Usage F × Option Error
  evaluate_judge judge ocr_text parsed =
      judge.evaluate (record { ocr_text = ocr_text; extracted = parsed })

  -- Whether the assistant is asked.
  unfoldable pub wants_assist : Option (Assistant F) → Extract F → Bool
  wants_assist none parsed = false
  wants_assist (some a) parsed = a.enabled && needs_assist parsed

  abbrev pub judged : Job F → Extract F → Judgment F × Answers.Usage F × Option Error → Judged F
  judged j parsed (judgment, usage, failure) = record {
    job = j;
    parsed = parsed;
    judgment = judgment;
    usage = usage;
    error = failure;
  }

  -- Behind the two concurrent calls: a changed extract is judged again, and the second judgment, its
  -- usage and its error replace the first.
  unfoldable pub after_assist : Judge F → Text → Extract F → Extract F → HopTimes → Job F → Judged F
  after_assist judge ocr_text hint parsed t j =
      if extract_changed hint parsed
      then judged (record j { jev_ms = add64 t.jev_took t.again_took }) parsed
          (evaluate_judge judge ocr_text parsed)
      else judged j parsed (evaluate_judge judge ocr_text hint)

  unfoldable pub judge_with :
      (String → Text)
      → Judge F
      → Option (Assistant F)
      → Text
      → Extract F
      → HopTimes
      → Job F
      → Judged F
  judge_with text_of judge assist ocr_text hint t j =
      let assisted = apply_assist text_of assist ocr_text hint j.inv in
      let both = record j { inv = assisted.1; assist_ms = t.assist_took; jev_ms = t.jev_took } in
      if wants_assist assist hint
      then after_assist judge ocr_text hint assisted.0 t both
      else judged (record j { jev_ms = t.jev_took }) hint (evaluate_judge judge ocr_text hint)

  unfoldable pub judge_with_assist :
      (String → Text)
      → Option (Judge F)
      → Option (Assistant F)
      → Text
      → Extract F
      → HopTimes
      → Job F
      → Judged F
  judge_with_assist text_of none assist ocr_text parsed t j =
      judged j parsed (no_judgment, Answers.no_usage, some (other "jev client is not configured"))
  judge_with_assist text_of (some judge) assist ocr_text parsed t j =
      judge_with text_of judge assist ocr_text parsed t j
