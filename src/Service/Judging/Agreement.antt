-- ===== src/Service/Judging/Agreement.antt =====
-- The judgment that `judgeWithAssist` returns is about the extract that it returns.
use invoice_ocr_poc.Base.{
  true, false, ◌&&◌, Option, none, some, ◌≡◌, refl, ◌⊎◌, inl, inr, String, length, is_empty, arith,
  Bool-cases, sym,
}
use invoice_ocr_poc.Float.{Float}
use invoice_ocr_poc.Strings.{Text}
use invoice_ocr_poc.Errors.{Error}
use invoice_ocr_poc.Extract.{Extract}
use invoice_ocr_poc.Store.Invoice.{Invoice}
use invoice_ocr_poc.Service.Types.{Assistant, Judge, Job, needs_assist}
use invoice_ocr_poc.Service.Judging.{
  HopTimes, Judged, extract_changed, items_differ, ask_assist, apply_assist, evaluate_judge,
  wants_assist, after_assist, judge_with,
}

module _ {F : Type 0} ⦃d : Float F⦄ where
  -- Two extracts that are one, or have as many items, equal totals and pairwise equal items. The flag
  -- that tells whether a total line was found may differ.
  abbrev pub SameEvidence : Extract F → Extract F → Type 0
  SameEvidence x p =
      (x ≡ p)
      ⊎ ((length x.items ≡ length p.items)
          × (d.eq x.estimated_total p.estimated_total ≡ true)
          × (d.eq x.computed_items_total p.computed_items_total ≡ true)
          × (items_differ x.items p.items ≡ false))

  ask_assist_cases :
      (text_of : String → Text) (a : Assistant F) (ocr_text : Text) (hint : Extract F)
      (inv : Invoice F)
      → let parsed = (ask_assist text_of a ocr_text hint inv).0 in
        (parsed ≡ hint) ⊎ (is_empty parsed.items ≡ false)
  unfolding ask_assist
  ask_assist_cases text_of a ocr_text hint inv = cases (a.assist ocr_text hint).3 refl
    where
      cases :
          (f : Option Error)
          → (a.assist ocr_text hint).3 ≡ f
          → let parsed = (ask_assist text_of a ocr_text hint inv).0 in
            (parsed ≡ hint) ⊎ (is_empty parsed.items ≡ false)
      cases (some e) q = inl (rw (q, ask_assist))
      cases none q = elim (Bool-cases (is_empty (a.assist ocr_text hint).0.items)) [
        | inl none_found ↦ inl (rw (q, ask_assist, none_found))
        | inr found ↦ inr (rw (q, ask_assist, found) found)
      ]

  unchanged :
      (hint parsed : Extract F)
      → is_empty parsed.items ≡ false
      → extract_changed hint parsed ≡ false
      → SameEvidence hint parsed
  unfolding extract_changed
  unchanged hint parsed some_items h = inr (ground arith)

  apply_assist_cases :
      (text_of : String → Text) (assist : Option (Assistant F)) (ocr_text : Text) (hint : Extract F)
      (inv : Invoice F)
      → let parsed = (apply_assist text_of assist ocr_text hint inv).0 in
        (parsed ≡ hint) ⊎ (is_empty parsed.items ≡ false)
  unfolding apply_assist
  apply_assist_cases text_of none ocr_text hint inv = inl refl
  apply_assist_cases text_of (some a) ocr_text hint inv =
      elim (Bool-cases (a.enabled && needs_assist hint)) [
        | inl asked ↦ rw asked (ask_assist_cases text_of a ocr_text hint inv)
        | inr skipped ↦ inl (rw skipped)
      ]

  -- The judgment, the usage and the error of a result are those of one call of the judge, about the
  -- given evidence.
  abbrev pub IsJudgedOn : Judge F → Text → Extract F → Judged F → Type 0
  IsJudgedOn judge ocr_text x r =
      (r.judgment ≡ (evaluate_judge judge ocr_text x).0)
      × (r.usage ≡ (evaluate_judge judge ocr_text x).1)
      × (r.error ≡ (evaluate_judge judge ocr_text x).2)

  after_assist_agrees :
      (judge : Judge F) (ocr_text : Text) (hint parsed : Extract F) (t : HopTimes) (j : Job F)
      → (parsed ≡ hint) ⊎ (is_empty parsed.items ≡ false)
      → let r = after_assist judge ocr_text hint parsed t j in
        (x : Extract F) × SameEvidence x r.parsed × IsJudgedOn judge ocr_text x r
  unfolding after_assist
  after_assist_agrees judge ocr_text hint parsed t j origin =
      elim (Bool-cases (extract_changed hint parsed)) [
        | inl again ↦ rw again (parsed, inl refl, (refl, refl, refl))
        | inr once ↦ rw once (
          hint,
          elim origin [ inl same ↦ inl (sym same) | inr found ↦ unchanged hint parsed found once ],
          (refl, refl, refl),
        )
      ]

  -- Whatever the assistant answers, the judgment that is returned was made in one call of the judge,
  -- on the recognised text and the extract that is returned, or on one with as many items, equal
  -- totals and pairwise equal items; and the usage and the error are those of that same call.
  pub judge_with_agrees :
      (text_of : String → Text) (judge : Judge F) (assist : Option (Assistant F)) (ocr_text : Text)
      (hint : Extract F) (t : HopTimes) (j : Job F)
      → let r = judge_with text_of judge assist ocr_text hint t j in
        (x : Extract F) × SameEvidence x r.parsed × IsJudgedOn judge ocr_text x r
  unfolding judge_with
  judge_with_agrees text_of judge assist ocr_text hint t j =
      elim (Bool-cases (wants_assist assist hint)) [
        | inl asked ↦ rw asked (
            after_assist_agrees judge ocr_text hint _ t _
              (apply_assist_cases text_of assist ocr_text hint j.inv))
        | inr skipped ↦ rw skipped (hint, inl refl, (refl, refl, refl))
      ]
