-- ===== src/Httpserver/Faithful.antt =====
-- The analysis of a job that the client of internal/jev judged agrees with what it shows.
use invoice_ocr_poc.Base.{
  false, not, ◌||◌, Option, none, some, ◌≡◌, refl, sym, ap, subst, ◌∙◌, String, Int64, any,
  Option-cases, inl, inr,
}
use invoice_ocr_poc.Errors.{Error, Result-cases, wrap}
use invoice_ocr_poc.Float.{Float}
use invoice_ocr_poc.Strings.{Text}
use invoice_ocr_poc.Http.{Verbs}
use invoice_ocr_poc.Store.Writes.{update}
use invoice_ocr_poc.Jev.Answers.{State, Response}
use invoice_ocr_poc.Jev.Compose.{compose}
use invoice_ocr_poc.Jev.Explain.{
  Analysis, explain, determinants_of, questions_of, mismatch_of, mismatch_factors, routing_factors,
}
use invoice_ocr_poc.Jev.Verdict.{is_triggered, check_triggered, explain_faithful}
use invoice_ocr_poc.Jev.Client.{Client, Network, Json, evaluate, judge}
use invoice_ocr_poc.Jev.Retries.{evaluate-composed}
use invoice_ocr_poc.Service.Types.{Service, Job, World}
use invoice_ocr_poc.Service.Apply.{apply_judgment, apply_jev_usage}
use invoice_ocr_poc.Service.Judging.{
  HopTimes, Judged, judge_with_assist, judge_with, wants_assist, evaluate_judge,
}
use invoice_ocr_poc.Service.Types.{Judge}
use invoice_ocr_poc.Service.Cascade.{engine_available}
use invoice_ocr_poc.Service.Stages.Failure.{fail_reports}
use invoice_ocr_poc.Service.Stages.{
  Sights, store_judged, judge_job, stage_jev, apply_open_router_ocr, done_invoice, with_extract,
}

module _ {F : Type 0} ⦃d : Float F⦄ (fixed2 : F → String) where
  -- What the verdict says agrees with the questions and checks that are shown.
  abbrev pub IsFaithful : Analysis F → Type 0
  IsFaithful a =
      (a.verdict.needs_review
        ≡ (any (is_triggered fixed2) a.questions || any (check_triggered fixed2) a.code_checks))
      × (a.verdict.items_confirmed ≡ not a.verdict.needs_review)

module _ {F T C : Type 0} ⦃d : Float F⦄ (s : Service F T C) where
  -- Without an OpenRouter engine and a cache hit, the last stage is the judgment.
  stage_jev-judge_job :
      (text_of : String → Text) (judge : Option (Judge F)) (t : HopTimes) (o : Sights)
      (w : World T C) (j : Job F)
      → j.cache_hit ≡ false
      → stage_jev s text_of judge none none t o w j ≡ judge_job s text_of judge none t o w j
  unfolding stage_jev apply_open_router_ocr engine_available
  stage_jev-judge_job text_of judge t o w j miss = simp (stage_jev, miss)

  -- A judgment that was stored without an error has this invoice.
  store_judged-done_invoice :
      (r : Judged F) (o : Sights) (w : World T C)
      → (store_judged s r o w).2 ≡ none
      → (json : String) × ((store_judged s r o w).1.inv ≡ done_invoice s r json o.job_took)
  unfolding store_judged
  store_judged-done_invoice r o w h = elim (Result-cases (s.marshal r.parsed.items)) [
    | inr (x, q) ↦
        let (e, reported) = fail_reports s (wrap "marshal items" x) o w r.job in
        let failed = rw (store_judged, q) at h in absurd (cc (failed, reported))
    | inl (json, q) ↦
        elim (Option-cases (update s.db (done_invoice s r json o.job_took) o.watch w.store).1) [
          | inl fine ↦ (json, rw (store_judged, q, fine) refl)
          | inr (x, bad) ↦ absurd (cc (rw (store_judged, q, bad) at h))
        ]
  ]

  module _ (fixed2 : F → String) where
    -- The times and the usage do not show in an explanation.
    explain-done_invoice :
        (r : Judged F) (json : String) (took : Int64)
        → explain fixed2 (done_invoice s r json took)
          ≡ explain fixed2 (apply_judgment r.judgment (with_extract s json r.parsed r.job.inv))
    unfolding explain determinants_of questions_of mismatch_of mismatch_factors routing_factors
        apply_jev_usage apply_judgment
    explain-done_invoice r json took = refl

    composed-IsFaithful :
        (show_int : Int64 → String) (state : State F) (resp : Response F) (r : Judged F)
        (json : String) (took : Int64)
        → r.parsed ≡ state.extracted
        → r.judgment ≡ compose show_int state resp
        → IsFaithful fixed2 (explain fixed2 (done_invoice s r json took))
    composed-IsFaithful show_int state resp r json took on_it made =
        let inv = with_extract s json r.parsed r.job.inv in
        let shown =
          explain_faithful fixed2 show_int state resp inv (ap (λ x. x.estimated_total) on_it)
            (ap (λ x. x.computed_items_total) on_it) in
        let same =
          explain-done_invoice r json took ∙ ap (λ j. explain fixed2 (apply_judgment j inv)) made in
        subst (IsFaithful fixed2) (sym same) (shown.0, shown.1)

    module _ (net : Network) (json : Json F) (verbs : Verbs) (show_int : Int64 → String)
        (elapsed : Int64) (c : Client) where
      judge_job-IsFaithful :
          (text_of : String → Text) (t : HopTimes) (o : Sights) (w : World T C) (j : Job F)
          → let out =
              judge_job s text_of (some (judge net json verbs show_int elapsed c)) none t o w j in
            out.2 ≡ none → IsFaithful fixed2 (explain fixed2 out.1.inv)
      unfolding judge_job judge_with_assist judge_with evaluate_judge wants_assist store_judged
      judge_job-IsFaithful text_of t o w j h =
          let evidence : State F = record { ocr_text = j.ocr_res.text; extracted = j.parsed } in
          let r =
            judge_with_assist text_of (some (judge net json verbs show_int elapsed c)) none
              j.ocr_res.text j.parsed t j in
          elim (Option-cases (evaluate net json verbs show_int elapsed c evidence).2) [
            | inr (e, bad) ↦
                let (x, reported) = fail_reports s (wrap "jev" e) o w r.job in
                let failed = rw (judge_job, bad) at h in absurd (cc (failed, reported))
            | inl fine ↦
                let (resp, made, used) =
                  evaluate-composed net json verbs show_int elapsed c evidence fine in
                let stored = rw (judge_job, fine) at h in
                let (encoded, same) = store_judged-done_invoice r o w stored in
                rw (judge_job, fine)
                  (subst (λ inv. IsFaithful fixed2 (explain fixed2 inv)) (sym same)
                    (composed-IsFaithful show_int evidence resp r encoded o.job_took refl made))
          ]

      -- The last stage with the client, without an assistant and an OpenRouter engine.
      abbrev pub last_stage :
          (String → Text) → HopTimes → Sights → World T C → Job F → World T C × Job F × Option Error
      last_stage text_of t o w j =
          stage_jev s text_of (some (judge net json verbs show_int elapsed c)) none none t o w j

      -- A job that the client judged, without a cache hit, an assistant or a second reading, and that
      -- leaves the last stage without an error, has an analysis that is marked for review exactly if
      -- it shows a triggered question or code check, and confirms its items exactly if it is not.
      pub stage_jev-IsFaithful :
          (text_of : String → Text) (t : HopTimes) (o : Sights) (w : World T C) (j : Job F)
          → j.cache_hit ≡ false
          → let out =
              stage_jev s text_of
                (some (judge net json verbs show_int elapsed c))
                none
                none
                t
                o
                w
                j in
            out.2 ≡ none → IsFaithful fixed2 (explain fixed2 out.1.inv)
      stage_jev-IsFaithful text_of t o w j miss h =
          let same =
            stage_jev-judge_job text_of (some (judge net json verbs show_int elapsed c)) t o w j
              miss in
          subst (λ out. IsFaithful fixed2 (explain fixed2 out.1.inv)) (sym same)
            (judge_job-IsFaithful text_of t o w j (ap (λ out. out.2) (sym same) ∙ h))
