-- ===== src/System/Handing.antt =====
-- The steps of the pipeline keep what holds in every state of the service.
use invoice_ocr_poc.Base.{
  ◌+◌, ◌≤◌, none, some, Option, ◌≡◌, inl, inr, refl, sym, ap, subst, ◌∙◌, String, arith, [], ◌∷◌,
  List,
}
use invoice_ocr_poc.Float.{Float}
use invoice_ocr_poc.Errors.{Error}
use invoice_ocr_poc.Store.Db.{IsDb}
use invoice_ocr_poc.Service.Types.{Service}
use invoice_ocr_poc.Worker.Stage.{Label, quiet, emits, fails, drops, count}
use invoice_ocr_poc.Worker.Pipeline.{PipelineOptions, Pipeline, Step, then_step}
use invoice_ocr_poc.System.Counts.{times, leaves, step-Moved, step-Ended}
use invoice_ocr_poc.System.Steps.{System, put, label_of, leaver, forgotten, LabelAgrees, moved}
use invoice_ocr_poc.System.Invariant.{
  Ok, one_place, put_same, put_other, str_eq-cases, times_one, times_other,
}

module _ (k : String) (ran : String → Option (Option Error)) (r : Option Error) where
  put_kept : (id : String) → put id none ran k ≡ some r → (ran k ≡ some r) × (times k (id ∷ []) ≡ 0)
  put_kept id q = elim (str_eq-cases id k) [
    | inl e ↦ absurd (cc (q, ap (λ i. put id none ran i) e, put_same id none ran))
    | inr n ↦ (sym (put_other id k none ran n) ∙ q, times_other k id (λ h. n (sym h)))
  ]

  -- A job of which the service still knows a return did not leave in this step.
  forgotten_kept :
      (l : Label String) → forgotten (leaver l) ran k ≡ some r → (ran k ≡ some r) × (leaves k l ≡ 0)
  unfolding forgotten
  forgotten_kept quiet q = (q, refl)
  forgotten_kept (emits id) q = put_kept id q
  forgotten_kept (fails id) q = put_kept id q
  forgotten_kept (drops id) q = put_kept id q

times_cons :
    (k id : String) (ids : List String) → times k (id ∷ ids) ≡ times k (id ∷ []) + times k ids
unfolding times count
times_cons k id ids = ground arith

module _ {F T C D : Type 0} ⦃d : Float F⦄ (s : Service F T C) (laws : IsDb s.db) where
  pub moved-Ok :
      {opts : PipelineOptions} {x : System F T C D} {q : Pipeline String}
      → Ok s laws opts x
      → (step : Step x.line.pipe q) → q.accepted ≡ x.line.pipe.accepted
      → LabelAgrees x.ran (label_of step)
      → Ok s laws opts (moved x step)
  unfolding moved
  moved-Ok {x = x} {q = q} h step same agrees =
      let l = label_of step in
      let kept : (k : String) (r : Option Error)
          → forgotten (leaver l) x.ran k ≡ some r
          → (x.ran k ≡ some r) × (leaves k l ≡ 0) =
        λ k r e. forgotten_kept k x.ran r l e in
      record {
        reachable = then_step h.reachable step;
        unique = λ k. subst (λ ids. times k ids ≤ 1) (sym same) (h.unique k);
        own = h.own;
        at_workers = λ k r e.
            let (before, stays) = kept k r e in
            omega (arith, (step-Moved k step).0, h.at_workers k r before, stays);
        done_rows = λ k there. elim (step-Ended k step) [
          | inl e ↦ h.done_rows k (omega (arith, e, there))
          | inr (j, emitted, e, last) ↦ elim (str_eq-cases k j) [
            | inl here ↦
                let fine = subst (LabelAgrees x.ran) emitted agrees in
                let self = subst (λ i. times k (i ∷ []) ≡ 1) here (times_one k) in
                h.jev_rows k (omega (arith, last, self)) (ap x.ran here ∙ fine)
            | inr n ↦
                h.done_rows k
                  (omega (arith, e, there, times_cons k j x.line.pipe.done, times_other k j n))
          ]
        ];
        jev_rows = λ k there e.
            let (before, stays) = kept k none e in
            h.jev_rows k
              (omega (
                arith,
                there,
                (step-Moved k step).1,
                one_place s laws h k,
                h.at_workers k none before,
              ))
              before;
      }
