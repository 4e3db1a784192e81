-- ===== src/Service/Stages/Failure.antt =====
-- What `fail` leaves behind: the failed invoice, or nothing if the job's context has ended.
use invoice_ocr_poc.Base.{◌≢◌, true, false, Option, none, some, ◌≡◌, refl, String}
use invoice_ocr_poc.Float.{Float}
use invoice_ocr_poc.Errors.{Error, err, wrap, ctx, CtxError, message}
use invoice_ocr_poc.Store.Invoice.{Invoice, failed}
use invoice_ocr_poc.Store.Db.{IsDb}
use invoice_ocr_poc.Store.Writes.{Store, Watch, update, do_write}
use invoice_ocr_poc.Store.Persistence.{row_of, update-row, update_other}
use invoice_ocr_poc.Service.Types.{Engine, Service, Job, World}
use invoice_ocr_poc.Service.Cascade.{recognize_cascade}
use invoice_ocr_poc.Service.Stages.{Sights, failed_invoice, named_cause, fail, stage_ocr}

module _ {F T C : Type 0} ⦃d : Float F⦄ (s : Service F T C) where
  pub fail_reports :
      (cause : Error) (o : Sights) (w : World T C) (j : Job F)
      → (e : Error) × ((fail s cause o w j).2 ≡ some e)
  unfolding fail
  fail_reports cause o w j = (_, refl)

  stage_ocr-fail :
      (tess ollama : Option (Engine F)) (o : Sights) (w : World T C) (j : Job F) (e : Error)
      → (recognize_cascade s j.img_path tess ollama w.asked).1 ≡ err e
      → let asked = (recognize_cascade s j.img_path tess ollama w.asked).0 in
        stage_ocr s tess ollama o w j ≡ fail s (wrap "ocr" e) o (record w { asked = asked }) j
  unfolding stage_ocr
  stage_ocr-fail tess ollama o w j e h = rw (stage_ocr, h) refl

  pub update_live :
      (inv : Invoice F) (w : Watch) (st : Store T)
      → w.entry ≡ none
      → w.wait ≡ none
      → st.stopped ≡ false
      → (s.db.save inv w.run st.table).1 ≡ none
      → (update s.db inv w st).1 ≡ none
  unfolding update do_write
  update_live inv w st entry wait opened saved = rw (entry, opened, saved, wait) refl

  -- If no engine can read the image, and the failure can be written (the context is live, the store
  -- open, the statement succeeds), then the row under the job's id is the job's invoice marked as
  -- failed and as needing review, with the cause's text, every other row is as before, and the stage
  -- reports the cause.
  pub stage_ocr_failed :
      (laws : IsDb s.db) (tess ollama : Option (Engine F)) (o : Sights) (w : World T C) (j : Job F)
      (e : Error) (k : String)
      → (recognize_cascade s j.img_path tess ollama w.asked).1 ≡ err e
      → o.fail_watch.entry ≡ none
      → o.fail_watch.wait ≡ none
      → w.store.stopped ≡ false
      → (s.db.save
          (failed_invoice s j.inv (named_cause s (wrap "ocr" e)) o.job_took)
          o.fail_watch.run
          w.store.table).1
        ≡ none
      → j.inv.id ≢ k
      → let r = stage_ocr s tess ollama o w j in
        let cause = named_cause s (wrap "ocr" e) in
        let inv : Invoice F = record j.inv {
          processing_ms = o.job_took;
          status = failed;
          error_message = message cause;
          needs_review = true;
        } in
        (row_of s.db laws r.0.store j.inv.id ≡ some inv)
        × (row_of s.db laws r.0.store k ≡ row_of s.db laws w.store k)
        × (r.1 ≡ record j { inv = inv })
        × (r.2 ≡ some cause)
  unfolding fail
  stage_ocr_failed laws tess ollama o w j e k h entry wait opened saved n =
      let inv = failed_invoice s j.inv (named_cause s (wrap "ocr" e)) o.job_took in
      let fine = update_live inv o.fail_watch w.store entry wait opened saved in
      rw (stage_ocr-fail tess ollama o w j e h) (
        update-row s.db laws inv o.fail_watch w.store fine,
        update_other s.db laws inv o.fail_watch w.store k n,
        refl,
        rw fine refl,
      )

  -- If the job's context has ended when the failure is to be written, as it has when the engines
  -- failed because of the job's deadline, then the store is as before: the row keeps the status that
  -- it had. The stage reports the context's error and not the cause.
  pub stage_ocr_expired :
      (tess ollama : Option (Engine F)) (o : Sights) (w : World T C) (j : Job F) (e : Error)
      (c : CtxError)
      → (recognize_cascade s j.img_path tess ollama w.asked).1 ≡ err e
      → o.fail_watch.entry ≡ some c
      → let r = stage_ocr s tess ollama o w j in
        (r.0.store ≡ w.store)
        × (r.2 ≡ some (wrap "save failed invoice" (wrap "update invoice" (ctx c))))
  unfolding fail update do_write
  stage_ocr_expired tess ollama o w j e c h entry =
      rw (stage_ocr-fail tess ollama o w j e h, entry) (refl, refl)
