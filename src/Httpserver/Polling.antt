-- ===== src/Httpserver/Polling.antt =====
-- What a client of internal/httpserver sees when it polls an invoice that it has uploaded.
use Prim.Native.String.{◌++◌}
use invoice_ocr_poc.Base.{
  true, Option, some, ◌≡◌, ◌≢◌, refl, ap, sym, ◌∙◌, String, ℕ, ◌⊎◌, ◌↔◌, inl, inr, Bool-cases,
  Option-cases, none, arith,
}
use invoice_ocr_poc.Errors.{Ctx, Error, Result, Result-cases, ok, err, live}
use invoice_ocr_poc.Float.{Float}
use invoice_ocr_poc.Strings.{Text}
use invoice_ocr_poc.Store.Invoice.{Invoice, Status, queued, processing, done, failed}
use invoice_ocr_poc.Store.Db.{IsDb}
use invoice_ocr_poc.Store.Writes.{Store}
use invoice_ocr_poc.Store.Writes
use invoice_ocr_poc.Store.Persistence.{row_of}
use invoice_ocr_poc.Service.Types.{Engine, Assistant, Judge, Service, Job, World}
use invoice_ocr_poc.Service.Judging.{HopTimes}
use invoice_ocr_poc.Service.Stages.{Sights, stage_jev}
use invoice_ocr_poc.Service.Stages.Done.{stage_jev_done}
use invoice_ocr_poc.Service.Uploads.{
  IsDisk, Upload, Uploads, Intake, UploadSights, enqueue, get_invoice,
}
use invoice_ocr_poc.Service.Uploads.Rollback.{Accepted, enqueue-Accepted}
use invoice_ocr_poc.Httpserver.Dto.{to_invoice_response}
use invoice_ocr_poc.Jev.Explain.{explain}
use invoice_ocr_poc.Httpserver.Handlers.{
  error, enqueued, invoice, analysis, Answer, FormFile, Render, load_error, enqueue_error,
  enqueue_answer, declared_type, process_file, process_image, invoice_answer, get_invoice_handler,
  analysis_answer, get_analysis, is_done,
}

not_accepted : ¬ (◌≡◌ {A = ℕ} 400 202)
not_accepted h = omega arith

is_done_iff : (status : Status) → (is_done status ≡ true) ↔ (status ≡ done)
is_done_iff queued = ground arith
is_done_iff processing = ground arith
is_done_iff done = ground arith
is_done_iff failed = ground arith

module _ {F T D B J : Type 0} ⦃d : Float F⦄ (u : Uploads F T D B J) (render : Render F) where
  load_error-codes :
      (e : Error) → ((load_error u render e).0 ≡ 404) ⊎ ((load_error u render e).0 ≡ 500)
  load_error-codes e = ground arith

  enqueue_error-codes : (e : Error) → (enqueue_error u render e).0 ≢ 202
  unfolding enqueue_error
  enqueue_error-codes e = ground arith

  pub analysis_done :
      (inv : Invoice F)
      → inv.status ≡ done
      → analysis_answer u render (ok inv) ≡ (200, analysis (explain render.fixed2 inv))
  analysis_done inv h = rw h refl

  analysis_queued :
      (inv : Invoice F)
      → inv.status ≡ queued
      → analysis_answer u render (ok inv) ≡ (409, error "invoice analysis is not ready")
  analysis_queued inv h = rw h refl

  load_answers :
      (r : Result (Invoice F))
      → ((analysis_answer u render r).0 ≡ 404) ↔ ((invoice_answer u render r).0 ≡ 404)
  load_answers (err e) = (λ h. h, λ h. h)
  load_answers (ok inv) = ground arith

  done_answers :
      (r : Result (Invoice F))
      → ((analysis_answer u render r).0 ≡ 200)
        ↔ ((inv : Invoice F) × (r ≡ ok inv) × (inv.status ≡ done))
  done_answers (err e) = (λ h. absurd (ground (arith, load_error-codes e)), λ x. absurd (cc x.1))
  done_answers (ok inv) = elim (Bool-cases (is_done inv.status)) [
    | inl finished ↦ (λ h. (inv, refl, (is_done_iff inv.status).0 finished), λ x. rw finished refl)
    | inr open_yet ↦ (
      λ h. absurd (ground arith),
      λ x.
          let same : x.0 ≡ inv = cc x.1 in
          ap (λ a. a.0) (analysis_done inv (ap (λ i. i.status) (sym same) ∙ x.2)),
    )
  ]

  -- The analysis of an invoice is answered exactly if the invoice is found and done, and it is not
  -- found exactly if the invoice is not found.
  pub get_analysis-done :
      (id : String) (c : Ctx) (s : Store T)
      → (((get_analysis u render id c s).0 ≡ 200)
          ↔ ((inv : Invoice F) × (get_invoice u id c s ≡ ok inv) × (inv.status ≡ done)))
        × (((get_analysis u render id c s).0 ≡ 404)
            ↔ ((get_invoice_handler u render id c s).0 ≡ 404))
  unfolding get_analysis get_invoice_handler
  get_analysis-done id c s =
      (done_answers (get_invoice u id c s), load_answers (get_invoice u id c s))

  module _ (laws : IsDb u.db) where
    pub get_invoice-row :
        (id : String) (s : Store T) (inv : Invoice F)
        → row_of u.db laws s id ≡ some inv
        → get_invoice u id live s ≡ ok inv
    unfolding get_invoice Writes.get
    get_invoice-row id s inv stored = rw (get_invoice, laws.first_live s.table id inv stored) refl

    module _ (files : IsDisk u.disk) where
      -- What a table shows of an identifier: nothing, or a row, which is answered with 200, and its
      -- analysis too if the row is done, and else with 409.
      abbrev pub Shows : Store T → String → Type 0
      Shows s id =
          (row_of u.db laws s id ≡ none)
          ⊎ ((inv : Invoice F) × (row_of u.db laws s id ≡ some inv)
              × (get_invoice_handler u render id live s
                  ≡ (200, invoice (to_invoice_response render.unmarshal inv)))
              × (((inv.status ≡ done)
                    × (get_analysis u render id live s
                        ≡ (200, analysis (explain render.fixed2 inv))))
                  ⊎ ((inv.status ≢ done) × ((get_analysis u render id live s).0 ≡ 409))))

      row-Shows : (s : Store T) (id : String) → Shows s id
      unfolding get_invoice_handler get_analysis
      row-Shows s id = elim (Option-cases (row_of u.db laws s id)) [
        | inl gone ↦ inl gone
        | inr (inv, stored) ↦
            let got = get_invoice-row id s inv stored in
            inr (
              inv,
              stored,
              ap (invoice_answer u render) got,
              elim (Bool-cases (is_done inv.status)) [
                | inl finished ↦
                    let is : inv.status ≡ done = (is_done_iff inv.status).0 finished in
                    inl (is, ap (analysis_answer u render) got ∙ analysis_done inv is)
                | inr open_yet ↦ inr (
                  λ h. absurd (cc (open_yet, (is_done_iff inv.status).1 h)),
                  ap (λ r. (analysis_answer u render r).0) got ∙ rw open_yet refl,
                )
              ],
            )
      ]

      -- The answer names the invoice of an accepted upload, with the status that is seen, and what any
      -- table shows under its identifier.
      abbrev pub IsPolled :
          (Invoice F → Invoice F)
          → UploadSights
          → Answer F
          → Intake T D J
          → Intake T D J
          → Store T
          → Type 0
      IsPolled seen o answer before after table =
          (inv : Invoice F) × (answer
            ≡ (202, enqueued inv.id (seen inv).status ("/api/v1/invoices/" ++ inv.id)))
          × Accepted u laws files o before after inv
          × Shows table inv.id

      accepted-IsPolled :
          (seen : Invoice F → Invoice F) (same : (i : Invoice F) → (seen i).id ≡ i.id)
          (input : Upload B) (o : UploadSights) (x : Intake T D J) (table : Store T)
          (inv : Invoice F)
          → (enqueue u input o x).1 ≡ ok inv
          → IsPolled seen o (enqueue_answer u render seen (ok inv)) x (enqueue u input o x).0 table
      accepted-IsPolled seen same input o x table inv accepted = (
        inv,
        ap (λ id. (202, enqueued id (seen inv).status ("/api/v1/invoices/" ++ id))) (same inv),
        enqueue-Accepted u laws files input o x inv accepted,
        row-Shows table inv.id,
      )

      -- While the handler answers, workers may already change the invoice, but not its identifier. An
      -- upload that is answered with 202 names an invoice, with the status that is seen then, whose queued
      -- row, file and job `Enqueue` has left. In every table, at whatever time, that holds a row under the
      -- identifier named, a poll is answered with 200 as that row is, and one for the analysis with 200
      -- and the explanation of the row if it is done, and with 409 if it is not.
      pub process_image-IsPolled :
          (form : Result (FormFile B)) (seen : Invoice F → Invoice F) (o : UploadSights)
          (x : Intake T D J) (table : Store T)
          → ((i : Invoice F) → (seen i).id ≡ i.id)
          → (process_image u render form seen o x).1.0 ≡ 202
          → let r = process_image u render form seen o x in IsPolled seen o r.1 x r.0 table
      unfolding process_image
      process_image-IsPolled form seen o x table same h = elim (Result-cases form) [
        | inr (e, bad) ↦ absurd (not_accepted (rw (process_image, bad) at h))
        | inl (fh, sent) ↦ elim (Result-cases fh.opened) [
          | inr (e, bad) ↦ absurd (not_accepted (rw (process_image, sent, process_file, bad) at h))
          | inl (body, read) ↦
              let input : Upload B = record {
                original_name = fh.filename;
                mime_type = declared_type u render fh.content_type;
                body = body;
              } in
              elim (Result-cases (enqueue u input o x).1) [
                | inr (e, bad) ↦
                    absurd (
                      enqueue_error-codes e
                        (rw (process_image, sent, process_file, read, bad) at h))
                | inl (inv, accepted) ↦
                    simp (process_image, sent, process_file, read, accepted)
                      (accepted-IsPolled seen same input o x table inv accepted)
              ]
        ]
      ]

module _ {F T C D B J : Type 0} ⦃d : Float F⦄ (s : Service F T C) (laws : IsDb s.db)
    (u : Uploads F T D B J) (render : Render F) where
  -- A job that leaves the last stage without an error has its analysis published: the API answers with
  -- 200 and the explanation of the job's invoice.
  stage_jev-published :
      (text_of : String → Text) (judge : Option (Judge F)) (assist : Option (Assistant F))
      (engine : Option (Engine F)) (t : HopTimes) (o : Sights) (w : World T C) (j : Job F)
      → let out = stage_jev s text_of judge assist engine t o w j in
        ((e : Error) × (out.2 ≡ some e))
        ⊎ (get_analysis (record u { db = s.db }) render out.1.inv.id live out.0.store
            ≡ (200, analysis (explain render.fixed2 out.1.inv)))
  unfolding get_analysis
  stage_jev-published text_of judge assist engine t o w j =
      elim (stage_jev_done s laws text_of judge assist engine t o w j) [
        | inl bad ↦ inl bad
        | inr (finished, row) ↦
            let out = stage_jev s text_of judge assist engine t o w j in
            let here : Uploads F T D B J = record u { db = s.db } in
            inr (
              rw (get_invoice-row here render laws out.1.inv.id out.0.store out.1.inv row)
                (analysis_done here render out.1.inv finished))
      ]
