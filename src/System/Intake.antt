-- ===== src/System/Intake.antt =====
-- `Enqueue` of internal/invoice/service.go writes no row but the one of the identifier that it draws,
-- and submits one job at most, under that identifier.
use invoice_ocr_poc.Base.{
  ◌≢◌, Option, ◌≡◌, ◌⊎◌, refl, ap, String, ◌∙◌, ◌++◌, Option-cases, inl, inr,
}
use invoice_ocr_poc.Float.{Float}
use invoice_ocr_poc.Strings.{Text}
use invoice_ocr_poc.Errors.{Result, Result-cases, ok}
use invoice_ocr_poc.Store.Invoice.{Invoice, new_invoice}
use invoice_ocr_poc.Store.Db.{IsDb}
use invoice_ocr_poc.Store.Writes.{Store, Watch, create, delete}
use invoice_ocr_poc.Store.Persistence.{row_of, do_write_cases}
use invoice_ocr_poc.Service.Uploads.{
  Upload, Uploads, Intake, UploadSights, rollback_watch, write_limited, rollback_enqueue,
  submit_invoice, store_upload, sanitize_name, enqueue, resolve_image_type,
}

module _ {F T D B J : Type 0} ⦃d : Float F⦄ (u : Uploads F T D B J) (laws : IsDb u.db) where
  abbrev rows_in : Store T → String → Option (Invoice F)
  rows_in = row_of u.db laws

  create_other :
      (inv : Invoice F) (w : Watch) (st : Store T) (k : String)
      → inv.id ≢ k
      → rows_in (create u.db inv w st).0 k ≡ rows_in st k
  unfolding create
  create_other inv w st k n = elim (do_write_cases (u.db.create inv) w st) [
    | inl (same, failed) ↦ ap (λ t. rows_in t k) same
    | inr (table, outcome) ↦ ap (λ t. laws.row t k) table ∙ laws.create_other w.run st.table inv k n
  ]

  delete_other :
      (id : String) (w : Watch) (st : Store T) (k : String)
      → id ≢ k
      → rows_in (delete u.db id w st).0 k ≡ rows_in st k
  unfolding delete
  delete_other id w st k n = elim (do_write_cases (u.db.delete id) w st) [
    | inl (same, failed) ↦ ap (λ t. rows_in t k) same
    | inr (table, outcome) ↦ ap (λ t. laws.row t k) table ∙ laws.delete_other w.run st.table id k n
  ]

  -- What an upload that draws an identifier may do.
  abbrev pub SubmitsOnly : UploadSights → Result String → Intake T D J → Intake T D J → Type 0
  SubmitsOnly o drawn x y =
      ((k : String) → drawn ≢ ok k → rows_in y.store k ≡ rows_in x.store k)
      × ((y.jobs ≡ x.jobs)
          ⊎ ((inv : Invoice F) × (drawn ≡ ok inv.id)
              × (y.jobs ≡ (u.submit o.at_entry o.at_select inv x.jobs).0)))

  submit_invoice-SubmitsOnly :
      (inv : Invoice F) (o : UploadSights) (x : Intake T D J)
      → SubmitsOnly o (ok inv.id) x (submit_invoice u inv o x).0
  unfolding submit_invoice rollback_enqueue
  submit_invoice-SubmitsOnly inv o x =
      elim (Option-cases (u.submit o.at_entry o.at_select inv x.jobs).1) [
        | inl sent ↦ rw (submit_invoice, sent) (λ k n. refl, inr (inv, refl, refl))
        | inr (e, full) ↦
            rw (submit_invoice, full)
              (
                λ k n. delete_other inv.id (rollback_watch o) x.store k (λ h. n (ap ok h)),
                inr (inv, refl, refl),
              )
      ]

  store_upload-SubmitsOnly :
      (id : String) (ext mime_type : Text) (input : Upload B) (o : UploadSights) (x : Intake T D J)
      → SubmitsOnly o (ok id) x (store_upload u id ext mime_type input o x).0
  unfolding store_upload
  store_upload-SubmitsOnly id ext mime_type input o x =
      let stored = u.paths.join_path u.upload_dir (u.paths.text_of id ++ ext) in
      let made : Invoice F =
        new_invoice id (sanitize_name u.paths input.original_name) stored mime_type in
      let written = write_limited u stored input.body x.files in
      let saved = create u.db made o.at_create x.store in
      let rows : (k : String) → ok id ≢ ok k → rows_in saved.0 k ≡ rows_in x.store k =
        λ k n. create_other made o.at_create x.store k (λ h. n (ap ok h)) in
      elim (Option-cases written.1) [
        | inr (e, bad) ↦ rw (store_upload, bad) (λ k n. refl, inl refl)
        | inl wrote ↦ elim (Option-cases saved.1) [
          | inr (e, bad) ↦ rw (store_upload, wrote, bad) (rows, inl refl)
          | inl created ↦
              let (rest, sent) =
                submit_invoice-SubmitsOnly made o
                  (record x { files = written.0; store = saved.0 }) in
              rw (store_upload, wrote, created) (λ k n. rest k n ∙ rows k n, sent)
        ]
      ]

  pub enqueue-SubmitsOnly :
      (input : Upload B) (o : UploadSights) (x : Intake T D J)
      → SubmitsOnly o o.id x (enqueue u input o x).0
  unfolding enqueue
  enqueue-SubmitsOnly input o x =
      elim (Option-cases (resolve_image_type u.paths input.mime_type input.original_name)) [
        | inl unknown ↦ rw (enqueue, unknown) (λ k n. refl, inl refl)
        | inr ((ext, mime_type), known) ↦
            let made = u.disk.make_dir u.upload_dir x.files in
            elim (Option-cases made.1) [
              | inr (e, bad) ↦ rw (enqueue, known, bad) (λ k n. refl, inl refl)
              | inl fine ↦ elim (Result-cases o.id) [
                | inr (e, bad) ↦ rw (enqueue, known, fine, bad) (λ k n. refl, inl refl)
                | inl (id, drawn) ↦
                    rw (enqueue, known, fine, drawn)
                      (store_upload-SubmitsOnly id ext mime_type input o
                        (record x { files = made.0 }))
              ]
            ]
      ]
