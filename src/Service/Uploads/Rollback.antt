-- ===== src/Service/Uploads/Rollback.antt =====
-- What an upload leaves behind: a row, a file and a job, or none of them, and the cases in which a
-- part stays.
use invoice_ocr_poc.Base.{
  Bool, true, false, Option, none, some, ◌≡◌, ◌⊎◌, refl, String, Int64, ◌++◌, ◌∙◌, subst,
  Option-cases, Bool-cases, inl, inr, ltb, add64, if◌then◌else◌,
}
use invoice_ocr_poc.Float.{Float}
use invoice_ocr_poc.Strings.{Text}
use invoice_ocr_poc.Errors.{
  CtxError, Error, Result, Result-cases, ok, err, is_ctx, sentinel, service_queue_full,
}
use invoice_ocr_poc.Store.Invoice.{Invoice, new_invoice, queued}
use invoice_ocr_poc.Store.Db.{IsDb}
use invoice_ocr_poc.Store.Writes.{do_write}
use invoice_ocr_poc.Store.Writes
use invoice_ocr_poc.Store.Persistence.{row_of, create-row, delete-row, create-failed_rows}
use invoice_ocr_poc.Service.Uploads.{
  IsDisk, IsQueue, Upload, Uploads, Intake, UploadSights, rollback_watch, write_limited,
  size_checked, rollback_enqueue, submit_invoice, store_upload, sanitize_name, enqueue,
  resolve_image_type,
}

module _ {F T D B J : Type 0} ⦃d : Float F⦄ (u : Uploads F T D B J) (laws : IsDb u.db)
    (files : IsDisk u.disk) where
  -- The row under an identifier, and the presence of a file.
  abbrev pub row : Intake T D J → String → Option (Invoice F)
  row x id = row_of u.db laws x.store id

  abbrev pub has_file : Intake T D J → Text → Bool
  has_file x path = files.present x.files path

  -- If the queue refuses a job, and the rollback's two steps succeed, then neither the row nor the
  -- file is left, and the caller is told that the queue is full, or the context's error if that was
  -- the queue's.
  pub submit_refused :
      (inv : Invoice F) (o : UploadSights) (x : Intake T D J) (e : Error)
      → (u.submit o.at_entry o.at_select inv x.jobs).1 ≡ some e
      → (Writes.delete u.db inv.id (rollback_watch o) x.store).1 ≡ none
      → (u.disk.remove_file inv.stored_path x.files).1 ≡ none
      → let r = submit_invoice u inv o x in
        (row r.0 inv.id ≡ none)
        × (has_file r.0 inv.stored_path ≡ false)
        × (r.1 ≡ err (if is_ctx e then e else sentinel service_queue_full))
  unfolding submit_invoice rollback_enqueue
  submit_refused inv o x e full deleted removed =
      rw (submit_invoice, full)
        (
          delete-row u.db laws inv.id (rollback_watch o) x.store deleted,
          files.removed inv.stored_path x.files removed,
          refl,
        )

  size_present :
      (path : Text) (c : D × Result Int64)
      → files.present c.0 path ≡ true
      → (size_checked u path c).1 ≡ none
      → files.present (size_checked u path c).0 path ≡ true
  size_present path (f, err e) here h = here
  size_present path (f, ok n) here h = elim (Bool-cases (ltb u.max_bytes n)) [
    | inl over ↦ absurd (cc (rw over at h))
    | inr fits ↦ rw fits here
  ]

  written_present :
      (path : Text) (body : B) (f : D)
      → (write_limited u path body f).1 ≡ none
      → files.present (write_limited u path body f).0 path ≡ true
  unfolding write_limited
  written_present path body f h = elim (Option-cases (u.disk.create_file path f).1) [
    | inr (e, bad) ↦ absurd (cc (rw (write_limited, bad) at h))
    | inl fine ↦
        let opened = (u.disk.create_file path f).0 in
        rw (write_limited, fine)
          (size_present path (u.disk.copy path (add64 u.max_bytes 1) body opened)
            (files.copied path path (add64 u.max_bytes 1) body opened ∙ files.created path f fine)
            (rw (write_limited, fine) at h))
  ]

  -- What an accepted upload leaves: its row, its file and its job.
  abbrev pub Accepted : UploadSights → Intake T D J → Intake T D J → Invoice F → Type 0
  Accepted o before after inv =
      (row after inv.id ≡ some inv)
      × (has_file after inv.stored_path ≡ true)
      × (inv.status ≡ queued)
      × (after.jobs ≡ (u.submit o.at_entry o.at_select inv before.jobs).0)
      × ((u.submit o.at_entry o.at_select inv before.jobs).1 ≡ none)

  submit-Accepted :
      (made inv : Invoice F) (o : UploadSights) (x : Intake T D J)
      → row x made.id ≡ some made
      → has_file x made.stored_path ≡ true
      → made.status ≡ queued
      → (submit_invoice u made o x).1 ≡ ok inv
      → Accepted o x (submit_invoice u made o x).0 inv
  unfolding submit_invoice
  submit-Accepted made inv o x stored here fresh h =
      elim (Option-cases (u.submit o.at_entry o.at_select made x.jobs).1) [
        | inr (e, bad) ↦ absurd (cc (rw (submit_invoice, bad) at h))
        | inl sent ↦
            let same : made ≡ inv = cc (rw (submit_invoice, sent) at h) in
            subst (λ i. Accepted o x (submit_invoice u made o x).0 i) same
              (rw (submit_invoice, sent) (stored, here, fresh, refl, refl))
      ]

  store_upload-Accepted :
      (id : String) (ext mime_type : Text) (input : Upload B) (o : UploadSights) (x : Intake T D J)
      (inv : Invoice F)
      → (store_upload u id ext mime_type input o x).1 ≡ ok inv
      → Accepted o x (store_upload u id ext mime_type input o x).0 inv
  unfolding store_upload
  store_upload-Accepted id ext mime_type input o x inv h =
      let stored = u.paths.join_path u.upload_dir (u.paths.text_of id ++ ext) in
      let made : Invoice F =
        new_invoice id (sanitize_name u.paths input.original_name) stored mime_type in
      let written = write_limited u stored input.body x.files in
      elim (Option-cases written.1) [
        | inr (e, bad) ↦ absurd (cc (rw (store_upload, bad) at h))
        | inl wrote ↦ elim (Option-cases (Writes.create u.db made o.at_create x.store).1) [
          | inr (e, bad) ↦ absurd (cc (rw (store_upload, wrote, bad) at h))
          | inl created ↦
              rw (store_upload, wrote, created)
                (submit-Accepted made inv o
                  (record x {
                    files = written.0;
                    store = (Writes.create u.db made o.at_create x.store).0;
                  })
                  (create-row u.db laws made o.at_create x.store created)
                  (written_present stored input.body x.files wrote) refl
                  (rw (store_upload, wrote, created) at h))
        ]
      ]

  -- If the insert of the row fails, then the error is reported, but the file that was just written is
  -- still there; and the rows are those from before, unless the caller's context ended while it waited
  -- for the insert.
  pub create_failed :
      (id : String) (ext mime_type : Text) (input : Upload B) (o : UploadSights) (x : Intake T D J)
      (e : Error) (j : String)
      → let stored = u.paths.join_path u.upload_dir (u.paths.text_of id ++ ext) in
        let made : Invoice F =
          new_invoice id (sanitize_name u.paths input.original_name) stored mime_type in
        (write_limited u stored input.body x.files).1 ≡ none
        → (Writes.create u.db made o.at_create x.store).1 ≡ some e
        → let r = store_upload u id ext mime_type input o x in
          (r.1 ≡ err e)
          × (has_file r.0 stored ≡ true)
          × (((c : CtxError) × (o.at_create.wait ≡ some c)) ⊎ (row r.0 j ≡ row x j))
  unfolding store_upload
  create_failed id ext mime_type input o x e j wrote bad =
      let stored = u.paths.join_path u.upload_dir (u.paths.text_of id ++ ext) in
      let made : Invoice F =
        new_invoice id (sanitize_name u.paths input.original_name) stored mime_type in
      rw (store_upload, wrote, bad)
        (
          refl,
          written_present stored input.body x.files wrote,
          create-failed_rows u.db laws made o.at_create x.store j e bad,
        )

  canceled_rollback :
      (inv : Invoice F) (o : UploadSights) (x : Intake T D J) (e : Error) (c : CtxError)
      → o.at_entry ≡ none
      → o.at_select ≡ some c
      → (u.submit o.at_entry o.at_select inv x.jobs).1 ≡ some e
      → (u.disk.remove_file inv.stored_path x.files).1 ≡ none
      → row x inv.id ≡ some inv
      → (u.submit o.at_entry o.at_select inv x.jobs).0 ≡ x.jobs
      → inv.status ≡ queued
      → let r = submit_invoice u inv o x in
        (row r.0 inv.id ≡ some inv)
        × (inv.status ≡ queued)
        × (has_file r.0 inv.stored_path ≡ false)
        × (r.0.jobs ≡ x.jobs)
        × (r.1 ≡ err (if is_ctx e then e else sentinel service_queue_full))
  unfolding submit_invoice rollback_enqueue Writes.delete do_write
  canceled_rollback inv o x e c live gone full removed stored same fresh =
      let left : (Writes.delete u.db inv.id (rollback_watch o) x.store).0 ≡ x.store =
        rw (live, gone) refl in
      rw (submit_invoice, full, rollback_enqueue, left)
        (stored, fresh, files.removed inv.stored_path x.files removed, same, refl)

  -- If the upload's file and row were written, the caller's context ends between the queue's two looks at
  -- it, the queue refuses the job, and the file can be removed, then the rollback, which runs under the
  -- same context, deletes no row: the row is still there, queued, although its file is gone and the queue
  -- is as before the job. The caller gets the queue's error if it is the context's, and else is told that
  -- the queue is full.
  pub submit_canceled :
      (queue : IsQueue u.submit) (id : String) (ext mime_type : Text) (input : Upload B)
      (o : UploadSights) (x : Intake T D J) (e : Error) (c : CtxError)
      → let stored = u.paths.join_path u.upload_dir (u.paths.text_of id ++ ext) in
        let made : Invoice F =
          new_invoice id (sanitize_name u.paths input.original_name) stored mime_type in
        let written = write_limited u stored input.body x.files in
        written.1 ≡ none
        → (Writes.create u.db made o.at_create x.store).1 ≡ none
        → o.at_entry ≡ none
        → o.at_select ≡ some c
        → (u.submit o.at_entry o.at_select made x.jobs).1 ≡ some e
        → (u.disk.remove_file stored written.0).1 ≡ none
        → let r = store_upload u id ext mime_type input o x in
          (row r.0 id ≡ some made)
          × (made.status ≡ queued)
          × (has_file r.0 stored ≡ false)
          × (r.0.jobs ≡ x.jobs)
          × (r.1 ≡ err (if is_ctx e then e else sentinel service_queue_full))
  unfolding store_upload submit_invoice rollback_enqueue Writes.delete do_write
  submit_canceled queue id ext mime_type input o x e c wrote created live gone full removed =
      let stored = u.paths.join_path u.upload_dir (u.paths.text_of id ++ ext) in
      let made : Invoice F =
        new_invoice id (sanitize_name u.paths input.original_name) stored mime_type in
      let written = write_limited u stored input.body x.files in
      let same = queue.refused_same o.at_entry o.at_select made x.jobs e full in
      rw (store_upload, wrote, created)
        (canceled_rollback made o
          (record x { files = written.0; store = (Writes.create u.db made o.at_create x.store).0 })
          e c live gone full removed (create-row u.db laws made o.at_create x.store created) same
          refl)

  -- An upload that is accepted has left a queued row under its identifier, its file, and one job in the
  -- queue.
  pub enqueue-Accepted :
      (input : Upload B) (o : UploadSights) (x : Intake T D J) (inv : Invoice F)
      → (enqueue u input o x).1 ≡ ok inv
      → Accepted o x (enqueue u input o x).0 inv
  unfolding enqueue
  enqueue-Accepted input o x inv h =
      elim (Option-cases (resolve_image_type u.paths input.mime_type input.original_name)) [
        | inl unknown ↦ absurd (cc (rw (enqueue, unknown) at h))
        | inr ((ext, mime_type), known) ↦
            let made = u.disk.make_dir u.upload_dir x.files in
            elim (Option-cases made.1) [
              | inr (e, bad) ↦ absurd (cc (rw (enqueue, known, bad) at h))
              | inl fine ↦ elim (Result-cases o.id) [
                | inr (e, bad) ↦ absurd (cc (rw (enqueue, known, fine, bad) at h))
                | inl (id, drawn) ↦
                    rw (enqueue, known, fine, drawn)
                      (store_upload-Accepted id ext mime_type input o (record x { files = made.0 })
                        inv (rw (enqueue, known, fine, drawn) at h))
              ]
            ]
      ]
