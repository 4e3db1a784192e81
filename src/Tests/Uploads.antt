-- ===== src/Tests/Uploads.antt =====
-- Uploads over a disk that is a set of paths.
use invoice_ocr_poc.Base.{
  ℕ, ◌+◌, Bool, true, false, none, some, [], ◌∷◌, ◌++◌, ◌≡◌, ◌⊎◌, refl, Int64, add64, if◌then◌else◌,
  leb,
}
use invoice_ocr_poc.Base.Assoc.{lookup}
use invoice_ocr_poc.Float.{Micros, micros_float}
use invoice_ocr_poc.Strings.{Text, codes, same_text, same_text_self}
use invoice_ocr_poc.Errors.{
  CtxError, ok, err, ctx, canceled, deadline_exceeded, sentinel, worker_queue_full,
  service_queue_full, is_ctx, wrap,
}
use invoice_ocr_poc.Store.Invoice.{queued}
use invoice_ocr_poc.Store.Db.{Rows, rows_db, rows_db-IsDb}
use invoice_ocr_poc.Store.Writes.{do_write, create, delete}
use invoice_ocr_poc.Service.Uploads.{
  Disk, IsDisk, IsQueue, Paths, Upload, Uploads, Intake, UploadSights, enqueue, store_upload,
  submit_invoice, write_limited, resolve_image_type, allowed_mime, sanitize_name, drop_dots,
}
use invoice_ocr_poc.Service.Uploads.Rollback.{
  Accepted, enqueue-Accepted, submit_refused, submit_canceled, create_failed, row, has_file,
}
use invoice_ocr_poc.Tests.Data.{invoice, open_store, awake, cut_off}

-- The paths that exist.
abbrev pub Files : Type 0
Files = Text → Bool

abbrev pub files_disk : Disk Files Int64
files_disk = record {
  make_dir = λ p x. (x, none);
  create_file = λ p x. (λ q. if same_text p q then true else x q, none);
  copy = λ p limit size x. (x, ok (if leb size limit then size else limit));
  remove_file = λ p x. (λ q. if same_text p q then false else x q, none);
}

pub files_disk-IsDisk : IsDisk files_disk
files_disk-IsDisk = record {
  present = λ x p. x p;
  created = λ p x h. rw (same_text_self p) refl;
  copied = λ p q limit b x. refl;
  removed = λ p x h. rw (same_text_self p) refl;
}

abbrev paths : Paths
paths = record {
  media_type = λ m. some m;
  ext = λ name. codes ".jpg";
  base = λ name. name;
  join_path = λ dir name. dir ++ 47 ∷ name;
  text_of = codes;
}

-- A queue that counts the jobs, and two that refuse them.
abbrev pub uploads : Uploads Micros (Rows Micros) Files Int64 ℕ
uploads = record {
  db = rows_db;
  disk = files_disk;
  paths = paths;
  upload_dir = codes "/up";
  max_bytes = 100;
  submit = λ entry at_select inv n. (n + 1, none);
}

abbrev full_queue : Uploads Micros (Rows Micros) Files Int64 ℕ
full_queue = record uploads {
  submit = λ entry at_select inv n. (n, some (sentinel worker_queue_full));
}

abbrev gone_caller : Uploads Micros (Rows Micros) Files Int64 ℕ
gone_caller = record uploads { submit = λ entry at_select inv n. (n, some (ctx deadline_exceeded)) }

abbrev pub empty_intake : Intake (Rows Micros) Files ℕ
empty_intake = record { store = record open_store { table = [] }; files = λ p. false; jobs = 0 }

abbrev stored_intake : Intake (Rows Micros) Files ℕ
stored_intake = record { store = open_store; files = λ p. true; jobs = 0 }

abbrev pub photo : Upload Int64
photo = record { original_name = codes "cupom.jpg"; mime_type = codes "image/jpeg"; body = 50 }

abbrev pub calm : UploadSights
calm = record {
  id = ok "inv1";
  at_create = awake;
  at_entry = none;
  at_select = none;
  at_delete = awake;
}

abbrev gone : UploadSights
gone = record {
  id = ok "inv1";
  at_create = awake;
  at_entry = none;
  at_select = some deadline_exceeded;
  at_delete = awake;
}

abbrev failing : UploadSights
failing = record {
  id = ok "inv1";
  at_create = cut_off;
  at_entry = none;
  at_select = none;
  at_delete = awake;
}

enqueue-Accepted_example :
    Accepted uploads
      (rows_db-IsDb Micros)
      files_disk-IsDisk
      calm
      empty_intake
      (enqueue uploads photo calm empty_intake).0
      invoice
unfolding enqueue store_upload submit_invoice write_limited resolve_image_type allowed_mime
    sanitize_name drop_dots same_text create do_write add64 lookup
enqueue-Accepted_example =
    enqueue-Accepted uploads (rows_db-IsDb Micros) files_disk-IsDisk photo calm empty_intake invoice
      refl

submit_refused_example :
    let r = submit_invoice full_queue invoice calm stored_intake in
    (row full_queue (rows_db-IsDb Micros) files_disk-IsDisk r.0 "inv1" ≡ none)
    × (has_file full_queue (rows_db-IsDb Micros) files_disk-IsDisk r.0 invoice.stored_path ≡ false)
    × (r.1
        ≡ err (
            if is_ctx (sentinel worker_queue_full)
            then sentinel worker_queue_full
            else sentinel service_queue_full))
unfolding delete do_write
submit_refused_example =
    submit_refused full_queue (rows_db-IsDb Micros) files_disk-IsDisk invoice calm stored_intake
      (sentinel worker_queue_full) refl refl refl

gone_caller-IsQueue : IsQueue gone_caller.submit
gone_caller-IsQueue = record { refused_same = λ entry at_select inv jobs e h. refl }

submit_canceled_example :
    let r =
      store_upload gone_caller "inv1" (codes ".jpg") (codes "image/jpeg") photo gone empty_intake in
    (row gone_caller (rows_db-IsDb Micros) files_disk-IsDisk r.0 "inv1" ≡ some invoice)
    × (invoice.status ≡ queued)
    × (has_file gone_caller (rows_db-IsDb Micros) files_disk-IsDisk r.0 (codes "/up/inv1.jpg")
        ≡ false)
    × (r.0.jobs ≡ 0)
    × (r.1
        ≡ err (
            if is_ctx (ctx deadline_exceeded)
            then ctx deadline_exceeded
            else sentinel service_queue_full))
unfolding write_limited create do_write add64 lookup sanitize_name drop_dots same_text
submit_canceled_example =
    submit_canceled gone_caller (rows_db-IsDb Micros) files_disk-IsDisk gone_caller-IsQueue "inv1"
      (codes ".jpg") (codes "image/jpeg") photo gone empty_intake (ctx deadline_exceeded)
      deadline_exceeded refl refl refl refl refl refl

create_failed_example :
    let r =
      store_upload uploads "inv1" (codes ".jpg") (codes "image/jpeg") photo failing empty_intake in
    (r.1 ≡ err (wrap "create invoice" (ctx canceled)))
    × (has_file uploads (rows_db-IsDb Micros) files_disk-IsDisk r.0 (codes "/up/inv1.jpg") ≡ true)
    × (((c : CtxError) × (failing.at_create.wait ≡ some c))
        ⊎ (row uploads (rows_db-IsDb Micros) files_disk-IsDisk r.0 "inv2"
            ≡ row uploads (rows_db-IsDb Micros) files_disk-IsDisk empty_intake "inv2"))
unfolding write_limited create do_write add64 lookup
create_failed_example =
    create_failed uploads (rows_db-IsDb Micros) files_disk-IsDisk "inv1" (codes ".jpg")
      (codes "image/jpeg") photo failing empty_intake (wrap "create invoice" (ctx canceled)) "inv2"
      refl refl
