-- ===== src/Service/Uploads.antt =====
-- internal/invoice/service.go: `Enqueue` of the service with its helpers, `Get` and `List`. The file
-- system, the queue of jobs and the library's functions on paths and media types are parameters.
pub mod Names
pub mod Rollback
use invoice_ocr_poc.Base.{
  ℕ, Bool, true, false, not, ◌&&◌, ◌||◌, Option, none, some, List, [], ◌∷◌, ◌++◌, ◌≡◌, String,
  Int64, add64, ltb, ◌==◌, if◌then◌else◌,
}
use invoice_ocr_poc.Float.{Float}
use invoice_ocr_poc.Strings.{Text, codes, same_text, to_lower}
use invoice_ocr_poc.Errors.{
  Ctx, Error, Result, ok, err, sentinel, wrap, annotate, is, is_ctx, not_found, invalid_image,
  service_queue_full, record_not_found,
}
use invoice_ocr_poc.Store.Invoice.{Invoice, new_invoice, queued}
use invoice_ocr_poc.Store.Db.{Db}
use invoice_ocr_poc.Store.Writes.{Store, Watch}
use invoice_ocr_poc.Store.Writes

-- What the operating system does with the upload directory. `copy path limit body` is `io.Copy` of at
-- most `limit` bytes to a file, and gives the number of bytes.
pub record Disk (D B : Type 0) : Type 0 where
  pub make_dir : Text → D → D × Option Error
  pub create_file : Text → D → D × Option Error
  pub copy : Text → Int64 → B → D → D × Result Int64
  pub remove_file : Text → D → D × Option Error

-- What is documented of it: which files are there after a call, and how much a copy writes at most.
pub record IsDisk {D B : Type 0} (disk : Disk D B) : Type 0 where
  pub present : D → Text → Bool
  pub created :
      (p : Text) (x : D)
      → (disk.create_file p x).1 ≡ none
      → present (disk.create_file p x).0 p ≡ true
  pub copied :
      (p q : Text) (limit : Int64) (b : B) (x : D)
      → present (disk.copy p limit b x).0 q ≡ present x q
  pub removed :
      (p : Text) (x : D)
      → (disk.remove_file p x).1 ≡ none
      → present (disk.remove_file p x).0 p ≡ false

-- `mime.ParseMediaType`, `filepath.Ext`, `filepath.Base`, `filepath.Join` and the characters of a text.
pub record Paths : Type 0 where
  pub media_type : Text → Option Text
  pub ext : Text → Text
  pub base : Text → Text
  pub join_path : Text → Text → Text
  pub text_of : String → Text

-- `EnqueueInput`.
pub record Upload (B : Type 0) : Type 0 where
  pub original_name : Text
  pub mime_type : Text
  pub body : B

-- The parts of `Service` that uploads use. `submit` is `Jobs.Enqueue` with what it sees of the caller's
-- context: at its entry, and when it puts the job into the queue.
pub record Uploads (F T D B J : Type 0) : Type 0 where
  pub db : Db F T
  pub disk : Disk D B
  pub paths : Paths
  pub upload_dir : Text
  pub max_bytes : Int64
  pub submit : Ctx → Ctx → Invoice F → J → J × Option Error

-- What is documented of the queue: a job that it refuses is not in it.
pub record IsQueue {F J : Type 0} (submit : Ctx → Ctx → Invoice F → J → J × Option Error)
    : Type 0 where
  pub refused_same :
      (entry at_select : Ctx) (inv : Invoice F) (jobs : J) (e : Error)
      → (submit entry at_select inv jobs).1 ≡ some e
      → (submit entry at_select inv jobs).0 ≡ jobs

-- What an upload changes.
pub record Intake (T D J : Type 0) : Type 0 where
  pub store : Store T
  pub files : D
  pub jobs : J

-- The identifier that `newID` draws, and the caller's context at the insert, in the queue's two looks at
-- it and, if it has not ended by then, at the rollback.
pub record UploadSights : Type 0 where
  pub id : Result String
  pub at_create : Watch
  pub at_entry : Ctx
  pub at_select : Ctx
  pub at_delete : Watch

-- A context that has ended stays ended.
abbrev pub behind : Ctx → Watch → Watch
behind none w = w
behind (some c) w = record { entry = some c; run = some c; wait = some c }

-- The caller's context at the rollback, which is the one that the queue saw.
abbrev pub rollback_watch : UploadSights → Watch
rollback_watch o = behind o.at_entry (behind o.at_select o.at_delete)

-- The table `allowedMIME`.
unfoldable pub allowed_mime : Text → Option Text
allowed_mime m =
    if same_text m (codes "image/jpeg")
    then some (codes ".jpg")
    else if same_text m (codes "image/png")
    then some (codes ".png")
    else if same_text m (codes "image/webp")
    then some (codes ".webp")
    else if same_text m (codes "image/tiff")
    then some (codes ".tiff")
    else none

-- The switch on the extension of the file's name: the extension that is stored, and the media type.
unfoldable pub by_extension : Text → Option (Text × Text)
by_extension ext =
    if same_text ext (codes ".jpg") || same_text ext (codes ".jpeg")
    then some (codes ".jpg", codes "image/jpeg")
    else if same_text ext (codes ".png")
    then some (codes ".png", codes "image/png")
    else if same_text ext (codes ".webp")
    then some (codes ".webp", codes "image/webp")
    else if same_text ext (codes ".tif") || same_text ext (codes ".tiff")
    then some (codes ".tiff", codes "image/tiff")
    else none

abbrev pub or_else : Text → Option Text → Text
or_else m none = m
or_else m (some guessed) = guessed

unfoldable pub resolve_image_type : Paths → Text → Text → Option (Text × Text)
unfolding allowed_mime by_extension
resolve_image_type paths mime_type filename =
    let m = or_else mime_type (paths.media_type mime_type) in
    elim (allowed_mime m) [
      | some ext ↦ some (ext, m)
      | none ↦ by_extension (to_lower (paths.ext filename))
    ]

-- `strings.ReplaceAll(base, "..", "")`, from the left; the flag tells whether a dot is held back.
unfoldable pub drop_dots : Bool → Text → Text
drop_dots held [] = if held then codes "." else []
drop_dots held (x ∷ xs) =
    let rest = drop_dots (not held && x == 46) xs in
    if x == 46 then rest else if held then 46 ∷ x ∷ rest else x ∷ rest

unfoldable pub sanitize_name : Paths → Text → Text
unfolding drop_dots
sanitize_name paths name =
    let base = drop_dots false (paths.base name) in
    if same_text base (codes ".") || same_text base (codes "/") then codes "upload" else base

module _ {F T D B J : Type 0} ⦃d : Float F⦄ (u : Uploads F T D B J) where
  -- The size test: more than the limit was copied.
  abbrev size_checked : Text → D × Result Int64 → D × Option Error
  size_checked path (files, err e) = (files, some (wrap "write upload" e))
  size_checked path (files, ok n) =
      if ltb u.max_bytes n
      then (
        (u.disk.remove_file path files).0,
        some (annotate (sentinel invalid_image) "file exceeds size limit"),
      )
      else (files, none)

  unfoldable pub write_limited : Text → B → D → D × Option Error
  write_limited path body files =
      let opened = u.disk.create_file path files in
      elim opened.1 [
        | some e ↦ (opened.0, some (wrap "create upload file" e))
        | none ↦ size_checked path (u.disk.copy path (add64 u.max_bytes 1) body opened.0)
      ]

  -- `rollbackEnqueue`: both steps are taken, whatever they answer.
  unfoldable pub rollback_enqueue : String → Text → Watch → Intake T D J → Intake T D J
  rollback_enqueue id stored at_delete x = record x {
    store = (Writes.delete u.db id at_delete x.store).0;
    files = (u.disk.remove_file stored x.files).0;
  }

  abbrev pub refused : Error → Error
  refused e = if is_ctx e then e else sentinel service_queue_full

  -- `Enqueue` behind the insert of the row.
  unfoldable pub submit_invoice :
      Invoice F → UploadSights → Intake T D J → Intake T D J × Result (Invoice F)
  unfolding rollback_enqueue
  submit_invoice inv o x =
      let sent = u.submit o.at_entry o.at_select inv x.jobs in
      let x' = record x { jobs = sent.0 } in
      elim sent.1 [
        | some e ↦ (rollback_enqueue inv.id inv.stored_path (rollback_watch o) x', err (refused e))
        | none ↦ (x', ok inv)
      ]

  -- `Enqueue` behind the choice of the identifier.
  unfoldable pub store_upload :
      String
      → Text
      → Text
      → Upload B
      → UploadSights
      → Intake T D J
      → Intake T D J × Result (Invoice F)
  unfolding write_limited
  store_upload id ext mime_type input o x =
      let stored = u.paths.join_path u.upload_dir (u.paths.text_of id ++ ext) in
      let written = write_limited stored input.body x.files in
      let x' = record x { files = written.0 } in
      let inv = new_invoice id (sanitize_name u.paths input.original_name) stored mime_type in
      elim written.1 [
        | some e ↦ (x', err e)
        | none ↦
            let created = Writes.create u.db inv o.at_create x'.store in
            let x'' = record x' { store = created.0 } in
            elim created.1 [ some e ↦ (x'', err e) | none ↦ submit_invoice inv o x'' ]
      ]

  unfoldable pub enqueue :
      Upload B → UploadSights → Intake T D J → Intake T D J × Result (Invoice F)
  enqueue input o x = elim (resolve_image_type u.paths input.mime_type input.original_name) [
    | none ↦ (x, err (annotate (sentinel invalid_image) "unsupported content type"))
    | some (ext, mime_type) ↦
        let made = u.disk.make_dir u.upload_dir x.files in
        let x' = record x { files = made.0 } in
        elim made.1 [
          | some e ↦ (x', err (wrap "create upload dir" e))
          | none ↦ elim o.id [
            | err e ↦ (x', err (wrap "generate id" e))
            | ok id ↦ store_upload id ext mime_type input o x'
          ]
        ]
  ]

  -- `Get` of the service: an unknown row has an error of its own.
  unfoldable pub get_invoice : String → Ctx → Store T → Result (Invoice F)
  get_invoice id c s = elim (Writes.get u.db id c s) [
    | ok inv ↦ ok inv
    | err e ↦ if is record_not_found e then err (sentinel not_found) else err e
  ]
