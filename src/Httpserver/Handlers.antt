-- ===== src/Httpserver/Handlers.antt =====
-- internal/httpserver/server.go: the handlers of invoices. What gin reads of a request is an argument.
use Prim.Native.String.{◌++◌}
use invoice_ocr_poc.Base.{
  ℕ, Bool, true, false, not, ◌&&◌, Option, none, some, List, map, String, Int64, str_eq, is_empty,
  if◌then◌else◌,
}
use invoice_ocr_poc.Errors.{
  Ctx, Error, Result, ok, err, is, message, not_found, invalid_image, service_queue_full,
}
use invoice_ocr_poc.Float.{Float}
use invoice_ocr_poc.Strings.{Text, codes}
use invoice_ocr_poc.Extract.{Item}
use invoice_ocr_poc.Store.Invoice.{Invoice, Status, queued, processing, done, failed}
use invoice_ocr_poc.Store.Writes.{Store}
use invoice_ocr_poc.Store.Writes
use invoice_ocr_poc.Jev.Explain.{Analysis, explain}
use invoice_ocr_poc.Service.Uploads.{Upload, Uploads, Intake, UploadSights, enqueue, get_invoice}
use invoice_ocr_poc.Httpserver.Dto.{InvoiceResponse, to_invoice_response}

-- The JSON of an answer.
pub data Body (F : Type 0) : Type 0 where
  error : String → Body F
  enqueued : String → Status → String → Body F
  invoice : InvoiceResponse F → Body F
  analysis : Analysis F → Body F
  items : List (InvoiceResponse F) → Body F

-- The status and the body.
abbrev pub Answer : Type 0 → Type 0
Answer F = ℕ × Body F

-- The form's file: its name, the header `Content-Type`, and what `Open` returns.
pub record FormFile (B : Type 0) : Type 0 where
  pub filename : Text
  pub content_type : Text
  pub opened : Result B

-- How the JSON of the items is decoded, and how numbers are printed in an explanation.
pub record Render (F : Type 0) : Type 0 where
  pub unmarshal : String → List (Item F)
  pub fixed2 : F → String

abbrev pub is_done : Status → Bool
is_done queued = false
is_done processing = false
is_done done = true
is_done failed = false

abbrev pub is_failed : Status → Bool
is_failed queued = false
is_failed processing = false
is_failed done = false
is_failed failed = true

-- `DefaultQuery`.
abbrev or_else : Text → Option Text → Text
or_else fallback none = fallback
or_else fallback (some given) = given

module _ {F T D B J : Type 0} ⦃d : Float F⦄ (u : Uploads F T D B J) (render : Render F) where
  -- The errors of `Enqueue` as answers.
  unfoldable pub enqueue_error : Error → Answer F
  unfolding is message
  enqueue_error e =
      if is invalid_image e
      then (400, error (message e))
      else if is service_queue_full e
      then (503, error (message e))
      else (500, error "failed to enqueue image")

  -- The invoice that `Enqueue` returns is shared with its job, which the workers may have worked on by
  -- the time of the answer: `seen` is what they have made of it.
  abbrev pub enqueue_answer : (Invoice F → Invoice F) → Result (Invoice F) → Answer F
  enqueue_answer seen (err e) = enqueue_error e
  enqueue_answer seen (ok inv) =
      let now = seen inv in (202, enqueued now.id now.status ("/api/v1/invoices/" ++ now.id))

  abbrev pub declared_type : Text → Text
  declared_type mime_type =
      if is_empty mime_type then codes "application/octet-stream" else mime_type

  abbrev pub process_file :
      FormFile B → (Invoice F → Invoice F) → UploadSights → Intake T D J → Intake T D J × Answer F
  process_file fh seen o x = elim fh.opened [
    | err e ↦ (x, (400, error "unable to read uploaded image"))
    | ok body ↦
        let input : Upload B = record {
          original_name = fh.filename;
          mime_type = declared_type fh.content_type;
          body = body;
        } in
        let sent = enqueue u input o x in (sent.0, enqueue_answer seen sent.1)
  ]

  -- `form` is `FormFile("image")` of a body that is cut at the limit and 1024 bytes more.
  unfoldable pub process_image :
      Result (FormFile B)
      → (Invoice F → Invoice F)
      → UploadSights
      → Intake T D J
      → Intake T D J × Answer F
  unfolding enqueue_error
  process_image (err e) seen o x = (x, (400, error "image form field is required"))
  process_image (ok fh) seen o x = process_file fh seen o x

  -- The errors of `Get` as answers.
  abbrev pub load_error : Error → Answer F
  load_error e =
      if is not_found e
      then (404, error "invoice not found")
      else (500, error "failed to load invoice")

  abbrev pub invoice_answer : Result (Invoice F) → Answer F
  invoice_answer (err e) = load_error e
  invoice_answer (ok inv) = (200, invoice (to_invoice_response render.unmarshal inv))

  unfoldable pub get_invoice_handler : String → Ctx → Store T → Answer F
  unfolding to_invoice_response get_invoice
  get_invoice_handler id c s = invoice_answer (get_invoice u id c s)

  abbrev pub not_ready : Invoice F → String
  not_ready inv =
      if is_failed inv.status && not (str_eq inv.error_message "")
      then inv.error_message
      else "invoice analysis is not ready"

  abbrev pub analysis_answer : Result (Invoice F) → Answer F
  analysis_answer (err e) = load_error e
  analysis_answer (ok inv) =
      if is_done inv.status
      then (200, analysis (explain render.fixed2 inv))
      else (409, error (not_ready inv))

  unfoldable pub get_analysis : String → Ctx → Store T → Answer F
  unfolding explain get_invoice
  get_analysis id c s = analysis_answer (get_invoice u id c s)

  abbrev pub list_answer : Result (List (Invoice F)) → Answer F
  list_answer (err e) = (500, error "failed to list invoices")
  list_answer (ok rows) = (200, items (map (to_invoice_response render.unmarshal) rows))

  -- `atoi` is `strconv.Atoi` without its error. `Service.List` passes the call on to the store.
  unfoldable pub list_invoices :
      (Text → Int64) → Option Text → Option Text → Ctx → Store T → Answer F
  unfolding to_invoice_response Writes.list
  list_invoices atoi limit offset c s =
      list_answer (
        Writes.list u.db (atoi (or_else (codes "20") limit)) (atoi (or_else (codes "0") offset)) c
          s)
