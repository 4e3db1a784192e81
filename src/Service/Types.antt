-- ===== src/Service/Types.antt =====
-- The parts of internal/invoice/service.go that its operations share: the service, what it calls
-- (engines, the assistant, the judge), the job of internal/worker/pool.go, and the tests on an
-- extract.
use invoice_ocr_poc.Base.{
  ℕ, Bool, true, false, Option, none, some, List, [], String, Int64, ltb, if◌then◌else◌,
}
use invoice_ocr_poc.Float.{Float, nought}
use invoice_ocr_poc.Strings.{Text, byte_length, trim_space}
use invoice_ocr_poc.Errors.{Error, Result, ok, err, Ctx, ctx}
use invoice_ocr_poc.Extract.{Extract, Item, incomplete, no_extract}
use invoice_ocr_poc.Ocr.Usage.{Usage}
use invoice_ocr_poc.Ocr.Usage
use invoice_ocr_poc.Jev.Answers.{State, Judgment}
use invoice_ocr_poc.Jev.Answers
use invoice_ocr_poc.Store.Invoice.{Invoice}
use invoice_ocr_poc.Store.Db.{Db}
use invoice_ocr_poc.Store.Writes.{Store}
use invoice_ocr_poc.Cache.Entry.{Entry, Cache}

-- `ocr.Engine`. What a call answers depends on the image, and is an input of the model.
pub record Engine (F : Type 0) : Type 0 where
  pub name : String
  pub available : Bool
  pub recognize : Text → Result (Usage.Result F)

-- `Assistant`: the extract, the notes, the usage and the error of a call of `Assist`.
pub record Assistant (F : Type 0) : Type 0 where
  pub enabled : Bool
  pub model : String
  pub assist : Text → Extract F → Extract F × Text × Usage F × Option Error

-- `Judge`: its judgment, its usage and its error. All three are returned together.
pub record Judge (F : Type 0) : Type 0 where
  pub evaluate : State F → Judgment F × Answers.Usage F × Option Error

-- `Service`, with the packages that it calls: the database, the cache (`nil` or not), the preparer,
-- `json.Marshal` of a list of items, and the table of letters. The time limits of the hops act
-- through the answers of the engines.
pub record Service (F T C : Type 0) : Type 0 where
  pub db : Db F T
  pub cache : Option (Cache F C)
  pub prepare : Text → Result Text
  pub marshal : List (Item F) → Result String
  pub is_letter : ℕ → Bool
  pub min_confidence : F

-- `worker.Job`, less its context and the function that cancels it.
pub record Job (F : Type 0) : Type 0 where
  pub inv : Invoice F
  pub img_path : Text
  pub ocr_res : Usage.Result F
  pub parsed : Extract F
  pub prep_ms : Int64
  pub ocr_ms : Int64
  pub assist_ms : Int64
  pub jev_ms : Int64
  pub db_ms : Int64
  pub cache_hit : Bool
  pub cache_entry : Option (Entry F)

-- What the stages change besides the job: the store, the cache, and the log of the engines that
-- were asked to read an image, the latest first.
pub record World (T C : Type 0) : Type 0 where
  pub store : Store T
  pub cached : C
  pub asked : List String

-- The outcome of a stage.
abbrev pub Outcome : Type 0 → Type 0 → Type 0 → Type 0
Outcome F T C = World T C × Job F × Option Error

-- `preprocess.Passthrough`.
unfoldable pub passthrough : Ctx → Text → Result Text
passthrough none src_path = ok src_path
passthrough (some c) src_path = err (ctx c)

abbrev pub min_ocr_chars : ℕ
min_ocr_chars = 40

module _ {F : Type 0} ⦃d : Float F⦄ where
  unfoldable pub needs_escalate : Text → Extract F → Bool
  needs_escalate text parsed =
      if ltb (byte_length (trim_space text)) min_ocr_chars then true else incomplete parsed

  unfoldable pub needs_assist : Extract F → Bool
  needs_assist parsed = incomplete parsed

  unfoldable pub extract_confidence : Text → Extract F → F
  extract_confidence text parsed = if needs_escalate text parsed then nought else d.decimal 1 1

  unfoldable pub below_min_confidence : F → Text → Extract F → Bool
  below_min_confidence min_confidence text parsed =
      d.lt (extract_confidence text parsed) min_confidence

  -- `Configure`: a confidence outside of 0 to 1 is ignored.
  unfoldable pub configure : {T C : Type 0} → F → Service F T C → Service F T C
  configure min_confidence s =
      if d.le nought min_confidence
      then if d.le min_confidence (d.decimal 1 1)
        then record s { min_confidence = min_confidence }
        else s
      else s

  -- `job` as `Enqueue` of the pipeline makes it.
  abbrev pub new_job : Invoice F → Job F
  new_job inv = record {
    inv = inv;
    img_path = [];
    ocr_res = Usage.no_result;
    parsed = no_extract;
    prep_ms = 0;
    ocr_ms = 0;
    assist_ms = 0;
    jev_ms = 0;
    db_ms = 0;
    cache_hit = false;
    cache_entry = none;
  }
