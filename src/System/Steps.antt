-- ===== src/System/Steps.antt =====
-- cmd/api/main.go and internal/worker/pool.go: the steps of the service as it runs. Jobs are pointers
-- in the code. Here the pipeline moves their identifiers, and the jobs stand in a table of their own.
-- The answers of the engines, the judge and the assistant may be others in each run of a stage.
use invoice_ocr_poc.Base.{◌≡◌, Option, none, some, List, [], String, str_eq, if◌then◌else◌}
use invoice_ocr_poc.Float.{Float}
use invoice_ocr_poc.Strings.{Text}
use invoice_ocr_poc.Errors.{Ctx, Error, Result, ok, err}
use invoice_ocr_poc.Store.Invoice.{Invoice, new_invoice}
use invoice_ocr_poc.Service.Types.{Engine, Assistant, Judge, Service, Job, World, Outcome, new_job}
use invoice_ocr_poc.Service.Judging.{HopTimes}
use invoice_ocr_poc.Service.Stages.{Sights, stage_preprocess, stage_ocr, stage_jev}
use invoice_ocr_poc.Service.Uploads.{Upload, Uploads, Intake, UploadSights}
use invoice_ocr_poc.Service.Uploads
use invoice_ocr_poc.Worker.Stage.{Label, quiet, emits, fails, drops, Picks, count}
use invoice_ocr_poc.Worker.Pipeline.{
  PipelineOptions, Pipeline, start, enqueue, Step, submit, prep_sends, ocr_sends, jev_ends,
  prep_works, ocr_works, jev_takes, jev_fails, prep_closes, ocr_closes, shuts_down, cancels,
}

-- The pipeline, and the job of each identifier.
pub record Line (F : Type 0) : Type 0 where
  pub pipe : Pipeline String
  pub jobs : String → Job F

-- `ran` tells of a job at a worker whether its stage has returned, and with which error.
pub record System (F T C D : Type 0) : Type 0 where
  pub line : Line F
  pub ran : String → Option (Option Error)
  pub world : World T C
  pub files : D

abbrev pub put {ℓ} : {A : Type ℓ} → String → A → (String → A) → String → A
put id val table key = if str_eq id key then val else table key

-- The returns that a worker acts on: it hands a job on behind a stage without an error, and gives it up
-- behind one with an error. A job whose stage has returned may be dropped by a hard shutdown.
abbrev pub LabelAgrees : (String → Option (Option Error)) → Label String → Type 0
LabelAgrees ran quiet = Unit
LabelAgrees ran (emits id) = ran id ≡ some none
LabelAgrees ran (fails id) = (e : Error) × (ran id ≡ some (some e))
LabelAgrees ran (drops id) = ran id ≡ some none

-- The job that leaves its worker.
abbrev pub leaver : Label String → Option String
leaver quiet = none
leaver (emits id) = some id
leaver (fails id) = some id
leaver (drops id) = some id

-- What the worker of a step does with its job. Uploads are steps of their own.
unfoldable pub label_of : {p q : Pipeline String} → Step p q → Label String
label_of (submit entry at_select id) = quiet
label_of (prep_sends {j = id} step room) = emits id
label_of (ocr_sends {j = id} step room) = emits id
label_of (jev_ends {j = id} step) = emits id
label_of (prep_works {l = l} inner step) = l
label_of (ocr_works {l = l} inner step) = l
label_of (jev_takes step) = quiet
label_of (jev_fails {j = id} step) = fails id
label_of (prep_closes gone) = quiet
label_of (ocr_closes gone) = quiet
label_of shuts_down = quiet
label_of (cancels stopped) = quiet

unfoldable pub forgotten :
    Option String → (String → Option (Option Error)) → String → Option (Option Error)
forgotten none ran = ran
forgotten (some id) ran = put id none ran

-- A drawn identifier that no accepted job has.
abbrev pub IsFresh : Result String → Pipeline String → Type 0
IsFresh (err e) p = Unit
IsFresh (ok id) p = count (str_eq id) p.accepted ≡ 0

module _ {F : Type 0} ⦃d : Float F⦄ where
  -- `Enqueue` of the pipeline with the job that it makes.
  unfoldable pub submit_job : Ctx → Ctx → Invoice F → Line F → Line F × Option Error
  unfolding enqueue
  submit_job entry at_select inv l =
      let sent = enqueue entry at_select inv.id l.pipe in
      elim sent.1 [
        | some e ↦ (record l { pipe = sent.0 }, some e)
        | none ↦ (record l { pipe = sent.0; jobs = put inv.id (new_job inv) l.jobs }, none)
      ]

module _ {F T C D B : Type 0} ⦃d : Float F⦄ (s : Service F T C) (u : Uploads F T D B (Line F)) where
  -- The uploads of the service: on its database, and to its pipeline.
  abbrev pub intake_of : Uploads F T D B (Line F)
  intake_of = record u { db = s.db; submit = submit_job }

  unfoldable pub uploaded : Upload B → UploadSights → System F T C D → System F T C D
  uploaded input o x =
      let taken : Intake T D (Line F) = record {
        store = x.world.store;
        files = x.files;
        jobs = x.line;
      } in
      let out = (Uploads.enqueue intake_of input o taken).0 in
      record x { line = out.jobs; files = out.files; world = record x.world { store = out.store } }

-- A stage's function that runs on a job at one of its workers, and its outcome.
pub data StageRun {F T C D : Type 0} ⦃d : Float F⦄ (s : Service F T C) (x : System F T C D)
    : String → Outcome F T C → Type 0 where
  preprocesses :
      {id : String} {rest : List String} (o : Sights)
      → Picks id x.line.pipe.prep.busy rest
      → StageRun s x id (stage_preprocess s o x.world (x.line.jobs id))
  recognizes :
      {id : String} {rest : List String} (tess ollama : Option (Engine F)) (o : Sights)
      → Picks id x.line.pipe.ocr.busy rest
      → StageRun s x id (stage_ocr s tess ollama o x.world (x.line.jobs id))
  judges :
      {id : String} {rest : List String} (text_of : String → Text) (judge : Option (Judge F))
      (assist : Option (Assistant F)) (open_router : Option (Engine F)) (t : HopTimes) (o : Sights)
      → Picks id x.line.pipe.jev.busy rest
      → StageRun s x id (stage_jev s text_of judge assist open_router t o x.world (x.line.jobs id))

module _ {F T C D : Type 0} where
  -- Behind a run: what the stage did to the world, to its job, and what it returned.
  unfoldable pub returned : String → Outcome F T C → System F T C D → System F T C D
  returned id out x = record x {
    line = record x.line { jobs = put id out.1 x.line.jobs };
    ran = put id (some out.2) x.ran;
    world = out.0;
  }

  -- Behind a step of the pipeline.
  unfoldable pub moved :
      {q : Pipeline String} (x : System F T C D) → Step x.line.pipe q → System F T C D
  unfolding forgotten label_of
  moved {q = q} x step = record x {
    line = record x.line { pipe = q };
    ran = forgotten (leaver (label_of step)) x.ran;
  }

pub data Moves {F T C D B : Type 0} ⦃d : Float F⦄ (s : Service F T C) (u : Uploads F T D B (Line F))
    : System F T C D → System F T C D → Type 0 where
  uploads :
      {x : System F T C D} (input : Upload B) (o : UploadSights)
      → IsFresh o.id x.line.pipe
      → Moves s u x (uploaded s u input o x)
  runs :
      {x : System F T C D} {id : String} {out : Outcome F T C}
      → StageRun s x id out
      → x.ran id ≡ none
      → Moves s u x (returned id out x)
  hands_on :
      {x : System F T C D} {q : Pipeline String} (step : Step x.line.pipe q)
      → q.accepted ≡ x.line.pipe.accepted
      → LabelAgrees x.ran (label_of step)
      → Moves s u x (moved x step)

module _ {F T C D : Type 0} ⦃d : Float F⦄ where
  -- A service that was just started. No job is looked up before it is accepted.
  unfoldable pub started : PipelineOptions → World T C → D → System F T C D
  started opts w files = record {
    line = record { pipe = start opts; jobs = λ id. new_job (new_invoice id [] [] []) };
    ran = λ id. none;
    world = w;
    files = files;
  }

-- What a started service can come to.
pub data Reached {F T C D B : Type 0} ⦃d : Float F⦄ (s : Service F T C)
    (u : Uploads F T D B (Line F)) (opts : PipelineOptions) : System F T C D → Type 0 where
  begins : (w : World T C) (files : D) → Reached s u opts (started opts w files)
  goes_on : {x y : System F T C D} → Reached s u opts x → Moves s u x y → Reached s u opts y
