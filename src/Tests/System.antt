-- ===== src/Tests/System.antt =====
-- The whole service with one upload, from its acceptance to the end of the last stage.
use invoice_ocr_poc.Base.{
  ◌<◌, none, some, [], ◌≡◌, ◌⊎◌, inl, refl, String, Int64, arith, true, false,
}
use invoice_ocr_poc.Float.{Micros, micros_float}
use invoice_ocr_poc.Strings.{codes, same_text}
use invoice_ocr_poc.Errors.{ok}
use invoice_ocr_poc.Ocr.Usage
use invoice_ocr_poc.Store.Db.{Rows, rows_db-IsDb}
use invoice_ocr_poc.Cache.Memory.{MemoryCache, get}
use invoice_ocr_poc.Service.Types.{Engine, World, Outcome}
use invoice_ocr_poc.Service.Uploads.{
  Uploads, enqueue, resolve_image_type, store_upload, submit_invoice,
}
use invoice_ocr_poc.Store.Writes.{create, update}
use invoice_ocr_poc.Base.{add64}
use invoice_ocr_poc.Base.Assoc.{lookup}
use invoice_ocr_poc.Service.Cascade.{
  recognize_cascade, keeps_first, recognize_one, second_hop, engine_available,
}
use invoice_ocr_poc.Service.Judging.{judge_with_assist, judge_with, wants_assist, evaluate_judge}
use invoice_ocr_poc.Service.Stages.{
  after_ocr, cache_get, apply_open_router_ocr, judge_job, store_judged, stage_preprocess, stage_ocr,
  stage_jev,
}
use invoice_ocr_poc.Worker.Stage.{count, take, emit, here, leave, close_channel}
use invoice_ocr_poc.Worker.Pipeline.{
  start, PipelineOptions, Pipeline, Step, prep_works, prep_sends, ocr_works, ocr_sends, jev_takes,
  jev_ends, shutdown, shuts_down, prep_closes, ocr_closes,
}
use invoice_ocr_poc.System.Steps.{
  Line, System, uploads, runs, hands_on, preprocesses, recognizes, judges, started, uploaded,
  submit_job, moved, returned, StageRun, LabelAgrees, label_of, IsFresh, Reached, begins, goes_on,
}
use invoice_ocr_poc.System.Published.{done-IsPublished, drained-IsPublished, IsPublished}
use invoice_ocr_poc.System.Counts.{times}
use invoice_ocr_poc.System.Isolation.{Keeps}
use invoice_ocr_poc.System.Invariant.{StageRun-Keeps}
use invoice_ocr_poc.Tests.Data.{
  service, world, sights, times as hop_times, strict_judge, open_store,
}
use invoice_ocr_poc.Tests.Uploads.{Files, photo, calm}
use invoice_ocr_poc.Tests.Uploads
use invoice_ocr_poc.Tests.Api.{render}

abbrev opts : PipelineOptions
opts = record {
  prep_n = 1;
  ocr_n = 1;
  jev_n = 1;
  ingest_buffer = 1;
  ocr_buffer = 1;
  jev_buffer = 1;
  job_timeout = 1;
}

-- The queue of these uploads is set by the service.
abbrev line_uploads : Uploads Micros (Rows Micros) Files Int64 (Line Micros)
line_uploads = record {
  db = Uploads.uploads.db;
  disk = Uploads.uploads.disk;
  paths = Uploads.uploads.paths;
  upload_dir = Uploads.uploads.upload_dir;
  max_bytes = Uploads.uploads.max_bytes;
  submit = λ entry at_select inv l. (l, none);
}

-- An engine that finds no text.
abbrev blank : Engine Micros
blank = record {
  name = "tesseract";
  available = true;
  recognize = λ img.
      ok (record { text = []; confidence = micros_float.decimal 0 1; usage = Usage.no_usage });
}

abbrev empty_world : World (Rows Micros) (MemoryCache Micros)
empty_world = record world { store = record open_store { table = [] } }

abbrev Life : Type 0
Life =
    (x : System Micros (Rows Micros) (MemoryCache Micros) Files) × Reached service line_uploads opts
      x

abbrev accept : (l : Life) → IsFresh calm.id l.0.line.pipe → Life
accept l fresh = (_, goes_on l.1 (uploads photo calm fresh))

abbrev work :
    (l : Life) {id : String} {out : Outcome Micros (Rows Micros) (MemoryCache Micros)}
    → StageRun service l.0 id out
    → l.0.ran id ≡ none
    → Life
work l run idle = (_, goes_on l.1 (runs run idle))

abbrev walk :
    (l : Life) {q : Pipeline String} (step : Step l.0.line.pipe q)
    → q.accepted ≡ l.0.line.pipe.accepted
    → LabelAgrees l.0.ran (label_of step)
    → Life
walk l step same agrees = (_, goes_on l.1 (hands_on step same agrees))

abbrev born : Life
born = (started opts empty_world (λ p. false), begins empty_world (λ p. false))

-- The upload is accepted, and each stage takes the job, runs on it and hands it on.
abbrev queued_life : Life
unfolding started uploaded count start
queued_life = accept born refl

abbrev taken_life : Life
unfolding started uploaded count start enqueue resolve_image_type same_text store_upload add64
    create lookup submit_invoice submit_job label_of
taken_life = walk queued_life (prep_works tt (take {idle = 0} refl refl)) refl tt

abbrev prepared_life : Life
unfolding taken_life uploaded started submit_job enqueue resolve_image_type same_text store_upload
    add64 create lookup submit_invoice start label_of moved returned stage_preprocess update
prepared_life =
    let l3 = work taken_life (preprocesses sights here) refl in
    walk l3 (prep_sends (emit here) refl) refl refl

abbrev read_life : Life
unfolding prepared_life label_of moved returned stage_ocr recognize_cascade keeps_first
    recognize_one second_hop after_ocr
read_life =
    let l5 = walk prepared_life (ocr_works tt (take {idle = 0} refl refl)) refl tt in
    let l6 = work l5 (recognizes none (some blank) sights here) refl in
    walk l6 (ocr_sends (emit here) refl) refl refl

abbrev life : Life
unfolding read_life label_of moved returned stage_jev apply_open_router_ocr engine_available
    judge_job judge_with_assist judge_with wants_assist evaluate_judge store_judged update cache_get
    get
life =
    let l8 = walk read_life (jev_takes (take {idle = 0} refl refl)) refl tt in
    let l9 = work l8 (judges codes (some strict_judge) none none hop_times sights here) refl in
    walk l9 (jev_ends (emit here)) refl refl

done-IsPublished_example :
    IsPublished service (rows_db-IsDb Micros) line_uploads render life.0 "inv1"
unfolding life times count moved
done-IsPublished_example =
    done-IsPublished service (rows_db-IsDb Micros) line_uploads render "inv1" life.1 (omega arith)

-- The service is shut down, and the workers return one after the other.
abbrev ended_life : Life
unfolding life label_of moved returned shutdown close_channel
ended_life =
    let l11 = walk life shuts_down refl tt in
    let l12 = walk l11 (prep_works tt (leave {idle = 0} (inl (refl, refl)) refl)) refl tt in
    let l13 = walk l12 (prep_closes (refl, refl)) refl tt in
    let l14 = walk l13 (ocr_works tt (leave {idle = 0} (inl (refl, refl)) refl)) refl tt in
    let l15 = walk l14 (ocr_closes (refl, refl)) refl tt in
    walk l15 (jev_takes (leave {idle = 0} (inl (refl, refl)) refl)) refl tt

drained-IsPublished_example :
    IsPublished service (rows_db-IsDb Micros) line_uploads render ended_life.0 "inv1"
    ⊎ (0 < times "inv1" ended_life.0.line.pipe.failed)
unfolding ended_life times count moved
drained-IsPublished_example =
    drained-IsPublished service (rows_db-IsDb Micros) line_uploads render "inv1" ended_life.1 refl
      (refl, refl) (refl, refl) (refl, refl) (omega arith)

StageRun-Keeps_example :
    let job = taken_life.0.line.jobs "inv1" in
    Keeps service
      (rows_db-IsDb Micros)
      job.inv.id
      taken_life.0.world.store
      (stage_preprocess service sights taken_life.0.world job)
unfolding taken_life uploaded started submit_job enqueue resolve_image_type same_text store_upload
    add64 create lookup submit_invoice start moved
StageRun-Keeps_example =
    StageRun-Keeps service (rows_db-IsDb Micros) {x = taken_life.0} (preprocesses sights here)
