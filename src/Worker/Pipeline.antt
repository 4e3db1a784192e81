-- ===== src/Worker/Pipeline.antt =====
-- internal/worker/pool.go: `PipelineOptions`, `NewPipeline`, `applyDefaults`, `Start`, `Enqueue` and
-- `Shutdown`, and the steps of the whole pipeline. The contexts of the jobs act through the stages'
-- functions, which may fail at any time.
use invoice_ocr_poc.Base.{
  Bool, true, false, not, ◌||◌, Option, none, some, List, [], ◌∷◌, ◌≡◌, Int64, is_pos, length, ltb,
  if◌then◌else◌,
}
use invoice_ocr_poc.Errors.{Ctx, Error, ctx, sentinel, worker_queue_full, pipeline_stopped}
use invoice_ocr_poc.Worker.Stage.{
  Stage, Label, quiet, emits, fails, drops, StageStep, new_stage, send, close_channel,
}

-- `PipelineOptions`, less the stages' functions and the logger.
pub record PipelineOptions : Type 0 where
  pub prep_n : Int64
  pub ocr_n : Int64
  pub jev_n : Int64
  pub ingest_buffer : Int64
  pub ocr_buffer : Int64
  pub jev_buffer : Int64
  pub job_timeout : Int64

-- `Pipeline`: each stage with the channel that it reads, and what became of the jobs.
pub record Pipeline (J : Type 0) : Type 0 where
  pub prep : Stage J
  pub ocr : Stage J
  pub jev : Stage J
  pub started : Bool
  pub stopped : Bool
  pub canceled : Bool
  pub accepted : List J
  pub done : List J
  pub failed : List J
  pub dropped : List J

abbrev at_least_one : Int64 → Int64
at_least_one n = if is_pos n then n else 1

-- 90 seconds, in nanoseconds.
abbrev default_timeout : Int64
default_timeout = 90000000000

unfoldable pub apply_defaults : PipelineOptions → PipelineOptions
apply_defaults opts = record {
  prep_n = at_least_one opts.prep_n;
  ocr_n = at_least_one opts.ocr_n;
  jev_n = at_least_one opts.jev_n;
  ingest_buffer = at_least_one opts.ingest_buffer;
  ocr_buffer = at_least_one opts.ocr_buffer;
  jev_buffer = at_least_one opts.jev_buffer;
  job_timeout = if is_pos opts.job_timeout then opts.job_timeout else default_timeout;
}

module _ {J : Type 0} where
  -- `NewPipeline` and `Start`.
  unfoldable pub start : PipelineOptions → Pipeline J
  unfolding apply_defaults new_stage
  start given =
      let opts = apply_defaults given in
      record {
        prep = new_stage opts.prep_n opts.ingest_buffer;
        ocr = new_stage opts.ocr_n opts.ocr_buffer;
        jev = new_stage opts.jev_n opts.jev_buffer;
        started = true;
        stopped = false;
        canceled = false;
        accepted = [];
        done = [];
        failed = [];
        dropped = [];
      }

  abbrev pub has_room : Stage J → Bool
  has_room s = ltb (length s.queue) s.capacity

  -- `Enqueue`. The contexts are the caller's at the entry and at the `select`; if it has ended there,
  -- the model lets it win over a channel that has room.
  unfoldable pub enqueue : Ctx → Ctx → J → Pipeline J → Pipeline J × Option Error
  unfolding send
  enqueue entry at_select j p = elim entry [
    | some c ↦ (p, some (ctx c))
    | none ↦
        if not p.started || p.stopped
        then (p, some (sentinel pipeline_stopped))
        else elim at_select [
          | some c ↦ (p, some (ctx c))
          | none ↦
              if has_room p.prep
              then (record p { prep = send j p.prep; accepted = j ∷ p.accepted }, none)
              else (p, some (sentinel worker_queue_full))
        ]
  ]

  -- The first half of `Shutdown`, which happens once.
  unfoldable pub shutdown : Pipeline J → Pipeline J
  unfolding close_channel
  shutdown p = record p { stopped = true; prep = close_channel p.prep }

  -- `jobCancel`, behind the drain's time limit.
  unfoldable pub cancel : Pipeline J → Pipeline J
  cancel p = record p { canceled = true }

  -- All workers of a stage have returned.
  abbrev pub AllLeft : Stage J → Type 0
  AllLeft s = (s.idle ≡ 0) × (s.busy ≡ [])

  -- A step in which no job is sent on.
  abbrev pub IsInner : Label J → Type 0
  IsInner quiet = Unit
  IsInner (emits j) = ⊥
  IsInner (fails j) = Unit
  IsInner (drops j) = Unit

  -- What becomes of a job that leaves a stage for the next one.
  abbrev pub log_step : Label J → Pipeline J → Pipeline J
  log_step quiet p = p
  log_step (emits j) p = p
  log_step (fails j) p = record p { failed = j ∷ p.failed }
  log_step (drops j) p = record p { dropped = j ∷ p.dropped }

-- The steps. A worker sends only if the next channel has room. The last stage has no channel to send
-- to, so its jobs end there, and none is dropped.
pub data Step {J : Type 0} : Pipeline J → Pipeline J → Type 0 where
  submit : {p : Pipeline J} (entry at_select : Ctx) (j : J) → Step p (enqueue entry at_select j p).0
  prep_sends :
      {p : Pipeline J} {j : J} {s : Stage J}
      → StageStep p.canceled p.prep (emits j) s
      → has_room p.ocr ≡ true
      → Step p (record p { prep = s; ocr = send j p.ocr })
  ocr_sends :
      {p : Pipeline J} {j : J} {s : Stage J}
      → StageStep p.canceled p.ocr (emits j) s
      → has_room p.jev ≡ true
      → Step p (record p { ocr = s; jev = send j p.jev })
  jev_ends :
      {p : Pipeline J} {j : J} {s : Stage J}
      → StageStep p.canceled p.jev (emits j) s
      → Step p (record p { jev = s; done = j ∷ p.done })
  prep_works :
      {p : Pipeline J} {l : Label J} {s : Stage J}
      → IsInner l
      → StageStep p.canceled p.prep l s
      → Step p (log_step l (record p { prep = s }))
  ocr_works :
      {p : Pipeline J} {l : Label J} {s : Stage J}
      → IsInner l
      → StageStep p.canceled p.ocr l s
      → Step p (log_step l (record p { ocr = s }))
  jev_takes :
      {p : Pipeline J} {s : Stage J}
      → StageStep p.canceled p.jev quiet s
      → Step p (record p { jev = s })
  jev_fails :
      {p : Pipeline J} {j : J} {s : Stage J}
      → StageStep p.canceled p.jev (fails j) s
      → Step p (record p { jev = s; failed = j ∷ p.failed })
  prep_closes : {p : Pipeline J} → AllLeft p.prep → Step p (record p { ocr = close_channel p.ocr })
  ocr_closes : {p : Pipeline J} → AllLeft p.ocr → Step p (record p { jev = close_channel p.jev })
  shuts_down : {p : Pipeline J} → Step p (shutdown p)
  cancels : {p : Pipeline J} → p.stopped ≡ true → Step p (cancel p)

-- The pipelines that come about from a start with given options.
pub data Reachable {J : Type 0} (opts : PipelineOptions) : Pipeline J → Type 0 where
  begin : Reachable opts (start opts)
  then_step : {p q : Pipeline J} → Reachable opts p → Step p q → Reachable opts q
