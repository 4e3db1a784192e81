-- ===== src/Worker/Progress.antt =====
-- A pipeline that was shut down goes on until all its workers have returned: what is still to be done.
pub mod Moves
pub mod Settling
pub mod Draining
use invoice_ocr_poc.Base.{
  ℕ, zero, suc, ◌+◌, ◌*◌, ◌≤◌, ◌<◌, Bool, true, false, List, [], ◌∷◌, ◌≡◌, refl, sym, ap, ◌∙◌, ◌⊎◌,
  inl, inr, length, arith, ltb, if◌then◌else◌, Bool-cases, lt→ltb,
}
use invoice_ocr_poc.Worker.Stage.{
  Stage, Label, Picks, here, StageStep, take, emit, drop, leave, send, close_channel, taken, freed,
  left, length-push, drops, gave_up,
}
use invoice_ocr_poc.Worker.Pipeline.{
  PipelineOptions, Pipeline, apply_defaults, has_room, AllLeft, log_step, Step, prep_sends,
  ocr_sends, jev_ends, prep_works, ocr_works, jev_takes, prep_closes, ocr_closes, Reachable,
  then_step,
}
use invoice_ocr_poc.Worker.Invariant.{StageOk}
use invoice_ocr_poc.Worker.Drain.{left_empty, at_least_one_lem}
use invoice_ocr_poc.Worker.Reachability.{PipelineOk, Reachable-ok}

module _ {J : Type 0} where
  -- What is still to be done in a stage, where a job weighs so much.
  abbrev pub load : ℕ → Stage J → ℕ
  load weight s = weight * length s.queue + weight * length s.busy + s.idle

  -- A channel that is to be closed.
  abbrev pub open_count : Stage J → ℕ
  open_count s = if s.closed then 0 else 1

  -- What is still to be done in a pipeline: the steps of the jobs, of the workers and of the closers.
  unfoldable pub measure : Pipeline J → ℕ
  measure p = load 6 p.prep + load 4 p.ocr + load 2 p.jev + open_count p.ocr + open_count p.jev

  -- All workers of all stages have returned.
  abbrev pub Finished : Pipeline J → Type 0
  Finished p = AllLeft p.prep × AllLeft p.ocr × AllLeft p.jev

  -- A step that brings the pipeline nearer to its end.
  abbrev pub Advances : Pipeline J → Type 0
  Advances p = (q : Pipeline J) × Step p q × (measure q < measure p) × (q.canceled ≡ p.canceled)
