-- ===== src/Worker/Drain.antt =====
-- The bounds of a running pipeline, and what a graceful drain ends in.
use invoice_ocr_poc.Base.{
  ℕ, ◌+◌, ◌≤◌, Bool, true, false, not, ◌||◌, none, some, List, [], ◌≡◌, refl, ap, ◌∙◌, ◌⊎◌, inl,
  inr, length, arith,
}
use invoice_ocr_poc.Errors.{Ctx}
use invoice_ocr_poc.Worker.Stage.{Stage, Label, count}
use invoice_ocr_poc.Worker.Pipeline.{
  PipelineOptions, Pipeline, apply_defaults, enqueue, shutdown, cancel, AllLeft, log_step, Step,
  submit, prep_sends, ocr_sends, jev_ends, prep_works, ocr_works, jev_takes, jev_fails, prep_closes,
  ocr_closes, shuts_down, cancels, Reachable,
}
use invoice_ocr_poc.Worker.Stage.{quiet, emits, fails, drops}
use invoice_ocr_poc.Worker.Invariant.{StageOk, OpenUntil}
use invoice_ocr_poc.Worker.Reachability.{Reachable-ok}
use invoice_ocr_poc.Worker.Conservation.{total, held, accepted_jobs_kept}

pub at_least_one_lem :
    (opts : PipelineOptions)
    → let o = apply_defaults opts in (1 ≤ o.prep_n) × (1 ≤ o.ocr_n) × (1 ≤ o.jev_n)
unfolding apply_defaults
at_least_one_lem opts = ground arith

module _ {J : Type 0} where
  stage_bounds :
      {n k : ℕ} {c : Bool} {s : Stage J}
      → StageOk n k c s
      → (length s.queue ≤ k) × (length s.busy ≤ n)
  stage_bounds ok = (ok.fits, omega (arith, ok.all_workers))

  -- No channel ever holds more jobs than its buffer, and no stage works on more jobs than it has
  -- workers, with the defaults filled in.
  pub pipeline_bounded :
      {opts : PipelineOptions} {p : Pipeline J}
      → Reachable opts p
      → let o = apply_defaults opts in
        ((length p.prep.queue ≤ o.ingest_buffer) × (length p.prep.busy ≤ o.prep_n))
        × ((length p.ocr.queue ≤ o.ocr_buffer) × (length p.ocr.busy ≤ o.ocr_n))
        × ((length p.jev.queue ≤ o.jev_buffer) × (length p.jev.busy ≤ o.jev_n))
  pipeline_bounded r =
      let ok = Reachable-ok r in
      (stage_bounds ok.prep_ok, stage_bounds ok.ocr_ok, stage_bounds ok.jev_ok)

  open_or_idle : (s next : Stage J) → OpenUntil s next → (s.busy ≡ []) ⊎ (next.closed ≡ false)
  open_or_idle s next (inl still_open) = inr still_open
  open_or_idle s next (inr (nobody, idle)) = inl idle

  -- In every state of a pipeline: as long as any worker of a stage is at work on a job, the channel of
  -- the next stage is open, whatever the other stages do, and the first channel is closed exactly if the
  -- pipeline is stopped. (A send on a closed channel would be a panic.)
  pub send_open :
      {opts : PipelineOptions} {p : Pipeline J}
      → Reachable opts p
      → ((p.prep.busy ≡ []) ⊎ (p.ocr.closed ≡ false))
        × ((p.ocr.busy ≡ []) ⊎ (p.jev.closed ≡ false))
        × (p.prep.closed ≡ p.stopped)
  send_open {p = p} r =
      let ok = Reachable-ok r in
      (open_or_idle p.prep p.ocr ok.ocr_open, open_or_idle p.ocr p.jev ok.jev_open, ok.ingest_open)

  pub left_empty :
      {n k : ℕ} {c : Bool} (s : Stage J)
      → 1 ≤ n
      → c ≡ false
      → StageOk n k c s
      → AllLeft s
      → s.queue ≡ []
  left_empty {c = c} s some_worker live ok (nobody, idle) = go ok.returns
    where
      go : (c ≡ true) ⊎ (s.exited ≡ 0) ⊎ ((s.closed ≡ true) × (s.queue ≡ [])) → s.queue ≡ []
      go (inl h) = absurd (cc (live, h))
      go (inr (inl h)) =
          let none_busy = ap length idle in
          absurd (omega (arith, ok.all_workers, some_worker, h, nobody, none_busy))
      go (inr (inr (_, h))) = h

  none_dropped : {c : Bool} {js : List J} → c ≡ false → (c ≡ true) ⊎ (js ≡ []) → js ≡ []
  none_dropped live (inl h) = absurd (cc (live, h))
  none_dropped live (inr h) = h

  abbrev Emptied : Stage J → Type 0
  Emptied s = (s.queue ≡ []) × (s.busy ≡ [])

  held_none : (f : J → Bool) (s : Stage J) → Emptied s → held f s ≡ 0
  unfolding held count
  held_none f s (q, b) =
      let no_queue = ap (count f) q in
      let no_busy = ap (count f) b in omega (arith, no_queue, no_busy)

  settled :
      (f : J → Bool) (p : Pipeline J)
      → count f p.accepted ≡ total f p
      → Emptied p.prep
      → Emptied p.ocr
      → Emptied p.jev
      → p.dropped ≡ []
      → count f p.accepted ≡ count f p.done + count f p.failed
  unfolding total count
  settled f p h a b c d =
      let no_prep = held_none f p.prep a in
      let no_ocr = held_none f p.ocr b in
      let no_jev = held_none f p.jev c in
      let no_drop = ap (count f) d in omega (arith, h, no_prep, no_ocr, no_jev, no_drop)

  -- When all workers of all stages have returned and the pipeline's context has not been ended, the
  -- channels are empty, no job was dropped, and every accepted job is done or has failed, as often as
  -- it was accepted.
  pub drained :
      {opts : PipelineOptions} {p : Pipeline J} (f : J → Bool)
      → Reachable opts p
      → p.canceled ≡ false
      → AllLeft p.prep
      → AllLeft p.ocr
      → AllLeft p.jev
      → (p.prep.queue ≡ [])
        × (p.ocr.queue ≡ [])
        × (p.jev.queue ≡ [])
        × (p.dropped ≡ [])
        × (count f p.accepted ≡ count f p.done + count f p.failed)
  drained {opts = opts} {p = p} f r live gone_prep gone_ocr gone_jev =
      let ok = Reachable-ok r in
      let (prep_n, ocr_n, jev_n) = at_least_one_lem opts in
      let prep_empty = left_empty p.prep prep_n live ok.prep_ok gone_prep in
      let ocr_empty = left_empty p.ocr ocr_n live ok.ocr_ok gone_ocr in
      let jev_empty = left_empty p.jev jev_n live ok.jev_ok gone_jev in
      let whole = none_dropped live ok.intact in
      (
        prep_empty,
        ocr_empty,
        jev_empty,
        whole,
        settled f p (accepted_jobs_kept f r) (prep_empty, gone_prep.1) (ocr_empty, gone_ocr.1)
            (jev_empty, gone_jev.1) whole,
      )

  enqueue_stopped :
      (entry at_select : Ctx) (j : J) (p : Pipeline J)
      → p.stopped ≡ true
      → (enqueue entry at_select j p).0 ≡ p
  unfolding enqueue
  enqueue_stopped (some c) at_select j p h = refl
  enqueue_stopped none at_select j p h =
      let refused : (not p.started || p.stopped) ≡ true = ground arith in rw (enqueue, refused) refl

  log_stopped :
      (l : Label J) (p : Pipeline J)
      → p.stopped ≡ true
      → ((log_step l p).accepted ≡ p.accepted) × ((log_step l p).stopped ≡ true)
  log_stopped quiet p h = (refl, h)
  log_stopped (emits j) p h = (refl, h)
  log_stopped (fails j) p h = (refl, h)
  log_stopped (drops j) p h = (refl, h)

  -- Behind a shutdown no step accepts a job, and the pipeline stays stopped.
  pub stopped_accepts :
      {p q : Pipeline J}
      → Step p q
      → p.stopped ≡ true
      → (q.accepted ≡ p.accepted) × (q.stopped ≡ true)
  unfolding shutdown cancel
  stopped_accepts {p = p} (submit entry at_select j) h =
      let same = enqueue_stopped entry at_select j p h in
      (ap (λ x. x.accepted) same, ap (λ x. x.stopped) same ∙ h)
  stopped_accepts {p = p} (prep_sends step room) h = (refl, h)
  stopped_accepts {p = p} (ocr_sends step room) h = (refl, h)
  stopped_accepts {p = p} (jev_ends step) h = (refl, h)
  stopped_accepts {p = p} (prep_works inner step) h = log_stopped _ (record p { prep = _ }) h
  stopped_accepts {p = p} (ocr_works inner step) h = log_stopped _ (record p { ocr = _ }) h
  stopped_accepts {p = p} (jev_takes step) h = (refl, h)
  stopped_accepts {p = p} (jev_fails step) h = (refl, h)
  stopped_accepts {p = p} (prep_closes gone) h = (refl, h)
  stopped_accepts {p = p} (ocr_closes gone) h = (refl, h)
  stopped_accepts {p = p} shuts_down h = (refl, refl)
  stopped_accepts {p = p} (cancels stopped) h = (refl, h)
