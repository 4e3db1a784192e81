-- ===== src/Tests/Worker.antt =====
-- The pipeline of internal/worker with one worker per stage, through an upload, a failure and a drain.
use invoice_ocr_poc.Base.{
  ℕ, ◌+◌, ◌≤◌, Bool, true, false, none, some, [], ◌∷◌, ◌≡◌, ◌⊎◌, refl, inl, ◌==◌, length,
}
use invoice_ocr_poc.Errors.{sentinel, worker_queue_full}
use invoice_ocr_poc.Worker.Stage.{
  Stage, take, emit, fail, leave, here, count, new_stage, send, push, close_channel,
}
use invoice_ocr_poc.Worker.Pipeline.{
  PipelineOptions, Pipeline, apply_defaults, start, enqueue, shutdown, submit, prep_sends,
  ocr_sends, jev_ends, prep_works, ocr_works, jev_takes, prep_closes, ocr_closes, shuts_down,
  Reachable, begin, then_step,
}
use invoice_ocr_poc.Worker.Progress.{measure, Finished}
use invoice_ocr_poc.Worker.Progress.Draining.{Run, drains}
use invoice_ocr_poc.Worker.Conservation.{total, accepted_jobs_kept}
use invoice_ocr_poc.Worker.Drain.{pipeline_bounded, send_open, drained}

-- All options are left out, so each stage has one worker and room for one job.
abbrev options : PipelineOptions
options = record {
  prep_n = 0;
  ocr_n = 0;
  jev_n = 0;
  ingest_buffer = 0;
  ocr_buffer = 0;
  jev_buffer = 0;
  job_timeout = 0;
}

abbrev started : Pipeline ℕ
started = start options

-- Job 7 is accepted, job 8 finds the channel full.
submitted :
    (enqueue none none 8 (enqueue none none 7 started).0).1 ≡ some (sentinel worker_queue_full)
unfolding enqueue start apply_defaults new_stage send push
submitted = refl

abbrev first_upload : Pipeline ℕ
first_upload = (enqueue none none 7 started).0

upload_reached : Reachable options first_upload
upload_reached = then_step begin (submit none none 7)

abbrev idle_stage : Stage ℕ
idle_stage = new_stage 1 1

abbrev busy_stage : ℕ → Stage ℕ
busy_stage j = record idle_stage { idle = 0; busy = j ∷ [] }

abbrev closed_stage : Stage ℕ
closed_stage = record idle_stage { closed = true }

abbrev left_stage : Stage ℕ
left_stage = record closed_stage { idle = 0; exited = 1 }

-- Job 7 is at the first stage's worker.
abbrev taken_up : Pipeline ℕ
taken_up = record started { prep = busy_stage 7; accepted = 7 ∷ [] }

taken_up_reached : Reachable options taken_up
unfolding enqueue start apply_defaults new_stage send push
taken_up_reached = then_step upload_reached (prep_works tt (take {idle = 0} refl refl))

-- Job 7 is at the second stage's worker, and job 8 at the first one's.
abbrev both_taken : Pipeline ℕ
both_taken = record started { prep = busy_stage 8; ocr = busy_stage 7; accepted = 8 ∷ 7 ∷ [] }

both_taken_reached : Reachable options both_taken
unfolding enqueue start apply_defaults new_stage send push
both_taken_reached =
    then_step
      (then_step
        (then_step (then_step taken_up_reached (prep_sends (emit here) refl))
          (ocr_works tt (take {idle = 0} refl refl)))
        (submit none none 8))
      (prep_works tt (take {idle = 0} refl refl))

-- Job 7 is done, job 8 fails in the first stage, and the pipeline is shut down.
abbrev settled : Pipeline ℕ
settled = record started {
  prep = closed_stage;
  stopped = true;
  accepted = 8 ∷ 7 ∷ [];
  done = 7 ∷ [];
  failed = 8 ∷ [];
}

settled_reached : Reachable options settled
unfolding enqueue start apply_defaults new_stage send push shutdown close_channel
settled_reached =
    then_step
      (then_step
        (then_step
          (then_step (then_step both_taken_reached (ocr_sends (emit here) refl))
            (jev_takes (take {idle = 0} refl refl)))
          (jev_ends (emit here)))
        (prep_works tt (fail here)))
      shuts_down

-- All workers have returned.
abbrev finished : Pipeline ℕ
finished = record settled { prep = left_stage; ocr = left_stage; jev = left_stage }

finished_reached : Reachable options finished
unfolding enqueue start apply_defaults new_stage send push shutdown close_channel
finished_reached =
    then_step
      (then_step
        (then_step
          (then_step
            (then_step settled_reached (prep_works tt (leave {idle = 0} (inl (refl, refl)) refl)))
            (prep_closes (refl, refl)))
          (ocr_works tt (leave {idle = 0} (inl (refl, refl)) refl)))
        (ocr_closes (refl, refl)))
      (jev_takes (leave {idle = 0} (inl (refl, refl)) refl))

abbrev is_seven : ℕ → Bool
is_seven j = j == 7

drained_example :
    (finished.prep.queue ≡ [])
    × (finished.ocr.queue ≡ [])
    × (finished.jev.queue ≡ [])
    × (finished.dropped ≡ [])
    × (count is_seven finished.accepted
        ≡ count is_seven finished.done + count is_seven finished.failed)
unfolding start new_stage
drained_example = drained is_seven finished_reached refl (refl, refl) (refl, refl) (refl, refl)

accepted_jobs_kept_example : count is_seven both_taken.accepted ≡ total is_seven both_taken
accepted_jobs_kept_example = accepted_jobs_kept is_seven both_taken_reached

pipeline_bounded_example :
    let o = apply_defaults options in
    ((length both_taken.prep.queue ≤ o.ingest_buffer) × (length both_taken.prep.busy ≤ o.prep_n))
    × ((length both_taken.ocr.queue ≤ o.ocr_buffer) × (length both_taken.ocr.busy ≤ o.ocr_n))
    × ((length both_taken.jev.queue ≤ o.jev_buffer) × (length both_taken.jev.busy ≤ o.jev_n))
pipeline_bounded_example = pipeline_bounded both_taken_reached

send_open_example :
    ((both_taken.prep.busy ≡ []) ⊎ (both_taken.ocr.closed ≡ false))
    × ((both_taken.ocr.busy ≡ []) ⊎ (both_taken.jev.closed ≡ false))
    × (both_taken.prep.closed ≡ both_taken.stopped)
send_open_example = send_open both_taken_reached

-- The pipeline is shut down while both jobs are at work.
drains_example :
    let p = shutdown both_taken in
    (q : Pipeline ℕ) × (n : ℕ) × Run n p q
    × (n ≤ measure p)
    × Finished q
    × (count is_seven p.accepted ≡ count is_seven q.done + count is_seven q.failed)
unfolding shutdown start
drains_example = drains is_seven (then_step both_taken_reached shuts_down) refl refl
