-- ===== src/Worker/Conservation.antt =====
-- No job is lost or duplicated: every accepted job is in one place.
use invoice_ocr_poc.Base.{
  ℕ, ◌+◌, Bool, not, ◌||◌, none, some, [], ◌∷◌, ◌≡◌, refl, ap, arith, inl, inr, Option-cases,
  Bool-cases,
}
use invoice_ocr_poc.Errors.{Ctx}
use invoice_ocr_poc.Worker.Stage.{
  Stage, Label, quiet, emits, fails, drops, StageStep, take, emit, fail, drop, leave, count, send,
  close_channel, new_stage, count-Picks, count-push,
}
use invoice_ocr_poc.Worker.Pipeline.{
  PipelineOptions, Pipeline, start, has_room, enqueue, shutdown, cancel, log_step, Step, submit,
  prep_sends, ocr_sends, jev_ends, prep_works, ocr_works, jev_takes, jev_fails, prep_closes,
  ocr_closes, shuts_down, cancels, Reachable, begin, then_step, IsInner,
}

module _ {J : Type 0} (f : J → Bool) where
  -- The jobs that a test accepts: in a stage, in the whole pipeline with what became of the others,
  -- and on the way out of a stage.
  unfoldable pub held : Stage J → ℕ
  held s = count f s.queue + count f s.busy

  unfoldable pub total : Pipeline J → ℕ
  unfolding held
  total p =
      held p.prep + held p.ocr + held p.jev + count f p.done + count f p.failed + count f p.dropped

  abbrev outgoing : Label J → ℕ
  outgoing quiet = 0
  outgoing (emits j) = count f (j ∷ [])
  outgoing (fails j) = count f (j ∷ [])
  outgoing (drops j) = count f (j ∷ [])

  held-step :
      {c : Bool} {s s' : Stage J} {l : Label J} → StageStep c s l s' → held s ≡ held s' + outgoing l
  unfolding held count
  held-step (take q i) = let one = ap (count f) q in ground arith
  held-step (emit p) = let one = count-Picks f p in ground arith
  held-step (fail p) = let one = count-Picks f p in ground arith
  held-step (drop c p) = let one = count-Picks f p in ground arith
  held-step (leave m i) = omega arith

  held-send : (s : Stage J) (j : J) → held (send j s) ≡ held s + count f (j ∷ [])
  unfolding held send count
  held-send s j = let one = count-push f j s.queue in ground arith

  -- The balance of a pipeline: as many jobs accepted as there are.
  abbrev Balanced : Pipeline J → Type 0
  Balanced p = count f p.accepted ≡ total p

  balance_enqueue :
      (entry at_select : Ctx) (j : J) (p : Pipeline J)
      → Balanced p
      → Balanced (enqueue entry at_select j p).0
  unfolding enqueue total count
  balance_enqueue (some c) at_select j p h = h
  balance_enqueue none at_select j p h = elim (Bool-cases (not p.started || p.stopped)) [
    | inl refused ↦ rw (enqueue, refused) h
    | inr going ↦ elim (Option-cases at_select) [
      | inr (c, ended) ↦ rw (enqueue, going, ended) h
      | inl waiting ↦ elim (Bool-cases (has_room p.prep)) [
        | inr full ↦ rw (enqueue, going, waiting, full) h
        | inl room ↦
            rw (enqueue, going, waiting, room) (let one = held-send p.prep j in ground arith)
      ]
    ]
  ]

  logged_balance :
      (l : Label J) (p : Pipeline J)
      → IsInner l
      → count f p.accepted ≡ total p + outgoing l
      → Balanced (log_step l p)
  unfolding total count
  logged_balance quiet p inner h = omega arith
  logged_balance (emits j) p inner h = absurd inner
  logged_balance (fails j) p inner h = ground arith
  logged_balance (drops j) p inner h = ground arith

  balance-Step : {p q : Pipeline J} → Step p q → Balanced p → Balanced q
  unfolding total count shutdown cancel close_channel
  balance-Step {p = p} (submit entry at_select j) h = balance_enqueue entry at_select j p h
  balance-Step {p = p} (prep_sends {j = j} step room) h =
      let one = held-step step in let two = held-send p.ocr j in ground arith
  balance-Step {p = p} (ocr_sends {j = j} step room) h =
      let one = held-step step in let two = held-send p.jev j in ground arith
  balance-Step {p = p} (jev_ends step) h = let one = held-step step in ground arith
  balance-Step {p = p} (prep_works {l = l} inner step) h =
      logged_balance l (record p { prep = _ }) inner (let one = held-step step in omega arith)
  balance-Step {p = p} (ocr_works {l = l} inner step) h =
      logged_balance l (record p { ocr = _ }) inner (let one = held-step step in omega arith)
  balance-Step {p = p} (jev_takes step) h = let one = held-step step in omega arith
  balance-Step {p = p} (jev_fails step) h = let one = held-step step in ground arith
  balance-Step {p = p} (prep_closes gone) h = omega arith
  balance-Step {p = p} (ocr_closes gone) h = omega arith
  balance-Step {p = p} shuts_down h = omega arith
  balance-Step {p = p} (cancels stopped) h = h

  -- In every pipeline that a start and any steps lead to, in whatever order the goroutines run, the
  -- accepted jobs are the ones in the three channels, at the workers, done, failed and dropped, each as
  -- often as it was accepted: for every test, the two sides have as many jobs that pass it.
  pub accepted_jobs_kept :
      {opts : PipelineOptions} {p : Pipeline J} → Reachable opts p → count f p.accepted ≡ total p
  unfolding start new_stage count total
  accepted_jobs_kept begin = refl
  accepted_jobs_kept (then_step r step) = balance-Step step (accepted_jobs_kept r)
