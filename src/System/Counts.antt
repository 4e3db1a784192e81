-- ===== src/System/Counts.antt =====
-- internal/worker/pool.go: how a step of the pipeline changes where an identifier stands.
use invoice_ocr_poc.Base.{
  ℕ, ◌+◌, ◌≤◌, Option-cases, Bool-cases, none, some, [], ◌∷◌, ◌≡◌, ◌⊎◌, inl, inr, refl, ap, Bool,
  List, String, str_eq, arith, not, ◌||◌,
}
use invoice_ocr_poc.Errors.{Ctx}
use invoice_ocr_poc.Worker.Stage.{
  Stage, Label, quiet, emits, fails, drops, StageStep, take, emit, fail, drop, leave, count, send,
  close_channel, count-Picks,
}
use invoice_ocr_poc.Worker.Pipeline.{
  Pipeline, enqueue, shutdown, cancel, log_step, has_room, Step, submit, prep_sends, ocr_sends,
  jev_ends, prep_works, ocr_works, jev_takes, jev_fails, prep_closes, ocr_closes, shuts_down,
  cancels, IsInner,
}
use invoice_ocr_poc.System.Steps.{label_of}

-- An upload touches only the first channel.
abbrev pub SameWork : Pipeline String → Pipeline String → Type 0
SameWork p q = (q.prep.busy ≡ p.prep.busy) × (q.ocr ≡ p.ocr) × (q.jev ≡ p.jev) × (q.done ≡ p.done)

pub enqueue-SameWork :
    (entry at_select : Ctx) (k : String) (p : Pipeline String)
    → SameWork p (enqueue entry at_select k p).0
unfolding enqueue send
enqueue-SameWork (some c) at_select k p = (refl, refl, refl, refl)
enqueue-SameWork none at_select k p = elim (Bool-cases (not p.started || p.stopped)) [
  | inl refused ↦ rw (enqueue, refused) (refl, refl, refl, refl)
  | inr going ↦ elim (Option-cases at_select) [
    | inr (c, ended) ↦ rw (enqueue, going, ended) (refl, refl, refl, refl)
    | inl waiting ↦ elim (Bool-cases (has_room p.prep)) [
      | inr full ↦ rw (enqueue, going, waiting, full) (refl, refl, refl, refl)
      | inl room ↦ rw (enqueue, going, waiting, room) (refl, refl, refl, refl)
    ]
  ]
]

module _ (id : String) where
  -- How often an identifier stands in a list, and at the workers.
  unfoldable pub times : List String → ℕ
  times ids = count (str_eq id) ids

  abbrev pub at_work : Pipeline String → ℕ
  at_work p = times p.prep.busy + times p.ocr.busy + times p.jev.busy

  abbrev pub leaves : Label String → ℕ
  leaves quiet = 0
  leaves (emits k) = times (k ∷ [])
  leaves (fails k) = times (k ∷ [])
  leaves (drops k) = times (k ∷ [])

  busy-step :
      {c : Bool} {s s' : Stage String} {l : Label String}
      → StageStep c s l s'
      → (times s.busy ≤ times s'.busy + leaves l) × (times s'.busy ≤ times s.busy + times s.queue)
  unfolding times count
  busy-step (take q i) = let one = ap (count (str_eq id)) q in ground arith
  busy-step (emit p) = let one = count-Picks (str_eq id) p in ground arith
  busy-step (fail p) = let one = count-Picks (str_eq id) p in ground arith
  busy-step (drop c p) = let one = count-Picks (str_eq id) p in ground arith
  busy-step (leave m i) = (omega arith, omega arith)

  -- A step lets an identifier leave its worker only if it is the one that the step hands on, and takes
  -- into the last stage only what stood in the last channel.
  abbrev pub Moved : Label String → Pipeline String → Pipeline String → Type 0
  Moved l p q =
      (at_work p ≤ at_work q + leaves l) × (times q.jev.busy ≤ times p.jev.busy + times p.jev.queue)

  logged-Moved :
      (l : Label String) (p q : Pipeline String)
      → IsInner l
      → Moved l p q
      → Moved l p (log_step l q)
  logged-Moved quiet p q inner h = h
  logged-Moved (emits k) p q inner h = absurd inner
  logged-Moved (fails k) p q inner h = h
  logged-Moved (drops k) p q inner h = h

  pub step-Moved : {p q : Pipeline String} (step : Step p q) → Moved (label_of step) p q
  unfolding label_of times send close_channel shutdown cancel
  step-Moved {p = p} (submit entry at_select k) =
      let (prep, ocr, jev, done) = enqueue-SameWork entry at_select k p in
      let a = ap times prep in
      let b = ap (λ x. times x.busy) ocr in
      let c = ap (λ x. times x.busy) jev in (omega arith, omega arith)
  step-Moved {p = p} (prep_sends step room) =
      let (a, b) = busy-step step in (omega arith, omega arith)
  step-Moved {p = p} (ocr_sends step room) =
      let (a, b) = busy-step step in (omega arith, omega arith)
  step-Moved {p = p} (jev_ends step) = let (a, b) = busy-step step in (omega arith, omega arith)
  step-Moved {p = p} (prep_works {l = l} {s = s} inner step) =
      let (a, b) = busy-step step in
      logged-Moved l p (record p { prep = s }) inner (omega arith, omega arith)
  step-Moved {p = p} (ocr_works {l = l} {s = s} inner step) =
      let (a, b) = busy-step step in
      logged-Moved l p (record p { ocr = s }) inner (omega arith, omega arith)
  step-Moved {p = p} (jev_takes step) = let (a, b) = busy-step step in (omega arith, omega arith)
  step-Moved {p = p} (jev_fails step) = let (a, b) = busy-step step in (omega arith, omega arith)
  step-Moved {p = p} (prep_closes gone) = (omega arith, omega arith)
  step-Moved {p = p} (ocr_closes gone) = (omega arith, omega arith)
  step-Moved {p = p} shuts_down = (omega arith, omega arith)
  step-Moved {p = p} (cancels stopped) = (omega arith, omega arith)

  -- An identifier that is done after a step was so before, or it is the one that the step hands on, from
  -- a worker of the last stage.
  abbrev pub Ended : Label String → Pipeline String → Pipeline String → Type 0
  Ended l p q =
      (times q.done ≡ times p.done)
      ⊎ ((k : String) × (l ≡ emits k)
          × (times q.done ≡ times (k ∷ p.done))
          × (times (k ∷ []) ≤ times p.jev.busy))

  logged-done : (l : Label String) (q : Pipeline String) → (log_step l q).done ≡ q.done
  logged-done quiet q = refl
  logged-done (emits k) q = refl
  logged-done (fails k) q = refl
  logged-done (drops k) q = refl

  emitted :
      {c : Bool} {s s' : Stage String} {k : String}
      → StageStep c s (emits k) s'
      → times (k ∷ []) ≤ times s.busy
  unfolding times count
  emitted (emit p) = let one = count-Picks (str_eq id) p in ground arith

  pub step-Ended : {p q : Pipeline String} (step : Step p q) → Ended (label_of step) p q
  unfolding label_of shutdown cancel
  step-Ended {p = p} (submit entry at_select k) =
      let (prep, ocr, jev, done) = enqueue-SameWork entry at_select k p in inl (ap times done)
  step-Ended (prep_sends step room) = inl refl
  step-Ended (ocr_sends step room) = inl refl
  step-Ended (jev_ends {j = k} step) = inr (k, refl, refl, emitted step)
  step-Ended {p = p} (prep_works {l = l} {s = s} inner step) =
      inl (ap times (logged-done l (record p { prep = s })))
  step-Ended {p = p} (ocr_works {l = l} {s = s} inner step) =
      inl (ap times (logged-done l (record p { ocr = s })))
  step-Ended (jev_takes step) = inl refl
  step-Ended (jev_fails step) = inl refl
  step-Ended (prep_closes gone) = inl refl
  step-Ended (ocr_closes gone) = inl refl
  step-Ended shuts_down = inl refl
  step-Ended (cancels stopped) = inl refl
