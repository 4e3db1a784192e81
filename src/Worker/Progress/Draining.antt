-- ===== src/Worker/Progress/Draining.antt =====
-- A graceful drain comes to its end.
use invoice_ocr_poc.Base.{
  ap, sym, ℕ, zero, suc, ◌+◌, ◌≤◌, ◌<◌, Bool, true, false, ◌≡◌, refl, ◌∙◌, inl, inr, arith,
}
use invoice_ocr_poc.Worker.Pipeline.{PipelineOptions, Pipeline, Step, Reachable, then_step}
use invoice_ocr_poc.Worker.Stage.{count}
use invoice_ocr_poc.Worker.Drain.{drained, stopped_accepts}
use invoice_ocr_poc.Worker.Progress.{measure, Finished}
use invoice_ocr_poc.Worker.Progress.Settling.{Reachable-Advances}

-- Steps that each bring the pipeline nearer to its end.
pub data Run {J : Type 0} : ℕ → Pipeline J → Pipeline J → Type 0 where
  ended : {p : Pipeline J} → Run 0 p p
  next :
      {n : ℕ} {p q r : Pipeline J} → Step p q → measure q < measure p → Run n q r → Run (suc n) p r

module _ {J : Type 0} where
  pub Run-bounded : {n : ℕ} {p q : Pipeline J} → Run n p q → n + measure q ≤ measure p
  Run-bounded ended = omega arith
  Run-bounded (next step less rest) = let bound = Run-bounded rest in omega arith

  -- The end that a run leads to.
  abbrev Ends : PipelineOptions → Pipeline J → Type 0
  Ends opts p =
      (q : Pipeline J) × (n : ℕ) × Run n p q
      × Reachable opts q
      × Finished q
      × (q.canceled ≡ p.canceled)
      × (q.accepted ≡ p.accepted)

  run_out :
      {opts : PipelineOptions} (fuel : ℕ) (p : Pipeline J)
      → measure p ≤ fuel
      → Reachable opts p
      → p.stopped ≡ true
      → Ends opts p
  run_out zero p enough r stopped = elim (Reachable-Advances r stopped) [
    | inl finished ↦ (p, 0, ended, r, finished, refl, refl)
    | inr (q, step, less, same) ↦ absurd (omega arith)
  ]
  run_out (suc fuel) p enough r stopped = elim (Reachable-Advances r stopped) [
    | inl finished ↦ (p, 0, ended, r, finished, refl, refl)
    | inr (q, step, less, same) ↦
        let (accepted, still) = stopped_accepts step stopped in
        let (e, n, run, there, finished, canceled, kept) =
          run_out fuel q (omega arith) (then_step r step) still in
        (e, suc n, next step less run, there, finished, canceled ∙ same, kept ∙ accepted)
  ]

  -- A reachable pipeline that was shut down, without a hard stop, can go on to its end: there is a run,
  -- of no more steps than the measure says, that ends with all workers returned and with every job
  -- that was accepted done or failed, as often as it was accepted.
  pub drains :
      {opts : PipelineOptions} {p : Pipeline J} (f : J → Bool)
      → Reachable opts p
      → p.stopped ≡ true
      → p.canceled ≡ false
      → (q : Pipeline J) × (n : ℕ) × Run n p q
        × (n ≤ measure p)
        × Finished q
        × (count f p.accepted ≡ count f q.done + count f q.failed)
  drains {p = p} f r stopped live =
      let (q, n, run, there, finished, canceled, accepted) =
        run_out (measure p) p (omega arith) r stopped in
      let (a, b, c, d, kept) = drained f there (canceled ∙ live) finished.0 finished.1 finished.2 in
      (
        q,
        n,
        run,
        (let bound = Run-bounded run in omega arith),
        finished,
        ap (count f) (sym accepted) ∙ kept,
      )
