-- ===== src/Worker/Progress/Settling.antt =====
-- As long as a worker has not returned, a pipeline that was shut down takes a step towards its end.
use invoice_ocr_poc.Base.{
  ℕ, zero, suc, ◌+◌, ◌≤◌, Bool, true, false, List, [], ◌∷◌, ◌≡◌, refl, ap, ◌∙◌, ◌⊎◌, inl, inr,
  length, arith, Bool-cases, lt→ltb,
}
use invoice_ocr_poc.Worker.Stage.{Stage}
use invoice_ocr_poc.Worker.Pipeline.{
  PipelineOptions, Pipeline, apply_defaults, has_room, AllLeft, Reachable,
}
use invoice_ocr_poc.Worker.Invariant.{StageOk}
use invoice_ocr_poc.Worker.Drain.{left_empty, at_least_one_lem}
use invoice_ocr_poc.Worker.Reachability.{PipelineOk, Reachable-ok}
use invoice_ocr_poc.Worker.Progress.{Finished, Advances}
use invoice_ocr_poc.Worker.Progress.Moves.{
  prep_takes, ocr_takes, jev_takes_up, prep_passes, ocr_passes, jev_passes, prep_leaves, ocr_leaves,
  jev_leaves, ocr_channel_closes, jev_channel_closes, prep_gives_up, ocr_gives_up,
}

ℕ-cases : (n : ℕ) → (n ≡ 0) ⊎ ((m : ℕ) × (n ≡ m + 1))
ℕ-cases zero = inl refl
ℕ-cases (suc m) = inr (m, omega arith)

buffers :
    (opts : PipelineOptions)
    → let o = apply_defaults opts in (1 ≤ o.ocr_buffer) × (1 ≤ o.jev_buffer)
unfolding apply_defaults
buffers opts = ground arith

module _ {J : Type 0} where
  -- A stage has a job at work, or a worker that can take one, or nothing to do.
  abbrev View : Stage J → Type 0
  View s =
      ((j : J) × (rest : List J) × (s.busy ≡ j ∷ rest))
      ⊎ ((j : J) × (rest : List J) × (idle : ℕ) × (s.queue ≡ j ∷ rest) × (s.idle ≡ idle + 1))
      ⊎ ((s.busy ≡ []) × (s.queue ≡ []))

  List-cases : (xs : List J) → (xs ≡ []) ⊎ ((x : J) × (rest : List J) × (xs ≡ x ∷ rest))
  List-cases [] = inl refl
  List-cases (x ∷ xs) = inr (x, xs, refl)

  -- Without a hard stop, a stage whose workers have all returned has no job in its channel.
  stage-View : {n k : ℕ} {c : Bool} (s : Stage J) → 1 ≤ n → c ≡ false → StageOk n k c s → View s
  stage-View {n = n} s some_worker live ok = elim (List-cases s.busy) [
    | inr (j, rest, at_work) ↦ inl (j, rest, at_work)
    | inl free ↦ elim (List-cases s.queue) [
      | inl empty ↦ inr (inr (free, empty))
      | inr (j, rest, waits) ↦ elim (ℕ-cases s.idle) [
        | inr (idle, ready) ↦ inr (inl (j, rest, idle, waits, ready))
        | inl gone ↦ absurd (cc (waits, left_empty s some_worker live ok (gone, free)))
      ]
    ]
  ]

  -- A stage has a worker at work, one that waits, or none.
  view_workers :
      (s : Stage J)
      → ((j : J) × (rest : List J) × (s.busy ≡ j ∷ rest))
        ⊎ ((idle : ℕ) × (s.idle ≡ idle + 1))
        ⊎ AllLeft s
  view_workers s = elim (List-cases s.busy) [
    | inr working ↦ inl working
    | inl free ↦ elim (ℕ-cases s.idle) [
      | inr waiting ↦ inr (inl waiting)
      | inl gone ↦ inr (inr (gone, free))
    ]
  ]

  canceled-Advances : (p : Pipeline J) → p.canceled ≡ true → Finished p ⊎ Advances p
  canceled-Advances p over = elim (view_workers p.prep) [
    | inl (j, rest, h) ↦ inr (prep_gives_up p j rest over h)
    | inr (inl (idle, h)) ↦ inr (prep_leaves p idle (inr over) h)
    | inr (inr prep_gone) ↦ elim (view_workers p.ocr) [
      | inl (j, rest, h) ↦ inr (ocr_gives_up p j rest over h)
      | inr (inl (idle, h)) ↦ inr (ocr_leaves p idle (inr over) h)
      | inr (inr ocr_gone) ↦ elim (view_workers p.jev) [
        | inl (j, rest, h) ↦ inr (jev_passes p j rest h)
        | inr (inl (idle, h)) ↦ inr (jev_leaves p idle (inr over) h)
        | inr (inr jev_gone) ↦ inl (prep_gone, ocr_gone, jev_gone)
      ]
    ]
  ]

  abbrev Idle : Stage J → Type 0
  Idle s = (s.busy ≡ []) × (s.queue ≡ [])

  room :
      {n k : ℕ} {c : Bool} (s : Stage J)
      → 1 ≤ k
      → StageOk n k c s
      → s.queue ≡ []
      → has_room s ≡ true
  room s some_room ok empty =
      let none_there = ap length empty in
      lt→ltb (length s.queue) s.capacity (omega (arith, ok.same_capacity))

  -- Without a hard stop: first the last stage has nothing to do, then the one before it, and so on.
  jev_settles :
      {n k : ℕ} (p : Pipeline J)
      → 1 ≤ n
      → p.canceled ≡ false
      → StageOk n k p.canceled p.jev
      → Idle p.jev ⊎ Advances p
  jev_settles p workers live ok = elim (stage-View p.jev workers live ok) [
    | inl (j, rest, h) ↦ inr (jev_passes p j rest h)
    | inr (inl (j, rest, idle, h, ready)) ↦ inr (jev_takes_up p j rest idle h ready)
    | inr (inr calm) ↦ inl calm
  ]

  ocr_settles :
      {n k : ℕ} (p : Pipeline J)
      → 1 ≤ n
      → p.canceled ≡ false
      → StageOk n k p.canceled p.ocr
      → has_room p.jev ≡ true
      → Idle p.ocr ⊎ Advances p
  ocr_settles p workers live ok free = elim (stage-View p.ocr workers live ok) [
    | inl (j, rest, h) ↦ inr (ocr_passes p j rest h free)
    | inr (inl (j, rest, idle, h, ready)) ↦ inr (ocr_takes p j rest idle h ready)
    | inr (inr calm) ↦ inl calm
  ]

  prep_settles :
      {n k : ℕ} (p : Pipeline J)
      → 1 ≤ n
      → p.canceled ≡ false
      → StageOk n k p.canceled p.prep
      → has_room p.ocr ≡ true
      → Idle p.prep ⊎ Advances p
  prep_settles p workers live ok free = elim (stage-View p.prep workers live ok) [
    | inl (j, rest, h) ↦ inr (prep_passes p j rest h free)
    | inr (inl (j, rest, idle, h, ready)) ↦ inr (prep_takes p j rest idle h ready)
    | inr (inr calm) ↦ inl calm
  ]

  jev_returns : (p : Pipeline J) → AllLeft p.ocr → Idle p.jev → AllLeft p.jev ⊎ Advances p
  jev_returns p before (free, empty) = elim (Bool-cases p.jev.closed) [
    | inr still_open ↦ inr (jev_channel_closes p before still_open)
    | inl shut ↦ elim (ℕ-cases p.jev.idle) [
      | inr (idle, h) ↦ inr (jev_leaves p idle (inl (shut, empty)) h)
      | inl gone ↦ inl (gone, free)
    ]
  ]

  ocr_returns : (p : Pipeline J) → AllLeft p.prep → Idle p.ocr → AllLeft p.ocr ⊎ Advances p
  ocr_returns p before (free, empty) = elim (Bool-cases p.ocr.closed) [
    | inr still_open ↦ inr (ocr_channel_closes p before still_open)
    | inl shut ↦ elim (ℕ-cases p.ocr.idle) [
      | inr (idle, h) ↦ inr (ocr_leaves p idle (inl (shut, empty)) h)
      | inl gone ↦ inl (gone, free)
    ]
  ]

  prep_returns : (p : Pipeline J) → p.prep.closed ≡ true → Idle p.prep → AllLeft p.prep ⊎ Advances p
  prep_returns p shut (free, empty) = elim (ℕ-cases p.prep.idle) [
    | inr (idle, h) ↦ inr (prep_leaves p idle (inl (shut, empty)) h)
    | inl gone ↦ inl (gone, free)
  ]

  graceful-Advances :
      (opts : PipelineOptions) (p : Pipeline J)
      → PipelineOk (apply_defaults opts) p
      → p.stopped ≡ true
      → p.canceled ≡ false
      → Finished p ⊎ Advances p
  graceful-Advances opts p ok stopped live =
      let (prep_n, ocr_n, jev_n) = at_least_one_lem opts in
      let (ocr_k, jev_k) = buffers opts in
      elim (jev_settles p jev_n live ok.jev_ok) [
        | inr step ↦ inr step
        | inl jev_idle ↦
            elim (ocr_settles p ocr_n live ok.ocr_ok (room p.jev jev_k ok.jev_ok jev_idle.1)) [
              | inr step ↦ inr step
              | inl ocr_idle ↦
                  elim (prep_settles p prep_n live ok.prep_ok
                    (room p.ocr ocr_k ok.ocr_ok ocr_idle.1)) [
                      | inr step ↦ inr step
                      | inl prep_idle ↦ elim (prep_returns p (ok.ingest_open ∙ stopped) prep_idle) [
                        | inr step ↦ inr step
                        | inl prep_gone ↦ elim (ocr_returns p prep_gone ocr_idle) [
                          | inr step ↦ inr step
                          | inl ocr_gone ↦ elim (jev_returns p ocr_gone jev_idle) [
                            | inr step ↦ inr step
                            | inl jev_gone ↦ inl (prep_gone, ocr_gone, jev_gone)
                          ]
                        ]
                      ]
                    ]
            ]
      ]

  -- A reachable pipeline that was shut down has finished, or some step brings it nearer to its end.
  pub Reachable-Advances :
      {opts : PipelineOptions} {p : Pipeline J}
      → Reachable opts p
      → p.stopped ≡ true
      → Finished p ⊎ Advances p
  Reachable-Advances {opts = opts} {p = p} r stopped = elim (Bool-cases p.canceled) [
    | inl over ↦ canceled-Advances p over
    | inr live ↦ graceful-Advances opts p (Reachable-ok r) stopped live
  ]
