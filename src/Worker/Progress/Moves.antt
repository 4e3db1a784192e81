-- ===== src/Worker/Progress/Moves.antt =====
-- The steps by which a pipeline of internal/worker/pool.go comes nearer to its end.
use invoice_ocr_poc.Base.{ℕ, ◌+◌, true, false, List, [], ◌∷◌, ◌≡◌, refl, ap, ◌⊎◌, length, arith}
use invoice_ocr_poc.Worker.Stage.{
  Picks, here, take, emit, drop, leave, send, close_channel, taken, freed, left, length-push, drops,
  gave_up,
}
use invoice_ocr_poc.Worker.Pipeline.{
  Pipeline, has_room, AllLeft, log_step, prep_sends, ocr_sends, jev_ends, prep_works, ocr_works,
  jev_takes, prep_closes, ocr_closes,
}
use invoice_ocr_poc.Worker.Progress.{measure, open_count, Advances}

module _ {J : Type 0} where
  -- The steps of the jobs.
  pub prep_takes :
      (p : Pipeline J) (j : J) (rest : List J) (idle : ℕ)
      → p.prep.queue ≡ j ∷ rest
      → p.prep.idle ≡ idle + 1
      → Advances p
  unfolding measure
  prep_takes p j rest idle waits ready =
      let longer = ap length waits in
      (
        record p { prep = taken p.prep rest idle j },
        prep_works tt (take waits ready),
        omega arith,
        refl,
      )

  pub ocr_takes :
      (p : Pipeline J) (j : J) (rest : List J) (idle : ℕ)
      → p.ocr.queue ≡ j ∷ rest
      → p.ocr.idle ≡ idle + 1
      → Advances p
  unfolding measure
  ocr_takes p j rest idle waits ready =
      let longer = ap length waits in
      (
        record p { ocr = taken p.ocr rest idle j },
        ocr_works tt (take waits ready),
        omega arith,
        refl,
      )

  pub jev_takes_up :
      (p : Pipeline J) (j : J) (rest : List J) (idle : ℕ)
      → p.jev.queue ≡ j ∷ rest
      → p.jev.idle ≡ idle + 1
      → Advances p
  unfolding measure
  jev_takes_up p j rest idle waits ready =
      let longer = ap length waits in
      (record p { jev = taken p.jev rest idle j }, jev_takes (take waits ready), omega arith, refl)

  first_picked : {j : J} {rest js : List J} → js ≡ j ∷ rest → Picks j js rest
  first_picked h = rw h here

  pub prep_passes :
      (p : Pipeline J) (j : J) (rest : List J)
      → p.prep.busy ≡ j ∷ rest
      → has_room p.ocr ≡ true
      → Advances p
  unfolding measure send
  prep_passes p j rest at_work room =
      let fewer = ap length at_work in
      let longer = length-push j p.ocr.queue in
      (
        record p { prep = freed p.prep rest; ocr = send j p.ocr },
        prep_sends (emit (first_picked at_work)) room,
        omega arith,
        refl,
      )

  pub ocr_passes :
      (p : Pipeline J) (j : J) (rest : List J)
      → p.ocr.busy ≡ j ∷ rest
      → has_room p.jev ≡ true
      → Advances p
  unfolding measure send
  ocr_passes p j rest at_work room =
      let fewer = ap length at_work in
      let longer = length-push j p.jev.queue in
      (
        record p { ocr = freed p.ocr rest; jev = send j p.jev },
        ocr_sends (emit (first_picked at_work)) room,
        omega arith,
        refl,
      )

  pub jev_passes : (p : Pipeline J) (j : J) (rest : List J) → p.jev.busy ≡ j ∷ rest → Advances p
  unfolding measure
  jev_passes p j rest at_work =
      let fewer = ap length at_work in
      (
        record p { jev = freed p.jev rest; done = j ∷ p.done },
        jev_ends (emit (first_picked at_work)),
        omega arith,
        refl,
      )

  -- The steps of the workers that return, and of the closers.
  pub prep_leaves :
      (p : Pipeline J) (idle : ℕ)
      → ((p.prep.closed ≡ true) × (p.prep.queue ≡ [])) ⊎ (p.canceled ≡ true)
      → p.prep.idle ≡ idle + 1
      → Advances p
  unfolding measure
  prep_leaves p idle may ready =
      (record p { prep = left p.prep idle }, prep_works tt (leave may ready), omega arith, refl)

  pub ocr_leaves :
      (p : Pipeline J) (idle : ℕ)
      → ((p.ocr.closed ≡ true) × (p.ocr.queue ≡ [])) ⊎ (p.canceled ≡ true)
      → p.ocr.idle ≡ idle + 1
      → Advances p
  unfolding measure
  ocr_leaves p idle may ready =
      (record p { ocr = left p.ocr idle }, ocr_works tt (leave may ready), omega arith, refl)

  pub jev_leaves :
      (p : Pipeline J) (idle : ℕ)
      → ((p.jev.closed ≡ true) × (p.jev.queue ≡ [])) ⊎ (p.canceled ≡ true)
      → p.jev.idle ≡ idle + 1
      → Advances p
  unfolding measure
  jev_leaves p idle may ready =
      (record p { jev = left p.jev idle }, jev_takes (leave may ready), omega arith, refl)

  pub ocr_channel_closes : (p : Pipeline J) → AllLeft p.prep → p.ocr.closed ≡ false → Advances p
  unfolding measure close_channel
  ocr_channel_closes p gone still_open =
      let one : open_count p.ocr ≡ 1 = rw still_open refl in
      (record p { ocr = close_channel p.ocr }, prep_closes gone, omega arith, refl)

  pub jev_channel_closes : (p : Pipeline J) → AllLeft p.ocr → p.jev.closed ≡ false → Advances p
  unfolding measure close_channel
  jev_channel_closes p gone still_open =
      let one : open_count p.jev ≡ 1 = rw still_open refl in
      (record p { jev = close_channel p.jev }, ocr_closes gone, omega arith, refl)

  -- Behind a hard stop a worker gives up its job.
  pub prep_gives_up :
      (p : Pipeline J) (j : J) (rest : List J)
      → p.canceled ≡ true
      → p.prep.busy ≡ j ∷ rest
      → Advances p
  unfolding measure
  prep_gives_up p j rest over at_work =
      let fewer = ap length at_work in
      (
        log_step (drops j) (record p { prep = gave_up p.prep rest }),
        prep_works tt (drop over (first_picked at_work)),
        omega arith,
        refl,
      )

  pub ocr_gives_up :
      (p : Pipeline J) (j : J) (rest : List J)
      → p.canceled ≡ true
      → p.ocr.busy ≡ j ∷ rest
      → Advances p
  unfolding measure
  ocr_gives_up p j rest over at_work =
      let fewer = ap length at_work in
      (
        log_step (drops j) (record p { ocr = gave_up p.ocr rest }),
        ocr_works tt (drop over (first_picked at_work)),
        omega arith,
        refl,
      )
