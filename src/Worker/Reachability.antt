-- ===== src/Worker/Reachability.antt =====
-- What holds of every pipeline that a start and any steps lead to.
use invoice_ocr_poc.Base.{
  Bool, true, false, not, ◌||◌, none, some, List, [], ◌∷◌, ◌≡◌, refl, ◌∙◌, ◌⊎◌, inl, inr,
  Option-cases, Bool-cases, ||-false,
}
use invoice_ocr_poc.Errors.{Ctx}
use invoice_ocr_poc.Worker.Stage.{
  Stage, Label, StageStep, send, close_channel, new_stage, take, emit, fail, drop, leave,
}
use invoice_ocr_poc.Worker.Pipeline.{
  PipelineOptions, Pipeline, apply_defaults, start, has_room, enqueue, shutdown, cancel, AllLeft,
  IsInner, log_step, Step, submit, prep_sends, ocr_sends, jev_ends, prep_works, ocr_works,
  jev_takes, jev_fails, prep_closes, ocr_closes, shuts_down, cancels, Reachable, begin, then_step,
}
use invoice_ocr_poc.Worker.Invariant.{
  StageOk, new_ok, step_ok, send_ok, close_ok, cancel_ok, step-closed, OpenUntil, open_while,
}

-- The options that `NewPipeline` works with.
pub record PipelineOk {J : Type 0} (opts : PipelineOptions) (p : Pipeline J) : Type 0 where
  pub prep_ok : StageOk opts.prep_n opts.ingest_buffer p.canceled p.prep
  pub ocr_ok : StageOk opts.ocr_n opts.ocr_buffer p.canceled p.ocr
  pub jev_ok : StageOk opts.jev_n opts.jev_buffer p.canceled p.jev
  pub ocr_open : OpenUntil p.prep p.ocr
  pub jev_open : OpenUntil p.ocr p.jev
  pub ingest_open : p.prep.closed ≡ p.stopped
  pub intact : (p.canceled ≡ true) ⊎ (p.dropped ≡ [])

module _ {J : Type 0} where
  start_ok : (opts : PipelineOptions) → PipelineOk (apply_defaults opts) (start {J = J} opts)
  unfolding start new_stage
  start_ok opts =
      let given = apply_defaults opts in
      record {
        prep_ok = new_ok given.prep_n given.ingest_buffer;
        ocr_ok = new_ok given.ocr_n given.ocr_buffer;
        jev_ok = new_ok given.jev_n given.jev_buffer;
        ocr_open = inl refl;
        jev_open = inl refl;
        ingest_open = refl;
        intact = inr refl;
      }

  keeps_open :
      {c : Bool} {s s' : Stage J} {l : Label J} (before : Stage J)
      → StageStep c s l s'
      → OpenUntil before s
      → OpenUntil before s'
  keeps_open before step (inl h) = inl (step-closed step ∙ h)
  keeps_open before step (inr h) = inr h

  prep_stepped :
      {opts : PipelineOptions} {s : Stage J} {l : Label J} (p : Pipeline J)
      → StageStep p.canceled p.prep l s
      → PipelineOk opts p
      → PipelineOk opts (record p { prep = s })
  prep_stepped p step ok = record {
    prep_ok = step_ok step ok.prep_ok;
    ocr_ok = ok.ocr_ok;
    jev_ok = ok.jev_ok;
    ocr_open = inl (open_while p.ocr step ok.ocr_open);
    jev_open = ok.jev_open;
    ingest_open = step-closed step ∙ ok.ingest_open;
    intact = ok.intact;
  }

  ocr_stepped :
      {opts : PipelineOptions} {s : Stage J} {l : Label J} (p : Pipeline J)
      → StageStep p.canceled p.ocr l s
      → PipelineOk opts p
      → PipelineOk opts (record p { ocr = s })
  ocr_stepped p step ok = record {
    prep_ok = ok.prep_ok;
    ocr_ok = step_ok step ok.ocr_ok;
    jev_ok = ok.jev_ok;
    ocr_open = keeps_open p.prep step ok.ocr_open;
    jev_open = inl (open_while p.jev step ok.jev_open);
    ingest_open = ok.ingest_open;
    intact = ok.intact;
  }

  jev_stepped :
      {opts : PipelineOptions} {s : Stage J} {l : Label J} (p : Pipeline J)
      → StageStep p.canceled p.jev l s
      → PipelineOk opts p
      → PipelineOk opts (record p { jev = s })
  jev_stepped p step ok = record {
    prep_ok = ok.prep_ok;
    ocr_ok = ok.ocr_ok;
    jev_ok = step_ok step ok.jev_ok;
    ocr_open = ok.ocr_open;
    jev_open = keeps_open p.ocr step ok.jev_open;
    ingest_open = ok.ingest_open;
    intact = ok.intact;
  }

  ocr_received :
      {opts : PipelineOptions} (p : Pipeline J) (j : J)
      → has_room p.ocr ≡ true
      → p.ocr.closed ≡ false
      → PipelineOk opts p
      → PipelineOk opts (record p { ocr = send j p.ocr })
  unfolding send
  ocr_received p j room open_yet ok = record {
    prep_ok = ok.prep_ok;
    ocr_ok = send_ok p.ocr j room open_yet ok.ocr_ok;
    jev_ok = ok.jev_ok;
    ocr_open = inl open_yet;
    jev_open = ok.jev_open;
    ingest_open = ok.ingest_open;
    intact = ok.intact;
  }

  jev_received :
      {opts : PipelineOptions} (p : Pipeline J) (j : J)
      → has_room p.jev ≡ true
      → p.jev.closed ≡ false
      → PipelineOk opts p
      → PipelineOk opts (record p { jev = send j p.jev })
  unfolding send
  jev_received p j room open_yet ok = record {
    prep_ok = ok.prep_ok;
    ocr_ok = ok.ocr_ok;
    jev_ok = send_ok p.jev j room open_yet ok.jev_ok;
    ocr_open = ok.ocr_open;
    jev_open = inl open_yet;
    ingest_open = ok.ingest_open;
    intact = ok.intact;
  }

  -- Logs that keep what the invariant is about, and a drop, which only an ended context explains.
  logged :
      {opts : PipelineOptions} {p : Pipeline J} (accepted done failed dropped : List J)
      → (p.canceled ≡ true) ⊎ (dropped ≡ [])
      → PipelineOk opts p
      → PipelineOk opts
          (record p { accepted = accepted; done = done; failed = failed; dropped = dropped })
  logged accepted done failed dropped still ok = record {
    prep_ok = ok.prep_ok;
    ocr_ok = ok.ocr_ok;
    jev_ok = ok.jev_ok;
    ocr_open = ok.ocr_open;
    jev_open = ok.jev_open;
    ingest_open = ok.ingest_open;
    intact = still;
  }

  inner_ok :
      {opts : PipelineOptions} {c : Bool} {s s' : Stage J} {l : Label J} (p : Pipeline J)
      → StageStep c s l s'
      → p.canceled ≡ c
      → IsInner l
      → PipelineOk opts p
      → PipelineOk opts (log_step l p)
  inner_ok p (take q i) same inner ok = ok
  inner_ok p (emit x) same inner ok = absurd inner
  inner_ok p (fail x) same inner ok = logged p.accepted p.done _ p.dropped ok.intact ok
  inner_ok p (drop c x) same inner ok = logged p.accepted p.done p.failed _ (inl (same ∙ c)) ok
  inner_ok p (leave m i) same inner ok = ok

  ingested :
      {opts : PipelineOptions} (p : Pipeline J) (j : J)
      → has_room p.prep ≡ true
      → p.stopped ≡ false
      → PipelineOk opts p
      → PipelineOk opts (record p { prep = send j p.prep; accepted = j ∷ p.accepted })
  unfolding send
  ingested p j room going ok = record {
    prep_ok = send_ok p.prep j room (ok.ingest_open ∙ going) ok.prep_ok;
    ocr_ok = ok.ocr_ok;
    jev_ok = ok.jev_ok;
    ocr_open = ok.ocr_open;
    jev_open = ok.jev_open;
    ingest_open = ok.ingest_open;
    intact = ok.intact;
  }

  enqueue_ok :
      {opts : PipelineOptions} {p : Pipeline J} (entry at_select : Ctx) (j : J)
      → PipelineOk opts p
      → PipelineOk opts (enqueue entry at_select j p).0
  unfolding enqueue
  enqueue_ok (some c) at_select j ok = ok
  enqueue_ok {p = p} none at_select j ok = elim (Bool-cases (not p.started || p.stopped)) [
    | inl refused ↦ rw (enqueue, refused) ok
    | inr going ↦ elim (Option-cases at_select) [
      | inr (c, ended) ↦ rw (enqueue, going, ended) ok
      | inl waiting ↦ elim (Bool-cases (has_room p.prep)) [
        | inr full ↦ rw (enqueue, going, waiting, full) ok
        | inl room ↦
            rw (enqueue, going, waiting, room)
              (ingested p j room (||-false (not p.started) p.stopped going).1 ok)
      ]
    ]
  ]

  ocr_closed :
      {opts : PipelineOptions} (p : Pipeline J)
      → AllLeft p.prep
      → PipelineOk opts p
      → PipelineOk opts (record p { ocr = close_channel p.ocr })
  unfolding close_channel
  ocr_closed p gone ok = record {
    prep_ok = ok.prep_ok;
    ocr_ok = close_ok ok.ocr_ok;
    jev_ok = ok.jev_ok;
    ocr_open = inr gone;
    jev_open = ok.jev_open;
    ingest_open = ok.ingest_open;
    intact = ok.intact;
  }

  jev_closed :
      {opts : PipelineOptions} (p : Pipeline J)
      → AllLeft p.ocr
      → PipelineOk opts p
      → PipelineOk opts (record p { jev = close_channel p.jev })
  unfolding close_channel
  jev_closed p gone ok = record {
    prep_ok = ok.prep_ok;
    ocr_ok = ok.ocr_ok;
    jev_ok = close_ok ok.jev_ok;
    ocr_open = ok.ocr_open;
    jev_open = inr gone;
    ingest_open = ok.ingest_open;
    intact = ok.intact;
  }

  shut_down :
      {opts : PipelineOptions} (p : Pipeline J) → PipelineOk opts p → PipelineOk opts (shutdown p)
  unfolding shutdown close_channel
  shut_down p ok = record {
    prep_ok = close_ok ok.prep_ok;
    ocr_ok = ok.ocr_ok;
    jev_ok = ok.jev_ok;
    ocr_open = ok.ocr_open;
    jev_open = ok.jev_open;
    ingest_open = refl;
    intact = ok.intact;
  }

  cancelled :
      {opts : PipelineOptions} (p : Pipeline J) → PipelineOk opts p → PipelineOk opts (cancel p)
  unfolding cancel
  cancelled p ok = record {
    prep_ok = cancel_ok ok.prep_ok;
    ocr_ok = cancel_ok ok.ocr_ok;
    jev_ok = cancel_ok ok.jev_ok;
    ocr_open = ok.ocr_open;
    jev_open = ok.jev_open;
    ingest_open = ok.ingest_open;
    intact = inl refl;
  }

  Step-keeps :
      {opts : PipelineOptions} {p q : Pipeline J} → Step p q → PipelineOk opts p → PipelineOk opts q
  Step-keeps (submit entry at_select j) ok = enqueue_ok entry at_select j ok
  Step-keeps {p = p} (prep_sends step room) ok =
      ocr_received _ _ room (open_while p.ocr step ok.ocr_open) (prep_stepped p step ok)
  Step-keeps {p = p} (ocr_sends step room) ok =
      jev_received _ _ room (open_while p.jev step ok.jev_open) (ocr_stepped p step ok)
  Step-keeps {p = p} (jev_ends step) ok =
      logged p.accepted _ p.failed p.dropped ok.intact (jev_stepped p step ok)
  Step-keeps {p = p} (prep_works inner step) ok =
      inner_ok _ step refl inner (prep_stepped p step ok)
  Step-keeps {p = p} (ocr_works inner step) ok = inner_ok _ step refl inner (ocr_stepped p step ok)
  Step-keeps {p = p} (jev_takes step) ok = jev_stepped p step ok
  Step-keeps {p = p} (jev_fails step) ok =
      logged p.accepted p.done _ p.dropped ok.intact (jev_stepped p step ok)
  Step-keeps {p = p} (prep_closes gone) ok = ocr_closed p gone ok
  Step-keeps {p = p} (ocr_closes gone) ok = jev_closed p gone ok
  Step-keeps {p = p} shuts_down ok = shut_down p ok
  Step-keeps {p = p} (cancels stopped) ok = cancelled p ok

  pub Reachable-ok :
      {opts : PipelineOptions} {p : Pipeline J}
      → Reachable opts p
      → PipelineOk (apply_defaults opts) p
  Reachable-ok {opts = opts} begin = start_ok opts
  Reachable-ok (then_step r step) = Step-keeps step (Reachable-ok r)
