-- ===== src/Service/Stages.antt =====
-- internal/invoice/service.go: the three stages of a job, `applyCacheHit`, `applyOpenRouterOCR` and
-- `fail`. Clock readings and the states of the contexts are inputs.
pub mod Failure
pub mod Done
pub mod Replay
pub mod Keys
use invoice_ocr_poc.Base.{
  ℕ, Bool, true, false, not, ◌&&◌, ◌||◌, Option, none, some, List, [], ◌∷◌, String, Int64, add64,
  is_empty, if◌then◌else◌,
}
use invoice_ocr_poc.Float.{Float}
use invoice_ocr_poc.Strings.{Text}
use invoice_ocr_poc.Errors.{Error, Result, ok, err, other, wrap, is_deadline, message}
use invoice_ocr_poc.Extract.{Extract}
use invoice_ocr_poc.Jev.Answers.{Judgment}
use invoice_ocr_poc.Jev.Answers
use invoice_ocr_poc.Store.Invoice.{Invoice, queued, processing, done, failed}
use invoice_ocr_poc.Store.Writes.{Store, Watch, update}
use invoice_ocr_poc.Cache.Entry.{Entry, Cache}
use invoice_ocr_poc.Service.Types.{
  Engine, Assistant, Judge, Service, Job, World, Outcome, below_min_confidence,
}
use invoice_ocr_poc.Service.Apply.{apply_ocr_usage, apply_jev_usage, apply_judgment}
use invoice_ocr_poc.Service.Cascade.{
  Reading, Chosen, engine_available, recognize_one, recognize_cascade,
}
use invoice_ocr_poc.Service.Judging.{HopTimes, Judged, judge_with_assist}

-- What a stage observes: the context at its write, at its failure's write, the time (of the cache),
-- and the milliseconds of the job, of the stage, of its OpenRouter hop and of its database write.
pub record Sights : Type 0 where
  pub watch : Watch
  pub fail_watch : Watch
  pub now : ℕ
  pub job_took : Int64
  pub stage_took : Int64
  pub hop_took : Int64
  pub db_took : Int64

module _ {F T C : Type 0} ⦃d : Float F⦄ (s : Service F T C) where
  abbrev pub failed_invoice : Invoice F → Error → Int64 → Invoice F
  failed_invoice inv cause took = record inv {
    processing_ms = took;
    status = failed;
    error_message = message cause;
    needs_review = true;
  }

  -- The `timeout: ` prefix of a cause that is a missed deadline.
  unfoldable pub named_cause : Error → Error
  named_cause cause = if is_deadline cause then wrap "timeout" cause else cause

  abbrev pub saved_or : Error → Option Error → Error
  saved_or cause none = cause
  saved_or cause (some e) = wrap "save failed invoice" e

  unfoldable pub fail : Error → Sights → World T C → Job F → Outcome F T C
  fail cause o w j =
      let inv = failed_invoice j.inv (named_cause cause) o.job_took in
      let saved = update s.db inv o.fail_watch w.store in
      (
        record w { store = saved.0 },
        record j { inv = inv },
        some (saved_or (named_cause cause) saved.1),
      )

  -- `StagePreprocess`.
  unfoldable pub stage_preprocess : Sights → World T C → Job F → Outcome F T C
  stage_preprocess o w j =
      let inv = record j.inv { status = processing } in
      let saved = update s.db inv o.watch w.store in
      let w' = record w { store = saved.0 } in
      let j' = record j { inv = inv } in
      elim saved.1 [
        | some e ↦ (w', j', some e)
        | none ↦ elim (s.prepare inv.stored_path) [
          | err e ↦ fail (wrap "preprocess" e) o w' j'
          | ok img ↦ (w', record j' { img_path = img; prep_ms = o.stage_took }, none)
        ]
      ]

  -- The lookup of the recognised text in the cache, if there is one.
  unfoldable pub cache_get : ℕ → Text → C → C × Option (Entry F)
  cache_get now text c = elim s.cache [ none ↦ (c, none) | some k ↦ k.get now text c ]

  unfoldable pub cache_set : ℕ → Text → Entry F → C → C
  cache_set now text e c = elim s.cache [ none ↦ c | some k ↦ k.set now text e c ]

  abbrev pub with_hit : Option (Entry F) → Job F → Job F
  with_hit none j = j
  with_hit (some e) j = record j { cache_hit = true; cache_entry = some e }

  abbrev pub with_extract : String → Extract F → Invoice F → Invoice F
  with_extract json parsed inv = record inv {
    items_json = json;
    estimated_total = parsed.estimated_total;
    computed_items_total = parsed.computed_items_total;
  }

  -- `StageOCR` once an engine has answered.
  unfoldable pub after_ocr : Reading F → Sights → World T C → Job F → Outcome F T C
  after_ocr r o w j =
      let read = record j.inv { ocr_text = r.res.text; ocr_confidence = r.res.confidence } in
      let inv = apply_ocr_usage r.res.usage read in
      let looked = cache_get o.now r.res.text w.cached in
      let w' = record w { cached = looked.0 } in
      let j' = with_hit looked.1 (record j { inv = inv }) in
      elim (s.marshal r.parsed.items) [
        | err e ↦ fail (wrap "marshal items" e) o w' j'
        | ok json ↦ (
          w',
          record j' {
            inv = with_extract json r.parsed inv;
            ocr_res = r.res;
            parsed = r.parsed;
            ocr_ms = o.stage_took;
          },
          none,
        )
      ]

  unfoldable pub stage_ocr :
      Option (Engine F) → Option (Engine F) → Sights → World T C → Job F → Outcome F T C
  stage_ocr tess ollama o w j =
      let out = recognize_cascade s j.img_path tess ollama w.asked in
      let w' = record w { asked = out.0 } in
      elim out.1 [ err e ↦ fail (wrap "ocr" e) o w' j | ok c ↦ after_ocr c.reading o w' j ]

  abbrev pub finish_job : Sights → Int64 → Option Error → World T C → Job F → Outcome F T C
  finish_job o took (some e) w j = (w, j, some e)
  finish_job o took none w j = (w, record j { db_ms = took }, none)

  abbrev pub replayed : Entry F → Sights → String → Invoice F → Invoice F
  replayed e o json inv =
      record (apply_jev_usage e.jev_usage
        (apply_judgment e.judgment (with_extract json e.parsed inv))) {
          assist_used = e.assist_used;
          assist_notes = e.assist_notes;
          assist_model = e.assist_model;
          processing_ms = o.job_took;
          status = done;
        }

  -- `applyCacheHit`, for a job with an entry.
  unfoldable pub replay_entry : Entry F → Sights → World T C → Job F → Outcome F T C
  replay_entry e o w j =
      let j' = record j { parsed = e.parsed } in
      elim (s.marshal e.parsed.items) [
        | err x ↦ fail (wrap "marshal items" x) o w j'
        | ok json ↦
            let inv = replayed e o json j.inv in
            let saved = update s.db inv o.watch w.store in
            finish_job o o.db_took saved.1 (record w { store = saved.0 }) (record j' { inv = inv })
      ]

  unfoldable pub apply_cache_hit : Sights → World T C → Job F → Outcome F T C
  apply_cache_hit o w j = elim j.cache_entry [
    | none ↦ (w, j, some (other "invalid cache entry"))
    | some e ↦ replay_entry e o w j
  ]

  -- What the job keeps of OpenRouter's reading.
  abbrev pub with_reading : Reading F → Job F → Job F
  with_reading r j = record j {
    ocr_res = r.res;
    parsed = r.parsed;
    inv =
        apply_ocr_usage r.res.usage
          (record j.inv { ocr_text = r.res.text; ocr_confidence = r.res.confidence });
  }

  abbrev pub hop_outcome : World T C → Job F → Result (Reading F) → Outcome F T C
  hop_outcome w j (err e) = (w, j, some e)
  hop_outcome w j (ok r) = (w, with_reading r j, none)

  -- `applyOpenRouterOCR`: an error is returned without a change to the invoice.
  unfoldable pub apply_open_router_ocr :
      Option (Engine F) → Sights → World T C → Job F → Outcome F T C
  apply_open_router_ocr engine o w j =
      let out = recognize_one s j.img_path engine w.asked in
      if engine_available engine && below_min_confidence s.min_confidence j.ocr_res.text j.parsed
      then hop_outcome (record w { asked = out.0 })
          (record j { ocr_ms = add64 j.ocr_ms o.hop_took }) out.1
      else (w, j, none)

  abbrev pub entry_of : Job F → Judged F → Entry F
  entry_of j r = record {
    ocr_text = j.ocr_res.text;
    ocr_confidence = j.ocr_res.confidence;
    parsed = r.parsed;
    judgment = r.judgment;
    jev_usage = r.usage;
    assist_used = j.inv.assist_used;
    assist_notes = j.inv.assist_notes;
    assist_model = j.inv.assist_model;
    open_router_tokens = 0;
    ollama_duration_ms = 0;
    created_at = 0;
  }

  abbrev pub done_invoice : Judged F → String → Int64 → Invoice F
  done_invoice r json took =
      record (apply_jev_usage r.usage
        (apply_judgment r.judgment (with_extract json r.parsed r.job.inv))) {
          processing_ms = took;
          status = done;
        }

  -- `StageJev` behind the judgment: store the invoice, then fill the cache.
  unfoldable pub store_judged : Judged F → Sights → World T C → Outcome F T C
  store_judged r o w = elim (s.marshal r.parsed.items) [
    | err e ↦ fail (wrap "marshal items" e) o w r.job
    | ok json ↦
        let inv = done_invoice r json o.job_took in
        let j = record r.job { inv = inv; parsed = r.parsed } in
        let saved = update s.db inv o.watch w.store in
        let w' = record w { store = saved.0 } in
        elim saved.1 [
          | some e ↦ (w', j, some e)
          | none ↦ (
            record w' { cached = cache_set o.now j.ocr_res.text (entry_of j r) w.cached },
            record j { db_ms = o.db_took },
            none,
          )
        ]
  ]

  -- The judgment of a job whose text is settled.
  unfoldable pub judge_job :
      (String → Text)
      → Option (Judge F)
      → Option (Assistant F)
      → HopTimes
      → Sights
      → World T C
      → Job F
      → Outcome F T C
  judge_job text_of judge assist t o w j =
      let r = judge_with_assist text_of judge assist j.ocr_res.text j.parsed t j in
      elim r.error [ some e ↦ fail (wrap "jev" e) o w r.job | none ↦ store_judged r o w ]

  unfoldable pub stage_jev :
      (String → Text)
      → Option (Judge F)
      → Option (Assistant F)
      → Option (Engine F)
      → HopTimes
      → Sights
      → World T C
      → Job F
      → Outcome F T C
  stage_jev text_of judge assist open_router t o w j =
      if j.cache_hit
      then apply_cache_hit o w j
      else let read = apply_open_router_ocr open_router o w j in
        elim read.2 [
          | some e ↦ fail (wrap "ocr" e) o read.0 read.1
          | none ↦ judge_job text_of judge assist t o read.0 read.1
        ]
