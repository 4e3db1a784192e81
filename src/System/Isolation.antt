-- ===== src/System/Isolation.antt =====
-- The stages of internal/invoice/service.go write no row but the one of their job.
pub mod LastStage
use invoice_ocr_poc.Base.{
  ◌≢◌, none, some, Option, ◌≡◌, refl, sym, ap, subst, String, ◌∙◌, Option-cases, Bool-cases, inl,
  inr, arith, ◌&&◌,
}
use invoice_ocr_poc.Float.{Float}
use invoice_ocr_poc.Strings.{Text}
use invoice_ocr_poc.Errors.{Error, Result-cases, wrap, other}
use invoice_ocr_poc.Extract.{Extract}
use invoice_ocr_poc.Ocr.Usage
use invoice_ocr_poc.Store.Invoice.{Invoice, processing}
use invoice_ocr_poc.Store.Db.{IsDb}
use invoice_ocr_poc.Store.Writes.{Store, Watch, update}
use invoice_ocr_poc.Store.Persistence.{row_of, update_other}
use invoice_ocr_poc.Cache.Entry.{Entry}
use invoice_ocr_poc.Service.Types.{
  Engine, Assistant, Judge, Service, Job, World, Outcome, below_min_confidence,
}
use invoice_ocr_poc.Service.Apply.{
  apply_ocr_usage, apply_open_router_usage, apply_ollama_usage, apply_judgment, apply_jev_usage,
}
use invoice_ocr_poc.Service.Cascade.{
  Reading, Chosen, recognize_cascade, recognize_one, engine_available,
}
use invoice_ocr_poc.Service.Judging.{
  HopTimes, Judged, judge_with_assist, judge_with, after_assist, extract_changed, wants_assist,
  apply_assist, ask_assist,
}
use invoice_ocr_poc.Service.Stages.{
  Sights, fail, stage_preprocess, after_ocr, stage_ocr, replay_entry, apply_cache_hit,
  apply_open_router_ocr, store_judged, judge_job, stage_jev, with_hit, cache_get, replayed,
  done_invoice,
}

module _ {F : Type 0} ⦃d : Float F⦄ where
  pub usage_id : (u : Usage.Usage F) (inv : Invoice F) → (apply_ocr_usage u inv).id ≡ inv.id
  unfolding apply_ocr_usage apply_open_router_usage apply_ollama_usage
  usage_id u inv = ground arith

module _ {F T C : Type 0} ⦃d : Float F⦄ (s : Service F T C) (laws : IsDb s.db) where
  abbrev pub SameRows : String → Store T → Store T → Type 0
  SameRows id a b = (k : String) → id ≢ k → row_of s.db laws b k ≡ row_of s.db laws a k

  -- A stage that keeps the job's identifier and all rows but the one under it.
  abbrev pub Keeps : String → Store T → Outcome F T C → Type 0
  Keeps id before out = (out.1.inv.id ≡ id) × SameRows id before out.0.store

  pub update_keeps :
      (inv : Invoice F) (id : String) (w : Watch) (st : Store T)
      → inv.id ≡ id
      → SameRows id st (update s.db inv w st).0
  update_keeps inv id w st same k n = update_other s.db laws inv w st k (λ h. n (sym same ∙ h))

  pub fail-Keeps :
      (cause : Error) (o : Sights) (w : World T C) (j : Job F) (id : String)
      → j.inv.id ≡ id
      → Keeps id w.store (fail s cause o w j)
  unfolding fail
  fail-Keeps cause o w j id same = (same, update_keeps _ id o.fail_watch w.store same)

  pub then-Keeps :
      (id : String) (a b : Store T) (out : Outcome F T C)
      → SameRows id a b
      → Keeps id b out
      → Keeps id a out
  then-Keeps id a b out first (same, rest) = (same, λ k n. rest k n ∙ first k n)

  pub stage_preprocess-Keeps :
      (o : Sights) (w : World T C) (j : Job F) → Keeps j.inv.id w.store (stage_preprocess s o w j)
  unfolding stage_preprocess
  stage_preprocess-Keeps o w j =
      let inv : Invoice F = record j.inv { status = processing } in
      let saved = update s.db inv o.watch w.store in
      let w' : World T C = record w { store = saved.0 } in
      let j' : Job F = record j { inv = inv } in
      let rows = update_keeps inv j.inv.id o.watch w.store refl in
      elim (Option-cases saved.1) [
        | inr (e, bad) ↦ rw (stage_preprocess, bad) (refl, rows)
        | inl fine ↦ elim (Result-cases (s.prepare inv.stored_path)) [
          | inl (img, q) ↦ rw (stage_preprocess, fine, q) (refl, rows)
          | inr (e, q) ↦
              rw (stage_preprocess, fine, q)
                (then-Keeps j.inv.id w.store w'.store (fail s (wrap "preprocess" e) o w' j') rows
                  (fail-Keeps (wrap "preprocess" e) o w' j' j.inv.id refl))
        ]
      ]

  hit_inv : (e : Option (Entry F)) (j : Job F) → (with_hit s e j).inv ≡ j.inv
  hit_inv none j = refl
  hit_inv (some e) j = refl

  after_ocr-Keeps :
      (r : Reading F) (o : Sights) (w : World T C) (j : Job F)
      → Keeps j.inv.id w.store (after_ocr s r o w j)
  unfolding after_ocr
  after_ocr-Keeps r o w j =
      let read : Invoice F = record j.inv {
        ocr_text = r.res.text;
        ocr_confidence = r.res.confidence;
      } in
      let inv = apply_ocr_usage r.res.usage read in
      let looked = cache_get s o.now r.res.text w.cached in
      let w' : World T C = record w { cached = looked.0 } in
      let j' = with_hit s looked.1 (record j { inv = inv }) in
      let same = usage_id r.res.usage read in
      elim (Result-cases (s.marshal r.parsed.items)) [
        | inl (json, q) ↦ rw (after_ocr, q) (same, λ k n. refl)
        | inr (e, q) ↦
            rw (after_ocr, q)
              (fail-Keeps (wrap "marshal items" e) o w' j' j.inv.id
                (ap (λ i. i.id) (hit_inv looked.1 (record j { inv = inv })) ∙ same))
      ]

  pub stage_ocr-Keeps :
      (tess ollama : Option (Engine F)) (o : Sights) (w : World T C) (j : Job F)
      → Keeps j.inv.id w.store (stage_ocr s tess ollama o w j)
  unfolding stage_ocr
  stage_ocr-Keeps tess ollama o w j =
      let out = recognize_cascade s j.img_path tess ollama w.asked in
      let w' : World T C = record w { asked = out.0 } in
      elim (Result-cases out.1) [
        | inr (e, q) ↦ rw (stage_ocr, q) (fail-Keeps (wrap "ocr" e) o w' j j.inv.id refl)
        | inl (c, q) ↦ rw (stage_ocr, q) (after_ocr-Keeps c.reading o w' j)
      ]
