-- ===== src/Service/Stages/Done.antt =====
-- A job that leaves the last stage without an error is done, and stored as it is.
use invoice_ocr_poc.Base.{
  false, Option, none, some, ◌≡◌, refl, String, Option-cases, Bool-cases, inl, inr, ◌⊎◌,
}
use invoice_ocr_poc.Float.{Float}
use invoice_ocr_poc.Strings.{Text}
use invoice_ocr_poc.Errors.{Error, Result-cases, ok, wrap, other}
use invoice_ocr_poc.Store.Invoice.{Invoice, done}
use invoice_ocr_poc.Store.Db.{IsDb}
use invoice_ocr_poc.Store.Writes.{update}
use invoice_ocr_poc.Store.Persistence.{row_of, update-row}
use invoice_ocr_poc.Cache.Entry.{Entry}
use invoice_ocr_poc.Service.Types.{Engine, Assistant, Judge, Service, Job, World, Outcome}
use invoice_ocr_poc.Service.Apply.{apply_judgment, apply_jev_usage}
use invoice_ocr_poc.Service.Cascade.{engine_available}
use invoice_ocr_poc.Service.Stages.Failure.{update_live}
use invoice_ocr_poc.Service.Judging.{HopTimes, Judged, judge_with_assist}
use invoice_ocr_poc.Service.Stages.{
  Sights, fail, replay_entry, apply_cache_hit, apply_open_router_ocr, store_judged, judge_job,
  stage_jev, done_invoice, replayed,
}

module _ {F T C : Type 0} ⦃d : Float F⦄ (s : Service F T C) (laws : IsDb s.db) where
  -- A stage that fails, or one whose job is done and stored.
  abbrev pub FailsOrStores : Outcome F T C → Type 0
  FailsOrStores r =
      ((e : Error) × (r.2 ≡ some e))
      ⊎ ((r.1.inv.status ≡ done) × (row_of s.db laws r.0.store r.1.inv.id ≡ some r.1.inv))

  fail_fails :
      (cause : Error) (o : Sights) (w : World T C) (j : Job F) → FailsOrStores (fail s cause o w j)
  unfolding fail
  fail_fails cause o w j = inl (_, refl)

  update_outcome :
      (inv : Invoice F) (o : Sights) (w : World T C)
      → inv.status ≡ done
      → let u = update s.db inv o.watch w.store in
        ((e : Error) × (u.1 ≡ some e)) ⊎ ((u.1 ≡ none) × (row_of s.db laws u.0 inv.id ≡ some inv))
  update_outcome inv o w h = elim (Option-cases (update s.db inv o.watch w.store).1) [
    | inl fine ↦ inr (fine, update-row s.db laws inv o.watch w.store fine)
    | inr bad ↦ inl bad
  ]

  replay_outcome :
      (e : Entry F) (o : Sights) (w : World T C) (j : Job F)
      → FailsOrStores (replay_entry s e o w j)
  unfolding replay_entry
  replay_outcome e o w j = elim (Result-cases (s.marshal e.parsed.items)) [
    | inl (json, q) ↦ elim (update_outcome (replayed s e o json j.inv) o w refl) [
      | inl (x, bad) ↦ inl (x, rw (replay_entry, q, bad) refl)
      | inr (fine, row) ↦ inr (rw (replay_entry, q, fine) (refl, row))
    ]
    | inr (x, q) ↦
        rw (replay_entry, q)
          (fail_fails (wrap "marshal items" x) o w (record j { parsed = e.parsed }))
  ]

  store_outcome : (r : Judged F) (o : Sights) (w : World T C) → FailsOrStores (store_judged s r o w)
  unfolding store_judged
  store_outcome r o w = elim (Result-cases (s.marshal r.parsed.items)) [
    | inl (json, q) ↦ elim (update_outcome (done_invoice s r json o.job_took) o w refl) [
      | inl (x, bad) ↦ inl (x, rw (store_judged, q, bad) refl)
      | inr (fine, row) ↦ inr (rw (store_judged, q, fine) (refl, row))
    ]
    | inr (x, q) ↦ rw (store_judged, q) (fail_fails (wrap "marshal items" x) o w r.job)
  ]

  judge_outcome :
      (text_of : String → Text) (judge : Option (Judge F)) (assist : Option (Assistant F))
      (t : HopTimes) (o : Sights) (w : World T C) (j : Job F)
      → FailsOrStores (judge_job s text_of judge assist t o w j)
  unfolding judge_job
  judge_outcome text_of judge assist t o w j =
      let r = judge_with_assist text_of judge assist j.ocr_res.text j.parsed t j in
      elim (Option-cases r.error) [
        | inl fine ↦ rw (judge_job, fine) (store_outcome r o w)
        | inr (e, bad) ↦ rw (judge_job, bad) (fail_fails (wrap "jev" e) o w r.job)
      ]

  hit_outcome : (o : Sights) (w : World T C) (j : Job F) → FailsOrStores (apply_cache_hit s o w j)
  unfolding apply_cache_hit
  hit_outcome o w j = by_entry j.cache_entry refl
    where
      by_entry :
          (c : Option (Entry F)) → j.cache_entry ≡ c → FailsOrStores (apply_cache_hit s o w j)
      by_entry none q = inl (other "invalid cache entry", simp (apply_cache_hit, q))
      by_entry (some e) q = simp (apply_cache_hit, q) (replay_outcome e o w j)

  -- Whatever the engines, the judge, the assistant, the cache and the database answer: if the last
  -- stage reports no error, the job's invoice is done, and the row under its id is that invoice.
  pub stage_jev_done :
      (text_of : String → Text) (judge : Option (Judge F)) (assist : Option (Assistant F))
      (open_router : Option (Engine F)) (t : HopTimes) (o : Sights) (w : World T C) (j : Job F)
      → FailsOrStores (stage_jev s text_of judge assist open_router t o w j)
  unfolding stage_jev
  stage_jev_done text_of judge assist open_router t o w j =
      let read = apply_open_router_ocr s open_router o w j in
      elim (Bool-cases j.cache_hit) [
        | inl hit ↦ simp (stage_jev, hit) (hit_outcome o w j)
        | inr miss ↦ elim (Option-cases read.2) [
          | inl fine ↦
              simp (stage_jev, miss, fine) (judge_outcome text_of judge assist t o read.0 read.1)
          | inr (e, bad) ↦ simp (stage_jev, miss, bad) (fail_fails (wrap "ocr" e) o read.0 read.1)
        ]
      ]

  stage_jev_judges :
      (text_of : String → Text) (judge : Option (Judge F)) (assist : Option (Assistant F))
      (t : HopTimes) (o : Sights) (w : World T C) (j : Job F)
      → j.cache_hit ≡ false
      → stage_jev s text_of judge assist none t o w j ≡ judge_job s text_of judge assist t o w j
  unfolding stage_jev apply_open_router_ocr engine_available
  stage_jev_judges text_of judge assist t o w j miss = simp (stage_jev, miss)

  -- A job without a cache hit, with no OpenRouter engine, whose extract the judge judges without an error
  -- and whose items can be encoded: if the context is live, the store open and the statement succeeds,
  -- then the last stage reports no error, and the row under the invoice's id is the job's invoice,
  -- which is done, has the encoded items, and needs a review exactly if the judgment says so.
  pub stage_jev_stores :
      (text_of : String → Text) (judge : Option (Judge F)) (assist : Option (Assistant F))
      (t : HopTimes) (o : Sights) (w : World T C) (j : Job F) (json : String)
      → let r = judge_with_assist text_of judge assist j.ocr_res.text j.parsed t j in
        let inv = done_invoice s r json o.job_took in
        j.cache_hit ≡ false
        → r.error ≡ none
        → s.marshal r.parsed.items ≡ ok json
        → o.watch.entry ≡ none
        → o.watch.wait ≡ none
        → w.store.stopped ≡ false
        → (s.db.save inv o.watch.run w.store.table).1 ≡ none
        → let out = stage_jev s text_of judge assist none t o w j in
          (out.2 ≡ none)
          × (out.1.inv ≡ inv)
          × (row_of s.db laws out.0.store inv.id ≡ some inv)
          × (inv.status ≡ done)
          × (inv.items_json ≡ json)
          × (inv.needs_review ≡ r.judgment.needs_review)
  unfolding stage_jev judge_job store_judged apply_open_router_ocr engine_available apply_judgment
      apply_jev_usage
  stage_jev_stores text_of judge assist t o w j json miss fine encoded entry wait opened saved =
      let r = judge_with_assist text_of judge assist j.ocr_res.text j.parsed t j in
      let inv = done_invoice s r json o.job_took in
      let stored = update_live s inv o.watch w.store entry wait opened saved in
      rw
        (
          stage_jev_judges text_of judge assist t o w j miss,
          judge_job,
          fine,
          store_judged,
          encoded,
          stored,
        )
        (refl, refl, update-row s.db laws inv o.watch w.store stored, refl, refl, refl)
