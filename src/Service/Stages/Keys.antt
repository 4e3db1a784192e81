-- ===== src/Service/Stages/Keys.antt =====
-- The key under which the last stage fills the cache is the text that was judged. It is not the text
-- that `StageOCR` looked up once OpenRouter has read the image again.
use invoice_ocr_poc.Base.{
  ℕ, ◌≢◌, ◌⊎◌, true, false, Option, none, some, ◌∷◌, ◌≡◌, refl, String, sym, ◌∙◌, ap, Option-cases,
  Bool-cases, inl, inr, add64,
}
use invoice_ocr_poc.Float.{Float}
use invoice_ocr_poc.Strings.{Text}
use invoice_ocr_poc.Errors.{Error, Result-cases, ok, wrap}
use invoice_ocr_poc.Extract.{Extract}
use invoice_ocr_poc.Ocr.Usage
use invoice_ocr_poc.Store.Writes.{update}
use invoice_ocr_poc.Cache.Entry.{Entry, Cache, IsCache}
use invoice_ocr_poc.Service.Types.{
  Engine, Assistant, Judge, Service, Job, World, below_min_confidence,
}
use invoice_ocr_poc.Service.Cascade.{read_result, recognize_one, engine_available}
use invoice_ocr_poc.Service.Judging.{
  HopTimes, Judged, judge_with_assist, judge_with, after_assist, extract_changed, wants_assist,
  apply_assist,
}
use invoice_ocr_poc.Service.Stages.{
  Sights, fail, apply_open_router_ocr, store_judged, judge_job, stage_jev, done_invoice, cache_set,
  with_reading,
}

module _ {F T C : Type 0} ⦃d : Float F⦄ (s : Service F T C) (k : Cache F C) (laws : IsCache k)
    (with_cache : s.cache ≡ some k) where
  fail-cached :
      (cause : Error) (o : Sights) (w : World T C) (j : Job F)
      → (fail s cause o w j).0.cached ≡ w.cached
  unfolding fail
  fail-cached cause o w j = refl

  store_judged_other :
      (r : Judged F) (o : Sights) (w : World T C) (key : String)
      → laws.key r.job.ocr_res.text ≢ key
      → laws.entry (store_judged s r o w).0.cached key ≡ laws.entry w.cached key
  unfolding store_judged cache_set
  store_judged_other r o w key n = elim (Result-cases (s.marshal r.parsed.items)) [
    | inr (x, q) ↦
        rw (store_judged, q)
          (ap (λ c. laws.entry c key) (fail-cached (wrap "marshal items" x) o w r.job))
    | inl (json, q) ↦
        elim (Option-cases (update s.db (done_invoice s r json o.job_took) o.watch w.store).1) [
          | inl fine ↦
              rw (store_judged, q, fine, cache_set, with_cache)
                (laws.set_other o.now r.job.ocr_res.text _ w.cached key n)
          | inr (x, bad) ↦ rw (store_judged, q, bad) refl
        ]
  ]

  judged_text :
      (text_of : String → Text) (judge : Option (Judge F)) (assist : Option (Assistant F))
      (text : Text) (x : Extract F) (t : HopTimes) (j : Job F)
      → (judge_with_assist text_of judge assist text x t j).job.ocr_res ≡ j.ocr_res
  unfolding judge_with_assist judge_with after_assist
  judged_text text_of none assist text x t j = refl
  judged_text text_of (some g) assist text x t j = elim (Bool-cases (wants_assist assist x)) [
    | inr skipped ↦ rw skipped refl
    | inl asked ↦
        elim (Bool-cases (extract_changed x (apply_assist text_of assist text x j.inv).0)) [
          | inl again ↦ rw (asked, again) refl
          | inr once ↦ rw (asked, once) refl
        ]
  ]

  judge_job_other :
      (text_of : String → Text) (judge : Option (Judge F)) (assist : Option (Assistant F))
      (t : HopTimes) (o : Sights) (w : World T C) (j : Job F) (key : String)
      → laws.key j.ocr_res.text ≢ key
      → laws.entry (judge_job s text_of judge assist t o w j).0.cached key ≡ laws.entry w.cached key
  unfolding judge_job
  judge_job_other text_of judge assist t o w j key n =
      let r = judge_with_assist text_of judge assist j.ocr_res.text j.parsed t j in
      let text = judged_text text_of judge assist j.ocr_res.text j.parsed t j in
      elim (Option-cases r.error) [
        | inl fine ↦
            rw (judge_job, fine)
              (store_judged_other r o w key (λ h. n (ap (λ x. laws.key x.text) (sym text) ∙ h)))
        | inr (e, bad) ↦
            rw (judge_job, bad) (ap (λ c. laws.entry c key) (fail-cached (wrap "jev" e) o w r.job))
      ]

  hop_taken :
      (e : Engine F) (o : Sights) (w : World T C) (j : Job F) (res : Usage.Result F)
      → e.available ≡ true
      → e.recognize j.img_path ≡ ok res
      → below_min_confidence s.min_confidence j.ocr_res.text j.parsed ≡ true
      → apply_open_router_ocr s (some e) o w j ≡ (
        record w { asked = e.name ∷ w.asked },
        with_reading s (read_result s res) (record j { ocr_ms = add64 j.ocr_ms o.hop_took }),
        none,
      )
  unfolding apply_open_router_ocr recognize_one engine_available
  hop_taken e o w j res up answer weak = simp (up, answer, weak)

  stage_jev_judges :
      (text_of : String → Text) (judge : Option (Judge F)) (assist : Option (Assistant F))
      (open_router : Option (Engine F)) (t : HopTimes) (o : Sights) (w w' : World T C)
      (j j' : Job F)
      → j.cache_hit ≡ false
      → apply_open_router_ocr s open_router o w j ≡ (w', j', none)
      → stage_jev s text_of judge assist open_router t o w j
        ≡ judge_job s text_of judge assist t o w' j'
  unfolding stage_jev
  stage_jev_judges text_of judge assist open_router t o w w' j j' miss hop =
      simp (stage_jev, miss, hop)

  -- With a cache that meets `IsCache`, as the one in memory does: if the text of the local engines was too
  -- weak and OpenRouter answers with another one (of another key), then the cache holds after the last
  -- stage, under the local engines' text, the entry that it held before, and a lookup of that text finds
  -- nothing at any time, unless there was such an entry before.
  pub hop_leaves_key :
      (text_of : String → Text) (judge : Option (Judge F)) (assist : Option (Assistant F))
      (e : Engine F) (t : HopTimes) (o : Sights) (w : World T C) (j : Job F) (res : Usage.Result F)
      (later : ℕ)
      → j.cache_hit ≡ false
      → e.available ≡ true
      → e.recognize j.img_path ≡ ok res
      → below_min_confidence s.min_confidence j.ocr_res.text j.parsed ≡ true
      → laws.key (read_result s res).res.text ≢ laws.key j.ocr_res.text
      → let cached = (stage_jev s text_of judge assist (some e) t o w j).0.cached in
        (laws.entry cached (laws.key j.ocr_res.text)
          ≡ laws.entry w.cached (laws.key j.ocr_res.text))
        × (((old : Entry F) × (laws.entry w.cached (laws.key j.ocr_res.text) ≡ some old))
            ⊎ ((k.get later j.ocr_res.text cached).1 ≡ none))
  hop_leaves_key text_of judge assist e t o w j res later miss up answer weak n =
      let w' : World T C = record w { asked = e.name ∷ w.asked } in
      let j' =
        with_reading s (read_result s res) (record j { ocr_ms = add64 j.ocr_ms o.hop_took }) in
      let hop = hop_taken e o w j res up answer weak in
      let out = stage_jev s text_of judge assist (some e) t o w j in
      let same : laws.entry out.0.cached (laws.key j.ocr_res.text)
          ≡ laws.entry w.cached (laws.key j.ocr_res.text) =
        rw (stage_jev_judges text_of judge assist (some e) t o w w' j j' miss hop)
          (judge_job_other text_of judge assist t o w' j' (laws.key j.ocr_res.text) n) in
      (
        same,
        elim (Option-cases (k.get later j.ocr_res.text out.0.cached).1) [
          | inl missed ↦ inr missed
          | inr (old, hit) ↦
              inl (old, sym same ∙ laws.get_hit later j.ocr_res.text out.0.cached old hit)
        ],
      )
