-- ===== src/System/Isolation/LastStage.antt =====
-- The last stage of internal/invoice/service.go writes no row but the one of its job.
use invoice_ocr_poc.Base.{
  none, some, Option, ◌≡◌, refl, ap, subst, String, Option-cases, Bool-cases, inl, inr, arith, ◌&&◌,
}
use invoice_ocr_poc.Float.{Float}
use invoice_ocr_poc.Strings.{Text}
use invoice_ocr_poc.Errors.{Result-cases, wrap}
use invoice_ocr_poc.Extract.{Extract}
use invoice_ocr_poc.Store.Invoice.{Invoice}
use invoice_ocr_poc.Store.Db.{IsDb}
use invoice_ocr_poc.Store.Writes.{update}
use invoice_ocr_poc.Store.Persistence.{row_of}
use invoice_ocr_poc.Cache.Entry.{Entry}
use invoice_ocr_poc.Service.Types.{
  Engine, Assistant, Judge, Service, Job, World, below_min_confidence,
}
use invoice_ocr_poc.Service.Apply.{apply_open_router_usage, apply_judgment, apply_jev_usage}
use invoice_ocr_poc.Service.Cascade.{recognize_one, engine_available}
use invoice_ocr_poc.Service.Judging.{
  HopTimes, Judged, judge_with_assist, judge_with, after_assist, extract_changed, wants_assist,
  apply_assist, ask_assist,
}
use invoice_ocr_poc.Service.Stages.{
  Sights, fail, replay_entry, apply_cache_hit, apply_open_router_ocr, store_judged, judge_job,
  stage_jev, replayed, done_invoice,
}
use invoice_ocr_poc.System.Isolation.{
  usage_id, Keeps, SameRows, update_keeps, fail-Keeps, then-Keeps,
}

module _ {F : Type 0} ⦃d : Float F⦄ where
  asked_id :
      (text_of : String → Text) (a : Assistant F) (text : Text) (x : Extract F) (inv : Invoice F)
      → (ask_assist text_of a text x inv).1.id ≡ inv.id
  unfolding ask_assist apply_open_router_usage
  asked_id text_of a text x inv = elim (Option-cases (a.assist text x).3) [
    | inl fine ↦ rw (ask_assist, fine) refl
    | inr (e, bad) ↦ rw (ask_assist, bad) refl
  ]

  assisted_id :
      (text_of : String → Text) (a : Option (Assistant F)) (text : Text) (x : Extract F)
      (inv : Invoice F)
      → (apply_assist text_of a text x inv).1.id ≡ inv.id
  unfolding apply_assist
  assisted_id text_of none text x inv = refl
  assisted_id text_of (some a) text x inv = let one = asked_id text_of a text x inv in ground arith

  judged_id :
      (text_of : String → Text) (judge : Option (Judge F)) (assist : Option (Assistant F))
      (text : Text) (x : Extract F) (t : HopTimes) (j : Job F)
      → (judge_with_assist text_of judge assist text x t j).job.inv.id ≡ j.inv.id
  unfolding judge_with_assist judge_with after_assist
  judged_id text_of none assist text x t j = refl
  judged_id text_of (some g) assist text x t j = elim (Bool-cases (wants_assist assist x)) [
    | inr skipped ↦ rw skipped refl
    | inl asked ↦
        elim (Bool-cases (extract_changed x (apply_assist text_of assist text x j.inv).0)) [
          | inl again ↦ rw (asked, again) (assisted_id text_of assist text x j.inv)
          | inr once ↦ rw (asked, once) (assisted_id text_of assist text x j.inv)
        ]
  ]

module _ {F T C : Type 0} ⦃d : Float F⦄ (s : Service F T C) (laws : IsDb s.db) where
  replay_entry-Keeps :
      (e : Entry F) (o : Sights) (w : World T C) (j : Job F)
      → Keeps s laws j.inv.id w.store (replay_entry s e o w j)
  unfolding replay_entry apply_judgment apply_jev_usage
  replay_entry-Keeps e o w j = elim (Result-cases (s.marshal e.parsed.items)) [
    | inr (x, q) ↦
        rw (replay_entry, q)
          (fail-Keeps s laws (wrap "marshal items" x) o w (record j { parsed = e.parsed }) j.inv.id
            refl)
    | inl (json, q) ↦
        let inv = replayed s e o json j.inv in
        let rows = update_keeps s laws inv j.inv.id o.watch w.store refl in
        elim (Option-cases (update s.db inv o.watch w.store).1) [
          | inl fine ↦ rw (replay_entry, q, fine) (refl, rows)
          | inr (x, bad) ↦ rw (replay_entry, q, bad) (refl, rows)
        ]
  ]

  store_judged-Keeps :
      (r : Judged F) (o : Sights) (w : World T C)
      → Keeps s laws r.job.inv.id w.store (store_judged s r o w)
  unfolding store_judged apply_judgment apply_jev_usage
  store_judged-Keeps r o w = elim (Result-cases (s.marshal r.parsed.items)) [
    | inr (x, q) ↦
        rw (store_judged, q)
          (fail-Keeps s laws (wrap "marshal items" x) o w r.job r.job.inv.id refl)
    | inl (json, q) ↦
        let inv = done_invoice s r json o.job_took in
        let rows = update_keeps s laws inv r.job.inv.id o.watch w.store refl in
        elim (Option-cases (update s.db inv o.watch w.store).1) [
          | inl fine ↦ rw (store_judged, q, fine) (refl, rows)
          | inr (x, bad) ↦ rw (store_judged, q, bad) (refl, rows)
        ]
  ]

  judge_job-Keeps :
      (text_of : String → Text) (judge : Option (Judge F)) (assist : Option (Assistant F))
      (t : HopTimes) (o : Sights) (w : World T C) (j : Job F)
      → Keeps s laws j.inv.id w.store (judge_job s text_of judge assist t o w j)
  unfolding judge_job
  judge_job-Keeps text_of judge assist t o w j =
      let r = judge_with_assist text_of judge assist j.ocr_res.text j.parsed t j in
      let same = judged_id text_of judge assist j.ocr_res.text j.parsed t j in
      elim (Option-cases r.error) [
        | inl fine ↦
            rw (judge_job, fine)
              (subst (λ id. Keeps s laws id w.store (store_judged s r o w)) same
                (store_judged-Keeps r o w))
        | inr (e, bad) ↦
            rw (judge_job, bad) (fail-Keeps s laws (wrap "jev" e) o w r.job j.inv.id same)
      ]

  hop-Keeps :
      (engine : Option (Engine F)) (o : Sights) (w : World T C) (j : Job F)
      → ((apply_open_router_ocr s engine o w j).0.store ≡ w.store)
        × ((apply_open_router_ocr s engine o w j).1.inv.id ≡ j.inv.id)
  unfolding apply_open_router_ocr
  hop-Keeps engine o w j =
      elim (Bool-cases (
        engine_available engine && below_min_confidence s.min_confidence j.ocr_res.text j.parsed)) [
          | inr skipped ↦ rw (apply_open_router_ocr, skipped) (refl, refl)
          | inl hop ↦ elim (Result-cases (recognize_one s j.img_path engine w.asked).1) [
            | inl (r, q) ↦ rw (apply_open_router_ocr, hop, q) (refl, usage_id r.res.usage _)
            | inr (e, q) ↦ rw (apply_open_router_ocr, hop, q) (refl, refl)
          ]
        ]

  hit-Keeps :
      (o : Sights) (w : World T C) (j : Job F)
      → Keeps s laws j.inv.id w.store (apply_cache_hit s o w j)
  unfolding apply_cache_hit
  hit-Keeps o w j = by_entry j.cache_entry refl
    where
      by_entry :
          (c : Option (Entry F))
          → j.cache_entry ≡ c
          → Keeps s laws j.inv.id w.store (apply_cache_hit s o w j)
      by_entry none q = simp (apply_cache_hit, q) (refl, λ k n. refl)
      by_entry (some e) q = simp (apply_cache_hit, q) (replay_entry-Keeps e o w j)

  -- The last stage writes no row but its job's.
  pub stage_jev-Keeps :
      (text_of : String → Text) (judge : Option (Judge F)) (assist : Option (Assistant F))
      (engine : Option (Engine F)) (t : HopTimes) (o : Sights) (w : World T C) (j : Job F)
      → Keeps s laws j.inv.id w.store (stage_jev s text_of judge assist engine t o w j)
  unfolding stage_jev
  stage_jev-Keeps text_of judge assist engine t o w j =
      let read = apply_open_router_ocr s engine o w j in
      let (rows, same) = hop-Keeps engine o w j in
      let before : SameRows s laws j.inv.id w.store read.0.store =
        λ k n. ap (λ st. row_of s.db laws st k) rows in
      let judging = judge_job s text_of judge assist t o read.0 read.1 in
      elim (Bool-cases j.cache_hit) [
        | inl hit ↦ simp (stage_jev, hit) (hit-Keeps o w j)
        | inr miss ↦ elim (Option-cases read.2) [
          | inr (e, bad) ↦
              simp (stage_jev, miss, bad)
                (then-Keeps s laws j.inv.id w.store read.0.store
                  (fail s (wrap "ocr" e) o read.0 read.1) before
                  (fail-Keeps s laws (wrap "ocr" e) o read.0 read.1 j.inv.id same))
          | inl fine ↦
              simp (stage_jev, miss, fine)
                (then-Keeps s laws j.inv.id w.store read.0.store judging before (
                  subst (λ id. Keeps s laws id read.0.store judging) same
                    (judge_job-Keeps text_of judge assist t o read.0 read.1)))
        ]
      ]
