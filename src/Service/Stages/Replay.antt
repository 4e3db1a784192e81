-- ===== src/Service/Stages/Replay.antt =====
-- What the cache keeps of a judged receipt: a hit repeats the verdict, and the key is the text that
-- was judged, which is not the text that is looked up once OpenRouter has read the image again.
use invoice_ocr_poc.Base.{
  ℕ, Bool, true, none, some, ◌≡◌, refl, String, sym, ◌∙◌, ap, Option-cases, inl, inr,
}
use invoice_ocr_poc.Float.{Float}
use invoice_ocr_poc.Strings.{Text}
use invoice_ocr_poc.Errors.{Error, Result-cases, ok, err, wrap}
use invoice_ocr_poc.Jev.Answers.{Judgment}
use invoice_ocr_poc.Store.Invoice.{Invoice, Status}
use invoice_ocr_poc.Store.Writes.{update}
use invoice_ocr_poc.Cache.Entry.{Entry, Cache, IsCache}
use invoice_ocr_poc.Service.Types.{Service, Job, World}
use invoice_ocr_poc.Service.Judging.{Judged}
use invoice_ocr_poc.Service.Apply.{apply_judgment, apply_jev_usage}
use invoice_ocr_poc.Service.Stages.{
  Sights, fail, replay_entry, store_judged, done_invoice, replayed, entry_of, cache_set,
}

-- What the judgment of a receipt decides about its invoice.
pub record Verdict (F : Type 0) : Type 0 where
  pub status : Status
  pub items_json : String
  pub estimated_total : F
  pub computed_items_total : F
  pub judgment : Judgment F
  pub assist_used : Bool
  pub assist_notes : Text
  pub assist_model : String

module _ {F : Type 0} where
  abbrev pub judgment_in : Invoice F → Judgment F
  judgment_in inv = record {
    document_type = inv.document_type;
    document_type_conf = inv.document_type_conf;
    suggested_routing = inv.suggested_routing;
    routing_confidence = inv.routing_confidence;
    effective_routing = inv.effective_routing;
    amounts_supported = inv.amounts_supported;
    items_qty_supported = inv.items_qty_supported;
    total_consistent = inv.total_consistent;
    risk_score = inv.risk_score;
    risk_label = inv.risk_label;
    risk_confidence = inv.risk_confidence;
    needs_review = inv.needs_review;
    items_confirmed = inv.items_confirmed;
  }

  abbrev pub verdict_of : Invoice F → Verdict F
  verdict_of inv = record {
    status = inv.status;
    items_json = inv.items_json;
    estimated_total = inv.estimated_total;
    computed_items_total = inv.computed_items_total;
    judgment = judgment_in inv;
    assist_used = inv.assist_used;
    assist_notes = inv.assist_notes;
    assist_model = inv.assist_model;
  }

module _ {F T C : Type 0} ⦃d : Float F⦄ (s : Service F T C) (k : Cache F C) (laws : IsCache k)
    (with_cache : s.cache ≡ some k) where
  fail_reports :
      (cause : Error) (o : Sights) (w : World T C) (j : Job F)
      → (e : Error) × ((fail s cause o w j).2 ≡ some e)
  unfolding fail
  fail_reports cause o w j = (_, refl)

  -- The invoice and the cache after a judgment that was stored.
  judged_effect :
      (r : Judged F) (o : Sights) (w : World T C)
      → (store_judged s r o w).2 ≡ none
      → (json : String) × (s.marshal r.parsed.items ≡ ok json)
        × ((store_judged s r o w).1.inv ≡ done_invoice s r json o.job_took)
        × ((store_judged s r o w).0.cached
            ≡ k.set o.now r.job.ocr_res.text
                (entry_of s
                  (record r.job { inv = done_invoice s r json o.job_took; parsed = r.parsed })
                  r)
                w.cached)
  unfolding store_judged cache_set
  judged_effect r o w h = elim (Result-cases (s.marshal r.parsed.items)) [
    | inr (x, q) ↦
        let (e, reported) = fail_reports (wrap "marshal items" x) o w r.job in
        absurd (cc (h, failed x q, reported))
    | inl (json, q) ↦
        elim (Option-cases (update s.db (done_invoice s r json o.job_took) o.watch w.store).1) [
          | inl fine ↦ (
            json,
            q,
            rw (store_judged, q, fine) refl,
            rw (store_judged, q, fine, cache_set, with_cache) refl,
          )
          | inr (x, bad) ↦ absurd (cc (h, refused json x q bad))
        ]
  ]
    where
      failed :
          (x : Error)
          → s.marshal r.parsed.items ≡ err x
          → (store_judged s r o w).2 ≡ (fail s (wrap "marshal items" x) o w r.job).2
      failed x q = rw (store_judged, q) refl

      refused :
          (json : String) (x : Error)
          → s.marshal r.parsed.items ≡ ok json
          → (update s.db (done_invoice s r json o.job_took) o.watch w.store).1 ≡ some x
          → (store_judged s r o w).2 ≡ some x
      refused json x q bad = rw (store_judged, q, bad) refl

  replayed_effect :
      (e : Entry F) (o : Sights) (w : World T C) (j : Job F)
      → (replay_entry s e o w j).2 ≡ none
      → (json : String) × (s.marshal e.parsed.items ≡ ok json)
        × ((replay_entry s e o w j).1.inv ≡ replayed s e o json j.inv)
  unfolding replay_entry
  replayed_effect e o w j h = elim (Result-cases (s.marshal e.parsed.items)) [
    | inr (x, q) ↦
        let (f, reported) =
          fail_reports (wrap "marshal items" x) o w (record j { parsed = e.parsed }) in
        absurd (cc (h, failed x q, reported))
    | inl (json, q) ↦
        elim (Option-cases (update s.db (replayed s e o json j.inv) o.watch w.store).1) [
          | inl fine ↦ (json, q, rw (replay_entry, q, fine) refl)
          | inr (x, bad) ↦ (json, q, rw (replay_entry, q, bad) refl)
        ]
  ]
    where
      failed :
          (x : Error)
          → s.marshal e.parsed.items ≡ err x
          → (replay_entry s e o w j).2
            ≡ (fail s (wrap "marshal items" x) o w (record j { parsed = e.parsed })).2
      failed x q = rw (replay_entry, q) refl

  -- The entry of a stored judgment, with the time at which the cache took it.
  abbrev kept : Judged F → String → Sights → Entry F
  kept r json o =
      record (entry_of s
        (record r.job { inv = done_invoice s r json o.job_took; parsed = r.parsed }) r) {
          created_at = o.now;
        }

  some_injective : (a b : Entry F) → some a ≡ some b → a ≡ b
  some_injective a b h = cc

  same_verdict :
      (r : Judged F) (json json' : String) (o o' : Sights) (inv' : Invoice F) (e : Entry F)
      → e ≡ kept r json o
      → s.marshal r.parsed.items ≡ ok json
      → s.marshal e.parsed.items ≡ ok json'
      → verdict_of (replayed s e o' json' inv') ≡ verdict_of (done_invoice s r json o.job_took)
  unfolding apply_judgment apply_jev_usage
  same_verdict r json json' o o' inv' e h q q' =
      let one : json' ≡ json = cc (h, q, q') in rw (h, one) refl

  -- With a cache that meets `IsCache`, whose stores do not fail, as the one in memory does and the one in
  -- Redis does not: a judgment was stored, and later, when the cache holds under the key of its text
  -- still the entry that it held then, there is a hit under that text, of another job and in whatever
  -- world, that is stored as well. Both invoices have the same verdict (status, items, totals, every field
  -- of the judgment, and the traces of the assistant).
  pub replay_same :
      (r : Judged F) (o o' : Sights) (w w' : World T C) (j' : Job F) (later : ℕ) (e : Entry F)
      (cached : C)
      → k.enabled w.cached ≡ true
      → (store_judged s r o w).2 ≡ none
      → laws.entry cached (laws.key r.job.ocr_res.text)
        ≡ laws.entry (store_judged s r o w).0.cached (laws.key r.job.ocr_res.text)
      → (k.get later r.job.ocr_res.text cached).1 ≡ some e
      → (replay_entry s e o' w' j').2 ≡ none
      → verdict_of (replay_entry s e o' w' j').1.inv ≡ verdict_of (store_judged s r o w).1.inv
  replay_same r o o' w w' j' later e now on fine held hit again =
      let (json, q, inv, cached) = judged_effect r o w fine in
      let (json', q', inv') = replayed_effect e o' w' j' again in
      let stored =
        laws.set-entry o.now r.job.ocr_res.text
          (entry_of s (record r.job { inv = done_invoice s r json o.job_took; parsed = r.parsed })
            r)
          w.cached on in
      let found = laws.get_hit later r.job.ocr_res.text _ e hit in
      let same : some e ≡ some (kept r json o) =
        sym found ∙ held ∙ ap (λ c. laws.entry c (laws.key r.job.ocr_res.text)) cached ∙ stored in
      rw (inv, inv') (same_verdict r json json' o o' j'.inv e (some_injective e _ same) q q')
