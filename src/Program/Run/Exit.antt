-- ===== src/Program/Run/Exit.antt =====
-- When `run` and `main` of cmd/api/main.go end without an error.
use invoice_ocr_poc.Base.{
  ℕ, false, Option, none, some, ◌≡◌, ◌⊎◌, ◌↔◌, refl, inl, inr, subst, Option-cases, arith,
}
use invoice_ocr_poc.Errors.{Error, Result, Result-cases, ok, err}
use invoice_ocr_poc.Config.Fields.{Config}
use invoice_ocr_poc.Program.Backends.{Opened, in_memory, in_redis, open_store, pprof_refusal}
use invoice_ocr_poc.Program.Run.{
  Outside, new_logger, serve, with_cache, with_store, with_logger, run, main,
}

not_zero : ¬ (◌≡◌ {A = ℕ} 1 0)
not_zero h = omega arith

module _ {F R : Type 0} (o : Outside F R) where
  -- The profiler is not wanted, or its address is one of this machine alone.
  abbrev pub PprofFine : Config F → Type 0
  PprofFine cfg =
      (cfg.debug_pprof ≡ false)
      ⊎ (pprof_refusal o.hosts (o.shown cfg.debug_pprof_addr) cfg.debug_pprof_addr ≡ none)

  abbrev pub IsServed : Config F → Type 0
  IsServed cfg = PprofFine cfg × (o.ended ≡ none)

  serve-none : (cfg : Config F) → ((serve o cfg).1 ≡ none) ↔ IsServed cfg
  serve-none cfg = ground arith

  abbrev pub IsCached : Config F → Result (Opened F R) → Type 0
  IsCached cfg r = ((c : Opened F R) × (r ≡ ok c)) × IsServed cfg

  with_cache-none :
      (cfg : Config F) (r : Result (Opened F R)) → ((with_cache o cfg r).1 ≡ none) ↔ IsCached cfg r
  with_cache-none cfg (err e) = (λ h. absurd (cc h), λ h. absurd (cc h.0.1))
  with_cache-none cfg (ok (in_memory c)) =
      (λ h. ((in_memory c, refl), (serve-none cfg).0 h), λ h. (serve-none cfg).1 h.1)
  with_cache-none cfg (ok (in_redis c)) =
      (λ h. ((in_redis c, refl), (serve-none cfg).0 h), λ h. (serve-none cfg).1 h.1)

  -- The logger is built, the database opens, and so does the cache.
  abbrev pub IsClean : Config F → Type 0
  IsClean cfg =
      (new_logger o.build_logger cfg.log_format ≡ none)
      × (o.database (open_store cfg) ≡ none)
      × ((c : Opened F R) × (o.cache cfg ≡ ok c))
      × PprofFine cfg
      × (o.ended ≡ none)

  with_store-none :
      (cfg : Config F) (opened : Option Error)
      → ((with_store o cfg opened).1 ≡ none) ↔ ((opened ≡ none) × IsCached cfg (o.cache cfg))
  with_store-none cfg (some e) = (λ h. absurd (cc h), λ h. absurd (cc h.0))
  with_store-none cfg none =
      let there = with_cache-none cfg (o.cache cfg) in (λ h. (refl, there.0 h), λ h. there.1 h.1)

  with_logger-none :
      (cfg : Config F) (logged : Option Error)
      → ((with_logger o cfg logged).1 ≡ none)
        ↔ ((logged ≡ none) × (o.database (open_store cfg) ≡ none) × IsCached cfg (o.cache cfg))
  with_logger-none cfg (some e) = (λ h. absurd (cc h), λ h. absurd (cc h.0))
  with_logger-none cfg none =
      let there = with_store-none cfg (o.database (open_store cfg)) in
      (λ h. (refl, (there.0 h).0, (there.0 h).1), λ h. there.1 (h.1, h.2))

  IsClean-iff :
      (cfg : Config F)
      → ((with_logger o cfg (new_logger o.build_logger cfg.log_format)).1 ≡ none) ↔ IsClean cfg
  IsClean-iff cfg =
      let there = with_logger-none cfg (new_logger o.build_logger cfg.log_format) in
      (
        λ h.
            let (logged, opened, cached) = there.0 h in
            (logged, opened, cached.0, cached.1.0, cached.1.1),
        λ h. there.1 (h.0, h.1, (h.2, (h.3, h.4))),
      )

  run-none : ((run o).1 ≡ none) ↔ ((cfg : Config F) × (o.loaded ≡ ok cfg) × IsClean cfg)
  unfolding run
  run-none = elim (Result-cases o.loaded) [
    | inr (e, bad) ↦ (λ h. absurd (cc (rw (run, bad) at h)), λ h. absurd (cc (bad, h.1)))
    | inl (cfg, loaded) ↦ (
      λ h. (cfg, loaded, (IsClean-iff cfg).0 (rw (run, loaded) at h)),
      λ h.
          let same : h.0 ≡ cfg = cc (h.1, loaded) in
          rw (run, loaded) ((IsClean-iff cfg).1 (subst IsClean same h.2)),
    )
  ]

  -- The program exits with the code 0 exactly if the settings are accepted, the logger is built, the
  -- database and the cache open, the profiler is not wanted or its address is not refused, and it is a
  -- signal that ends the wait and not an error of the server.
  pub main-IsClean : (main o ≡ 0) ↔ ((cfg : Config F) × (o.loaded ≡ ok cfg) × IsClean cfg)
  unfolding main
  main-IsClean = elim (Option-cases (run o).1) [
    | inl fine ↦ (λ h. run-none.0 fine, λ h. rw (main, fine) refl)
    | inr (e, bad) ↦
        (λ h. absurd (not_zero (rw (main, bad) at h)), λ h. absurd (cc (bad, run-none.1 h)))
  ]
