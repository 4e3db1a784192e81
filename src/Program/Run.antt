-- ===== src/Program/Run.antt =====
-- cmd/api/main.go: `newLogger`, `run` and `main`. What the program does to its parts is a trace; the
-- settings, the cache and the address of the profiler are those of the other modules. The logger's
-- build, the opening of the database, and what ends the wait are inputs.
pub mod Order
pub mod Exit
pub mod Guarded
use invoice_ocr_poc.Base.{
  ℕ, Bool, Option, none, some, List, [], ◌∷◌, ◌++◌, String, Int64, if◌then◌else◌,
}
use invoice_ocr_poc.Errors.{Error, Result, ok, err, wrap}
use invoice_ocr_poc.Strings.{Text, codes, same_text}
use invoice_ocr_poc.Config.Fields.{Config}
use invoice_ocr_poc.Worker.Pipeline.{PipelineOptions}
use invoice_ocr_poc.Program.Wiring.{pipeline_options}
use invoice_ocr_poc.Program.Backends.{
  Database, Opened, in_memory, in_redis, open_store, Hosts, pprof_refusal,
}

-- The calls of `run` that start or end a part. `stop` ends the context of the signals.
pub data Action : Type 0 where
  open_db : Database → Action
  connect_redis start_http shut_http start_pprof shut_pprof close_redis close_db stop sync_log :
      Action
  start_pipeline : PipelineOptions → Action
  shut_pipeline : Int64 → Action

-- A trace, and the error that is returned.
abbrev pub Ran : Type 0
Ran = List Action × Option Error

-- What the program meets: `build_logger production` is the build of a logger, `database` opens one, and
-- `ended` is the server's error, or none behind a signal.
pub record Outside (F R : Type 0) : Type 0 where
  pub loaded : Result (Config F)
  pub build_logger : Bool → Option Error
  pub database : Database → Option Error
  pub cache : Config F → Result (Opened F R)
  pub hosts : Hosts
  pub shown : Text → String
  pub ended : Option Error

-- `defer`.
abbrev pub deferred : Action → Ran → Ran
deferred a (trace, e) = (trace ++ a ∷ [], e)

abbrev pub first : Action → Ran → Ran
first a (trace, e) = (a ∷ trace, e)

unfoldable pub new_logger : (Bool → Option Error) → Text → Option Error
unfolding same_text
new_logger build format = elim (build (same_text format (codes "json"))) [
  | some e ↦ some (wrap "build logger" e)
  | none ↦ none
]

module _ {F R : Type 0} (o : Outside F R) where
  -- From the `select` on.
  abbrev pub await_end : List Action → Config F → Ran
  await_end pprof_shut cfg = (
    elim o.ended [ none ↦ [] | some e ↦ stop ∷ [] ]
        ++ shut_http ∷ []
        ++ pprof_shut
        ++ shut_pipeline cfg.shutdown_timeout ∷ [],
    o.ended,
  )

  -- The profiler, if it is wanted.
  abbrev pub with_pprof : Config F → Ran
  with_pprof cfg =
      if cfg.debug_pprof
      then elim (pprof_refusal o.hosts (o.shown cfg.debug_pprof_addr) cfg.debug_pprof_addr) [
        | some e ↦ (stop ∷ shut_pipeline cfg.shutdown_timeout ∷ [], some e)
        | none ↦ first start_pprof (await_end (shut_pprof ∷ []) cfg)
      ]
      else await_end [] cfg

  abbrev pub serve : Config F → Ran
  serve cfg = first (start_pipeline (pipeline_options cfg)) (first start_http (with_pprof cfg))

  abbrev pub with_cache : Config F → Result (Opened F R) → Ran
  with_cache cfg (err e) = ([], some e)
  with_cache cfg (ok (in_memory c)) = serve cfg
  with_cache cfg (ok (in_redis c)) = first connect_redis (deferred close_redis (serve cfg))

  abbrev pub with_store : Config F → Option Error → Ran
  with_store cfg (some e) = ([], some e)
  with_store cfg none =
      first (open_db (open_store cfg)) (deferred close_db (with_cache cfg (o.cache cfg)))

  abbrev pub with_logger : Config F → Option Error → Ran
  with_logger cfg (some e) = ([], some e)
  with_logger cfg none =
      deferred sync_log (deferred stop (with_store cfg (o.database (open_store cfg))))

  unfoldable pub run : Ran
  unfolding new_logger open_store pipeline_options pprof_refusal
  run = elim o.loaded [
    | err e ↦ ([], some e)
    | ok cfg ↦ with_logger cfg (new_logger o.build_logger cfg.log_format)
  ]

  -- The exit code of `main`.
  unfoldable pub main : ℕ
  unfolding run
  main = elim run.1 [ none ↦ 0 | some e ↦ 1 ]
