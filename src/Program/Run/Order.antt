-- ===== src/Program/Run/Order.antt =====
-- The order in which `run` of cmd/api/main.go starts its parts and ends them, on every path.
use invoice_ocr_poc.Base.{
  Bool, true, false, not, ◌&&◌, Option, none, some, List, [], ◌∷◌, ◌≡◌, ◌⊎◌, if◌then◌else◌,
}
use invoice_ocr_poc.Errors.{Error}
use invoice_ocr_poc.Config.Fields.{Config}
use invoice_ocr_poc.Program.Backends.{pprof_refusal}
use invoice_ocr_poc.Program.Run.{
  Action, open_db, connect_redis, start_http, shut_http, start_pprof, shut_pprof, close_redis,
  close_db, stop, sync_log, start_pipeline, shut_pipeline, Ran, Outside,
}

-- Which parts are up.
pub record Parts : Type 0 where
  pub db : Bool
  pub redis : Bool
  pub pipeline : Bool
  pub http : Bool
  pub pprof : Bool

abbrev pub all_down : Parts
all_down = record { db = false; redis = false; pipeline = false; http = false; pprof = false }

abbrev only_if : Bool → Parts → Option Parts
only_if b p = if b then some p else none

-- An action where it belongs, or nothing: a part is started once, and ended only while it is up. The
-- pipeline starts on an open database, and the server on a running pipeline. The database and the cache
-- are closed behind the pipeline.
unfoldable pub act : Action → Parts → Option Parts
act (open_db db) p = only_if (not p.db) (record p { db = true })
act connect_redis p = only_if (not p.redis && p.db) (record p { redis = true })
act (start_pipeline opts) p = only_if (not p.pipeline && p.db) (record p { pipeline = true })
act start_http p = only_if (not p.http && p.pipeline) (record p { http = true })
act start_pprof p = only_if (not p.pprof) (record p { pprof = true })
act shut_http p = only_if p.http (record p { http = false })
act shut_pprof p = only_if p.pprof (record p { pprof = false })
act (shut_pipeline timeout) p = only_if p.pipeline (record p { pipeline = false })
act close_redis p = only_if (p.redis && not p.pipeline) (record p { redis = false })
act close_db p = only_if (p.db && not p.pipeline && not p.redis) (record p { db = false })
act stop p = some p
act sync_log p = only_if (not p.db) p

unfoldable pub replay : List Action → Parts → Option Parts
unfolding act
replay [] p = some p
replay (a ∷ rest) p = elim (act a p) [ none ↦ none | some q ↦ replay rest q ]

abbrev bind_parts : Option Parts → (Parts → Option Parts) → Option Parts
bind_parts none f = none
bind_parts (some p) f = f p

-- The database is open, and the cache of Redis is connected or not.
abbrev open_parts : Bool → Parts
open_parts redis = record all_down { db = true; redis = redis }

module _ {F R : Type 0} (o : Outside F R) where
  -- The profiler is wanted and refused.
  abbrev pub IsRefused : Config F → Error → Type 0
  IsRefused cfg e =
      (cfg.debug_pprof ≡ true)
      × (pprof_refusal o.hosts (o.shown cfg.debug_pprof_addr) cfg.debug_pprof_addr ≡ some e)

  -- A trace ends with the parts that were up before it, or, if the profiler was refused, with the server
  -- as well.
  abbrev pub Restores : Config F → Parts → Ran → Type 0
  Restores cfg p r =
      (replay r.0 p ≡ some p)
      ⊎ ((e : Error) × IsRefused cfg e
          × (r.1 ≡ some e)
          × (replay r.0 p ≡ some (record p { http = true })))
