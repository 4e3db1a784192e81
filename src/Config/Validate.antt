-- ===== src/Config/Validate.antt =====
-- internal/config/config.go: the checks at the end of `Load`, and `Load` as a whole.
pub mod Ranges
pub mod Equivalence
use Prim.Native.String.{◌++◌}
use invoice_ocr_poc.Base.{
  Bool, true, false, not, ◌||◌, Option, none, some, List, [], ◌∷◌, ◌++◌ as cat, String, Int64,
  is_pos, is_neg, is_empty, if◌then◌else◌, ltb,
}
use invoice_ocr_poc.Errors.{Error, other, Result, ok, err}
use invoice_ocr_poc.Float.{Float, nought}
use invoice_ocr_poc.Strings.{Text, codes, same_text}
use invoice_ocr_poc.Config.Fields.{
  Key, Config, Viper, key_assist_timeout, key_cache_backend, key_db_backend, key_debug_pprof_addr,
  key_ingest_buffer, key_jev_buffer, key_jev_timeout, key_jev_workers, key_job_queue_size,
  key_job_timeout, key_log_format, key_max_upload_bytes, key_name, key_ocr_buffer,
  key_ocr_min_confidence, key_ocr_timeout, key_ocr_workers, key_ollama_timeout,
  key_openrouter_timeout, key_pg_port, key_pg_sync_commit, key_prep_workers, key_redis_db,
  key_redis_pool_size, key_shutdown_timeout, key_typesafe_timeout, key_worker_count,
  key_worker_count_api, key_worker_count_local,
}
use invoice_ocr_poc.Config.Dotenv.{Files, dotenv_value}
use invoice_ocr_poc.Config.Load.{keys, bind_all, defaults, set_defaults, merge_dot_env, read_config}

-- The verbs `%d`, `%v` and `%s` of the messages.
pub record Format (F : Type 0) : Type 0 where
  pub decimal : Int64 → String
  pub value : F → String
  pub plain : Text → String

abbrev pub invalid : Key → String → Error
invalid key shown = other ("invalid " ++ key_name key ++ ": " ++ shown)

abbrev pub one_of : Text → List String → Bool
one_of s [] = false
one_of s (choice ∷ rest) = same_text s (codes choice) || one_of s rest

-- A check: the condition that refuses the settings, and the error that says so.
abbrev pub Check : Type 0
Check = Bool × Error

-- The first check that refuses.
unfoldable pub refusal : List Check → Option Error
refusal [] = none
refusal ((bad, e) ∷ rest) = if bad then some e else refusal rest

abbrev pub accept {ℓ} : {A : Type ℓ} → Option Error → A → Result A
accept none a = ok a
accept (some e) a = err e

-- The checks that stand under an `if`.
abbrev pub only_if : Bool → List Check → List Check
only_if true checks = checks
only_if false checks = []

module _ {F V : Type 0} ⦃d : Float F⦄ (w : Viper F V) (fm : Format F) where
  -- Those up to `JEV_TIMEOUT`, which are about numbers and times.
  abbrev pub number_checks : V → Config F → List Check
  number_checks v c =
      (
        not (is_pos c.max_upload_bytes),
        invalid key_max_upload_bytes (fm.decimal c.max_upload_bytes),
      )
      ∷ (not (is_pos c.worker_count), invalid key_worker_count (fm.decimal c.worker_count))
      ∷ (not (is_pos c.job_queue_size), invalid key_job_queue_size (fm.decimal c.job_queue_size))
      ∷ (not (is_pos c.prep_workers), invalid key_prep_workers (fm.decimal c.prep_workers))
      ∷ (not (is_pos c.ocr_workers), invalid key_ocr_workers (fm.decimal c.ocr_workers))
      ∷ (not (is_pos c.jev_workers), invalid key_jev_workers (fm.decimal c.jev_workers))
      ∷ (not (is_pos c.ingest_buffer), invalid key_ingest_buffer (fm.decimal c.ingest_buffer))
      ∷ (not (is_pos c.ocr_buffer), invalid key_ocr_buffer (fm.decimal c.ocr_buffer))
      ∷ (not (is_pos c.jev_buffer), invalid key_jev_buffer (fm.decimal c.jev_buffer))
      ∷ (
        not (is_pos c.job_timeout),
        invalid key_job_timeout (fm.plain (w.get_string v key_job_timeout)),
      )
      ∷ (
        not (is_pos c.shutdown_timeout),
        invalid key_shutdown_timeout (fm.plain (w.get_string v key_shutdown_timeout)),
      )
      ∷ (
        not (is_pos c.typesafe_timeout),
        invalid key_typesafe_timeout (fm.plain (w.get_string v key_typesafe_timeout)),
      )
      ∷ (
        not (is_pos c.openrouter_timeout),
        invalid key_openrouter_timeout (fm.plain (w.get_string v key_openrouter_timeout)),
      )
      ∷ (
        not (is_pos c.ollama_timeout),
        invalid key_ollama_timeout (fm.plain (w.get_string v key_ollama_timeout)),
      )
      ∷ (
        d.lt c.ocr_min_confidence nought || d.lt (d.decimal 1 1) c.ocr_min_confidence,
        invalid key_ocr_min_confidence (fm.value c.ocr_min_confidence),
      )
      ∷ (
        not (is_pos c.worker_count_local),
        invalid key_worker_count_local (fm.decimal c.worker_count_local),
      )
      ∷ (
        not (is_pos c.worker_count_api),
        invalid key_worker_count_api (fm.decimal c.worker_count_api),
      )
      ∷ (
        not (is_pos c.ocr_timeout),
        invalid key_ocr_timeout (fm.plain (w.get_string v key_ocr_timeout)),
      )
      ∷ (
        not (is_pos c.assist_timeout),
        invalid key_assist_timeout (fm.plain (w.get_string v key_assist_timeout)),
      )
      ∷ (
        not (is_pos c.jev_timeout),
        invalid key_jev_timeout (fm.plain (w.get_string v key_jev_timeout)),
      )
      ∷ []

  abbrev pub postgres_checks : Config F → List Check
  postgres_checks c =
      (is_empty c.pg_host, other "PG_HOST is required when DB_BACKEND=postgres")
      ∷ (not (is_pos c.pg_port) || ltb 65535 c.pg_port, invalid key_pg_port (fm.decimal c.pg_port))
      ∷ (is_empty c.pg_user, other "PG_USER is required when DB_BACKEND=postgres")
      ∷ (is_empty c.pg_dbname, other "PG_DBNAME is required when DB_BACKEND=postgres")
      ∷ (
        not (one_of c.pg_sync_commit ("off" ∷ "local" ∷ "remote_write" ∷ "on" ∷ [])),
        invalid key_pg_sync_commit (fm.plain c.pg_sync_commit),
      )
      ∷ []

  abbrev pub redis_checks : Config F → List Check
  redis_checks c =
      (is_empty c.redis_addr, other "REDIS_ADDR is required when CACHE_BACKEND=redis")
      ∷ (
        is_neg c.redis_db || ltb 15 c.redis_db,
        invalid key_redis_db (fm.decimal c.redis_db ++ " (must be 0-15)"),
      )
      ∷ (not (is_pos c.redis_pool_size), invalid key_redis_pool_size (fm.decimal c.redis_pool_size))
      ∷ []

  abbrev pub text_checks : Config F → List Check
  text_checks c =
      (is_empty c.debug_pprof_addr, invalid key_debug_pprof_addr "empty")
      ∷ (
        not (one_of c.log_format ("text" ∷ "json" ∷ [])),
        invalid key_log_format (fm.plain c.log_format),
      )
      ∷ (
        not (one_of c.db_backend ("sqlite" ∷ "postgres" ∷ [])),
        invalid key_db_backend (fm.plain c.db_backend ++ " (must be 'sqlite' or 'postgres')"),
      )
      ∷ []

  abbrev pub cache_checks : Config F → List Check
  cache_checks c =
      (
        not (one_of c.cache_backend ("memory" ∷ "redis" ∷ [])),
        invalid key_cache_backend (fm.plain c.cache_backend ++ " (must be 'memory' or 'redis')"),
      )
      ∷ []

  abbrev pub checks : V → Config F → List Check
  checks v c = cat (number_checks v c) (
      cat (text_checks c) (
        cat (only_if (same_text c.db_backend (codes "postgres")) (postgres_checks c)) (
          cat (cache_checks c)
            (only_if (same_text c.cache_backend (codes "redis")) (redis_checks c)))))

  unfoldable pub validate : V → Config F → Result (Config F)
  unfolding refusal
  validate v c = accept (refusal (checks v c)) c

  -- The fields are read and checked, behind `mergeDotEnv`.
  abbrev pub finish : Files → Result (String × V) → Result (Config F)
  finish fs (err e) = err e
  finish fs (ok (path, v)) = validate v (
      read_config w (dotenv_value fs path (codes "TYPESAFE_API_KEY"))
        (dotenv_value fs path (codes "OPENROUTER_API_KEY")) v)

  abbrev pub merge_onto_defaults : Files → Result V → Result (String × V)
  merge_onto_defaults fs (err e) = err e
  merge_onto_defaults fs (ok bound) = merge_dot_env w fs (set_defaults w (defaults w) bound)

  unfoldable pub load : Files → Result (Config F)
  unfolding bind_all set_defaults merge_dot_env read_config validate dotenv_value
  load fs = finish fs (merge_onto_defaults fs (bind_all w keys w.fresh))
