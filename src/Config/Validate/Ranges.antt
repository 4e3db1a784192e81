-- ===== src/Config/Validate/Ranges.antt =====
-- The settings that the checks of `Load` in internal/config/config.go are meant to let through.
use invoice_ocr_poc.Base.{
  true, false, not, none, List, [], ◌∷◌, Int64, is_pos, is_empty, ◌≡◌, ◌≢◌, ◌<◌, ◌≤◌, ◌^◌, ◌⊎◌, ◌↔◌,
  All, arith, String,
}
use invoice_ocr_poc.Float.{Float, nought}
use invoice_ocr_poc.Strings.{Text, codes, same_text_iff}
use invoice_ocr_poc.Config.Fields.{Config}
use invoice_ocr_poc.Config.Validate.{Check, refusal, one_of}

abbrev pub IsPositive : Int64 → Type 0
IsPositive n = (0 < n) × (n < 2 ^ 63)

abbrev pub IsOneOf : Text → List String → Type 0
IsOneOf s [] = ⊥
IsOneOf s (choice ∷ rest) = (s ≡ codes choice) ⊎ IsOneOf s rest

-- The numbers and the times that must be positive.
abbrev pub amounts : {F : Type 0} → Config F → List Int64
amounts c =
    c.max_upload_bytes ∷ c.worker_count ∷ c.job_queue_size ∷ c.prep_workers ∷ c.ocr_workers
    ∷ c.jev_workers ∷ c.ingest_buffer ∷ c.ocr_buffer ∷ c.jev_buffer ∷ c.job_timeout
    ∷ c.shutdown_timeout ∷ c.typesafe_timeout ∷ c.openrouter_timeout ∷ c.ollama_timeout
    ∷ c.worker_count_local ∷ c.worker_count_api ∷ c.ocr_timeout ∷ c.assist_timeout ∷ c.jev_timeout
    ∷ []

abbrev pub IsPostgres : {F : Type 0} → Config F → Type 0
IsPostgres c =
    (c.pg_host ≢ [])
    × (IsPositive c.pg_port × (c.pg_port ≤ 65535))
    × (c.pg_user ≢ [])
    × (c.pg_dbname ≢ [])
    × IsOneOf c.pg_sync_commit ("off" ∷ "local" ∷ "remote_write" ∷ "on" ∷ [])

abbrev pub IsRedis : {F : Type 0} → Config F → Type 0
IsRedis c = (c.redis_addr ≢ []) × (c.redis_db ≤ 15) × IsPositive c.redis_pool_size

-- A setting is in its range, and a backend's settings are if it is the chosen one.
pub record IsValid {F : Type 0} ⦃d : Float F⦄ (c : Config F) : Type 0 where
  pub positive : All IsPositive (amounts c)
  pub confident :
      (d.lt c.ocr_min_confidence nought ≡ false)
      × (d.lt (d.decimal 1 1) c.ocr_min_confidence ≡ false)
  pub addressed : c.debug_pprof_addr ≢ []
  pub logged : IsOneOf c.log_format ("text" ∷ "json" ∷ [])
  pub stored : (c.db_backend ≡ codes "sqlite") ⊎ ((c.db_backend ≡ codes "postgres") × IsPostgres c)
  pub cached : (c.cache_backend ≡ codes "memory") ⊎ ((c.cache_backend ≡ codes "redis") × IsRedis c)

abbrev pub Passes : Check → Type 0
Passes check = check.0 ≡ false

pub refusal-none : (gs : List Check) → (refusal gs ≡ none) ↔ All Passes gs
unfolding refusal
refusal-none [] = ground arith
refusal-none ((true, e) ∷ rest) = ground arith
refusal-none ((false, e) ∷ rest) = ground (arith, refusal-none rest)

pub not-is_pos : (n : Int64) → (not (is_pos n) ≡ false) ↔ IsPositive n
not-is_pos n = ground arith

pub not-one_of :
    (s : Text) (choices : List String) → (not (one_of s choices) ≡ false) ↔ IsOneOf s choices
not-one_of s [] = ground arith
not-one_of s (choice ∷ rest) = ground (arith, same_text_iff s (codes choice), not-one_of s rest)

pub filled {ℓ} : {A : Type ℓ} (xs : List A) → (is_empty xs ≡ false) ↔ (xs ≢ [])
filled [] = ground arith
filled (x ∷ xs) = ground arith
