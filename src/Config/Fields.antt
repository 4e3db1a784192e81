-- ===== src/Config/Fields.antt =====
-- internal/config/config.go: the settings' names, `Config`, and Viper, which is not the repository's,
-- as an interface.
use invoice_ocr_poc.Base.{Bool, String, Int64}
use invoice_ocr_poc.Errors.{Result}
use invoice_ocr_poc.Strings.{Text}

pub data Key : Type 0 where
  key_port key_sqlite_path key_upload_dir key_max_upload_bytes key_worker_count key_job_queue_size
        key_prep_workers key_ocr_workers key_jev_workers key_ingest_buffer key_ocr_buffer
        key_jev_buffer key_job_timeout key_shutdown_timeout key_tesseract_lang key_typesafe_api_key
        key_typesafe_base_url key_typesafe_timeout key_openrouter_api_key key_openrouter_base_url
        key_openrouter_model key_openrouter_timeout key_openrouter_ocr_model key_ocr_engine
        key_ollama_url key_ollama_ocr_model key_ollama_timeout key_log_format key_ocr_min_confidence
        key_worker_count_local key_worker_count_api key_ocr_timeout key_assist_timeout
        key_jev_timeout key_debug_pprof key_debug_pprof_addr key_ocr_cache_enabled key_ocr_cache_ttl
        key_db_backend key_pg_host key_pg_port key_pg_user key_pg_password key_pg_dbname
        key_pg_sslmode key_pg_max_open_conns key_pg_max_idle_conns key_pg_conn_max_lifetime
        key_pg_sync_commit key_cache_backend key_redis_addr key_redis_password key_redis_db
        key_redis_pool_size :
      Key

unfoldable pub key_name : Key → String
key_name key_port = "PORT"
key_name key_sqlite_path = "SQLITE_PATH"
key_name key_upload_dir = "UPLOAD_DIR"
key_name key_max_upload_bytes = "MAX_UPLOAD_BYTES"
key_name key_worker_count = "WORKER_COUNT"
key_name key_job_queue_size = "JOB_QUEUE_SIZE"
key_name key_prep_workers = "PREP_WORKERS"
key_name key_ocr_workers = "OCR_WORKERS"
key_name key_jev_workers = "JEV_WORKERS"
key_name key_ingest_buffer = "INGEST_BUFFER"
key_name key_ocr_buffer = "OCR_BUFFER"
key_name key_jev_buffer = "JEV_BUFFER"
key_name key_job_timeout = "JOB_TIMEOUT"
key_name key_shutdown_timeout = "SHUTDOWN_TIMEOUT"
key_name key_tesseract_lang = "TESSERACT_LANG"
key_name key_typesafe_api_key = "TYPESAFE_API_KEY"
key_name key_typesafe_base_url = "TYPESAFE_BASE_URL"
key_name key_typesafe_timeout = "TYPESAFE_TIMEOUT"
key_name key_openrouter_api_key = "OPENROUTER_API_KEY"
key_name key_openrouter_base_url = "OPENROUTER_BASE_URL"
key_name key_openrouter_model = "OPENROUTER_MODEL"
key_name key_openrouter_timeout = "OPENROUTER_TIMEOUT"
key_name key_openrouter_ocr_model = "OPENROUTER_OCR_MODEL"
key_name key_ocr_engine = "OCR_ENGINE"
key_name key_ollama_url = "OLLAMA_URL"
key_name key_ollama_ocr_model = "OLLAMA_OCR_MODEL"
key_name key_ollama_timeout = "OLLAMA_TIMEOUT"
key_name key_log_format = "LOG_FORMAT"
key_name key_ocr_min_confidence = "OCR_MIN_CONFIDENCE"
key_name key_worker_count_local = "WORKER_COUNT_LOCAL"
key_name key_worker_count_api = "WORKER_COUNT_API"
key_name key_ocr_timeout = "OCR_TIMEOUT"
key_name key_assist_timeout = "ASSIST_TIMEOUT"
key_name key_jev_timeout = "JEV_TIMEOUT"
key_name key_debug_pprof = "DEBUG_PPROF"
key_name key_debug_pprof_addr = "DEBUG_PPROF_ADDR"
key_name key_ocr_cache_enabled = "OCR_CACHE_ENABLED"
key_name key_ocr_cache_ttl = "OCR_CACHE_TTL"
key_name key_db_backend = "DB_BACKEND"
key_name key_pg_host = "PG_HOST"
key_name key_pg_port = "PG_PORT"
key_name key_pg_user = "PG_USER"
key_name key_pg_password = "PG_PASSWORD"
key_name key_pg_dbname = "PG_DBNAME"
key_name key_pg_sslmode = "PG_SSLMODE"
key_name key_pg_max_open_conns = "PG_MAX_OPEN_CONNS"
key_name key_pg_max_idle_conns = "PG_MAX_IDLE_CONNS"
key_name key_pg_conn_max_lifetime = "PG_CONN_MAX_LIFETIME"
key_name key_pg_sync_commit = "PG_SYNC_COMMIT"
key_name key_cache_backend = "CACHE_BACKEND"
key_name key_redis_addr = "REDIS_ADDR"
key_name key_redis_password = "REDIS_PASSWORD"
key_name key_redis_db = "REDIS_DB"
key_name key_redis_pool_size = "REDIS_POOL_SIZE"

-- `Config`.
pub record Config (F : Type 0) : Type 0 where
  pub port : Text
  pub sqlite_path : Text
  pub upload_dir : Text
  pub max_upload_bytes : Int64
  pub worker_count : Int64
  pub job_queue_size : Int64
  pub prep_workers : Int64
  pub ocr_workers : Int64
  pub jev_workers : Int64
  pub ingest_buffer : Int64
  pub ocr_buffer : Int64
  pub jev_buffer : Int64
  pub job_timeout : Int64
  pub shutdown_timeout : Int64
  pub tesseract_lang : Text
  pub typesafe_api_key : Text
  pub typesafe_base_url : Text
  pub typesafe_timeout : Int64
  pub openrouter_api_key : Text
  pub openrouter_base_url : Text
  pub openrouter_model : Text
  pub openrouter_timeout : Int64
  pub openrouter_ocr_model : Text
  pub ocr_engine : Text
  pub ollama_url : Text
  pub ollama_ocr_model : Text
  pub ollama_timeout : Int64
  pub log_format : Text
  pub ocr_min_confidence : F
  pub worker_count_local : Int64
  pub worker_count_api : Int64
  pub ocr_timeout : Int64
  pub assist_timeout : Int64
  pub jev_timeout : Int64
  pub debug_pprof : Bool
  pub debug_pprof_addr : Text
  pub ocr_cache_enabled : Bool
  pub ocr_cache_ttl : Int64
  pub db_backend : Text
  pub pg_host : Text
  pub pg_port : Int64
  pub pg_user : Text
  pub pg_password : Text
  pub pg_dbname : Text
  pub pg_sslmode : Text
  pub pg_max_open_conns : Int64
  pub pg_max_idle_conns : Int64
  pub pg_conn_max_lifetime : Int64
  pub pg_sync_commit : Text
  pub cache_backend : Text
  pub redis_addr : Text
  pub redis_password : Text
  pub redis_db : Int64
  pub redis_pool_size : Int64

-- The value of a default.
pub data Value (F : Type 0) : Type 0 where
  text : String → Value F
  int : Int64 → Value F
  duration : Int64 → Value F
  flag : Bool → Value F
  float : F → Value F

-- `viper.Viper`: `fresh` is the state behind `New`, `SetConfigType("env")` and `AutomaticEnv`, and
-- `merge_in_config` is `SetConfigFile` and `MergeInConfig`.
pub record Viper (F V : Type 0) : Type 0 where
  pub fresh : V
  pub bind_env : V → Key → Result V
  pub set_default : V → Key → Value F → V
  pub merge_in_config : V → String → Result V
  pub is_set : V → Key → Bool
  pub get_string : V → Key → Text
  pub get_int : V → Key → Int64
  pub get_duration : V → Key → Int64
  pub get_float : V → Key → F
  pub get_bool : V → Key → Bool
