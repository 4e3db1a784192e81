-- ===== src/Config/Load.antt =====
-- internal/config/config.go: `Load` up to its checks, with the file system and Viper as parameters.
use Prim.Native.String.{◌++◌}
use invoice_ocr_poc.Base.{
  true, false, ◌&&◌, Option, none, some, List, [], ◌∷◌, String, Int64, is_pos, if◌then◌else◌,
}
use invoice_ocr_poc.Errors.{Result, ok, err, wrap}
use invoice_ocr_poc.Float.{Float}
use invoice_ocr_poc.Strings.{Text, trim_space, to_lower}
use invoice_ocr_poc.Config.Fields.{
  Key, key_name, Config, Value, text, int, duration, flag, float, Viper, key_port, key_sqlite_path,
  key_upload_dir, key_max_upload_bytes, key_worker_count, key_job_queue_size, key_prep_workers,
  key_ocr_workers, key_jev_workers, key_ingest_buffer, key_ocr_buffer, key_jev_buffer,
  key_job_timeout, key_shutdown_timeout, key_tesseract_lang, key_typesafe_api_key,
  key_typesafe_base_url, key_typesafe_timeout, key_openrouter_api_key, key_openrouter_base_url,
  key_openrouter_model, key_openrouter_timeout, key_openrouter_ocr_model, key_ocr_engine,
  key_ollama_url, key_ollama_ocr_model, key_ollama_timeout, key_log_format, key_ocr_min_confidence,
  key_worker_count_local, key_worker_count_api, key_ocr_timeout, key_assist_timeout,
  key_jev_timeout, key_debug_pprof, key_debug_pprof_addr, key_ocr_cache_enabled, key_ocr_cache_ttl,
  key_db_backend, key_pg_host, key_pg_port, key_pg_user, key_pg_password, key_pg_dbname,
  key_pg_sslmode, key_pg_max_open_conns, key_pg_max_idle_conns, key_pg_conn_max_lifetime,
  key_pg_sync_commit, key_cache_backend, key_redis_addr, key_redis_password, key_redis_db,
  key_redis_pool_size,
}
use invoice_ocr_poc.Config.Dotenv.{Files, resolve_api_key}

-- The keys that `Load` binds to the environment.
abbrev pub keys : List Key
keys =
    key_port ∷ key_sqlite_path ∷ key_upload_dir ∷ key_max_upload_bytes ∷ key_worker_count
    ∷ key_job_queue_size ∷ key_prep_workers ∷ key_ocr_workers ∷ key_jev_workers ∷ key_ingest_buffer
    ∷ key_ocr_buffer ∷ key_jev_buffer ∷ key_job_timeout ∷ key_shutdown_timeout ∷ key_tesseract_lang
    ∷ key_typesafe_api_key ∷ key_typesafe_base_url ∷ key_typesafe_timeout ∷ key_openrouter_api_key
    ∷ key_openrouter_base_url ∷ key_openrouter_model ∷ key_openrouter_timeout
    ∷ key_openrouter_ocr_model ∷ key_ocr_engine ∷ key_ollama_url ∷ key_ollama_ocr_model
    ∷ key_ollama_timeout ∷ key_log_format ∷ key_ocr_min_confidence ∷ key_worker_count_local
    ∷ key_worker_count_api ∷ key_ocr_timeout ∷ key_assist_timeout ∷ key_jev_timeout
    ∷ key_debug_pprof ∷ key_debug_pprof_addr ∷ key_ocr_cache_enabled ∷ key_ocr_cache_ttl
    ∷ key_db_backend ∷ key_pg_host ∷ key_pg_port ∷ key_pg_user ∷ key_pg_password ∷ key_pg_dbname
    ∷ key_pg_sslmode ∷ key_pg_max_open_conns ∷ key_pg_max_idle_conns ∷ key_pg_conn_max_lifetime
    ∷ key_pg_sync_commit ∷ key_cache_backend ∷ key_redis_addr ∷ key_redis_password ∷ key_redis_db
    ∷ key_redis_pool_size ∷ []

module _ {F V : Type 0} ⦃d : Float F⦄ (w : Viper F V) where
  unfoldable pub bind_all : List Key → V → Result V
  unfolding key_name
  bind_all [] v = ok v
  bind_all (key ∷ rest) v = elim (w.bind_env v key) [
    | ok bound ↦ bind_all rest bound
    | err e ↦ err (wrap ("bind env " ++ key_name key) e)
  ]

  abbrev pub defaults : List (Key × Value F)
  defaults =
      (key_port, text "8080")
      ∷ (key_sqlite_path, text "data/poc.db")
      ∷ (key_upload_dir, text "uploads")
      ∷ (key_max_upload_bytes, int 8388608)
      ∷ (key_worker_count, int 2)
      ∷ (key_job_queue_size, int 32)
      ∷ (key_prep_workers, int 1)
      ∷ (key_ocr_workers, int 2)
      ∷ (key_jev_workers, int 2)
      ∷ (key_ocr_min_confidence, float (d.decimal 75 100))
      ∷ (key_debug_pprof, flag false)
      ∷ (key_debug_pprof_addr, text "127.0.0.1:6060")
      ∷ (key_ocr_cache_enabled, flag true)
      ∷ (key_ocr_cache_ttl, duration 3600000000000)
      ∷ (key_ingest_buffer, int 16)
      ∷ (key_ocr_buffer, int 8)
      ∷ (key_jev_buffer, int 8)
      ∷ (key_job_timeout, duration 90000000000)
      ∷ (key_shutdown_timeout, duration 15000000000)
      ∷ (key_tesseract_lang, text "por+eng")
      ∷ (key_typesafe_base_url, text "https://api.typesafe.ai")
      ∷ (key_typesafe_timeout, duration 30000000000)
      ∷ (key_openrouter_base_url, text "https://openrouter.ai/api/v1")
      ∷ (key_openrouter_model, text "deepseek/deepseek-v4-flash")
      ∷ (key_openrouter_timeout, duration 45000000000)
      ∷ (key_openrouter_ocr_model, text "google/gemini-2.5-flash")
      ∷ (key_ocr_engine, text "openrouter")
      ∷ (key_ollama_url, text "http://127.0.0.1:11434")
      ∷ (key_ollama_ocr_model, text "glm-ocr:latest")
      ∷ (key_ollama_timeout, duration 120000000000)
      ∷ (key_log_format, text "text")
      ∷ (key_db_backend, text "sqlite")
      ∷ (key_pg_host, text "localhost")
      ∷ (key_pg_port, int 5432)
      ∷ (key_pg_user, text "postgres")
      ∷ (key_pg_password, text "")
      ∷ (key_pg_dbname, text "invoice_ocr")
      ∷ (key_pg_sslmode, text "disable")
      ∷ (key_pg_max_open_conns, int 25)
      ∷ (key_pg_max_idle_conns, int 10)
      ∷ (key_pg_conn_max_lifetime, duration 3600000000000)
      ∷ (key_pg_sync_commit, text "off")
      ∷ (key_cache_backend, text "memory")
      ∷ (key_redis_addr, text "localhost:6379")
      ∷ (key_redis_password, text "")
      ∷ (key_redis_db, int 0)
      ∷ (key_redis_pool_size, int 10)
      ∷ []

  unfoldable pub set_defaults : List (Key × Value F) → V → V
  set_defaults [] v = v
  set_defaults ((key, val) ∷ rest) v = set_defaults rest (w.set_default v key val)

  unfoldable pub resolve_worker_count : V → Key → Key → Int64
  resolve_worker_count v primary fallback =
      if w.is_set v primary && is_pos (w.get_int v primary)
      then w.get_int v primary
      else w.get_int v fallback

  unfoldable pub resolve_duration : V → Key → Key → Int64
  resolve_duration v primary fallback =
      if w.is_set v primary && is_pos (w.get_duration v primary)
      then w.get_duration v primary
      else w.get_duration v fallback

  -- The first file that is there, from a list of paths; `mergeDotEnv` tries ".env" and "configs/.env".
  unfoldable pub merge_from : Files → List String → V → Result (String × V)
  merge_from fs [] v = ok ("", v)
  merge_from fs (path ∷ rest) v = elim (fs.stat path) [
    | some e ↦ if fs.is_not_exist e then merge_from fs rest v else err (wrap ("stat " ++ path) e)
    | none ↦ elim (w.merge_in_config v path) [
      | err e ↦ err (wrap ("read " ++ path) e)
      | ok merged ↦ ok (path, merged)
    ]
  ]

  unfoldable pub merge_dot_env : Files → V → Result (String × V)
  unfolding merge_from
  merge_dot_env fs = merge_from fs (".env" ∷ "configs/.env" ∷ [])

  -- The fields of `Config`, from the keys of the file and from Viper.
  unfoldable pub read_config : Option Text → Option Text → V → Config F
  unfolding resolve_worker_count resolve_duration resolve_api_key trim_space to_lower
  read_config file_key openrouter_key v = record {
    port = trim_space (w.get_string v key_port);
    sqlite_path = trim_space (w.get_string v key_sqlite_path);
    upload_dir = trim_space (w.get_string v key_upload_dir);
    max_upload_bytes = w.get_int v key_max_upload_bytes;
    worker_count = w.get_int v key_worker_count;
    job_queue_size = w.get_int v key_job_queue_size;
    prep_workers = w.get_int v key_prep_workers;
    ocr_workers = w.get_int v key_ocr_workers;
    jev_workers = w.get_int v key_jev_workers;
    ingest_buffer = w.get_int v key_ingest_buffer;
    ocr_buffer = w.get_int v key_ocr_buffer;
    jev_buffer = w.get_int v key_jev_buffer;
    job_timeout = w.get_duration v key_job_timeout;
    shutdown_timeout = w.get_duration v key_shutdown_timeout;
    tesseract_lang = trim_space (w.get_string v key_tesseract_lang);
    typesafe_api_key = resolve_api_key file_key (w.get_string v key_typesafe_api_key);
    typesafe_base_url = trim_space (w.get_string v key_typesafe_base_url);
    typesafe_timeout = w.get_duration v key_typesafe_timeout;
    openrouter_api_key = resolve_api_key openrouter_key (w.get_string v key_openrouter_api_key);
    openrouter_base_url = trim_space (w.get_string v key_openrouter_base_url);
    openrouter_model = trim_space (w.get_string v key_openrouter_model);
    openrouter_timeout = w.get_duration v key_openrouter_timeout;
    openrouter_ocr_model = trim_space (w.get_string v key_openrouter_ocr_model);
    ocr_engine = trim_space (w.get_string v key_ocr_engine);
    ollama_url = trim_space (w.get_string v key_ollama_url);
    ollama_ocr_model = trim_space (w.get_string v key_ollama_ocr_model);
    ollama_timeout = w.get_duration v key_ollama_timeout;
    log_format = to_lower (trim_space (w.get_string v key_log_format));
    ocr_min_confidence = w.get_float v key_ocr_min_confidence;
    worker_count_local = resolve_worker_count v key_worker_count_local key_ocr_workers;
    worker_count_api = resolve_worker_count v key_worker_count_api key_jev_workers;
    ocr_timeout = resolve_duration v key_ocr_timeout key_ollama_timeout;
    assist_timeout = resolve_duration v key_assist_timeout key_openrouter_timeout;
    jev_timeout = resolve_duration v key_jev_timeout key_typesafe_timeout;
    debug_pprof = w.get_bool v key_debug_pprof;
    debug_pprof_addr = trim_space (w.get_string v key_debug_pprof_addr);
    ocr_cache_enabled = w.get_bool v key_ocr_cache_enabled;
    ocr_cache_ttl = w.get_duration v key_ocr_cache_ttl;
    db_backend = to_lower (trim_space (w.get_string v key_db_backend));
    pg_host = trim_space (w.get_string v key_pg_host);
    pg_port = w.get_int v key_pg_port;
    pg_user = trim_space (w.get_string v key_pg_user);
    pg_password = w.get_string v key_pg_password;
    pg_dbname = trim_space (w.get_string v key_pg_dbname);
    pg_sslmode = trim_space (w.get_string v key_pg_sslmode);
    pg_max_open_conns = w.get_int v key_pg_max_open_conns;
    pg_max_idle_conns = w.get_int v key_pg_max_idle_conns;
    pg_conn_max_lifetime = w.get_duration v key_pg_conn_max_lifetime;
    pg_sync_commit = to_lower (trim_space (w.get_string v key_pg_sync_commit));
    cache_backend = to_lower (trim_space (w.get_string v key_cache_backend));
    redis_addr = trim_space (w.get_string v key_redis_addr);
    redis_password = w.get_string v key_redis_password;
    redis_db = w.get_int v key_redis_db;
    redis_pool_size = w.get_int v key_redis_pool_size;
  }
