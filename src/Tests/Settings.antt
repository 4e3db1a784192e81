-- ===== src/Tests/Settings.antt =====
-- The settings of a server with Postgres and Redis, from a Viper that answers by the kind of a setting.
use invoice_ocr_poc.Base.{ℕ, true, none, some, ◌≡◌, ◌↔◌, refl}
use invoice_ocr_poc.Errors.{other, ok, err}
use invoice_ocr_poc.Float.{Micros, micros_float}
use invoice_ocr_poc.Strings.{
  Text, codes, trim_space, trim_by, trim_left_by, trim_right_by, is_space, to_lower, same_text,
  split,
}
use invoice_ocr_poc.Config.Fields.{
  Key, key_log_format, key_db_backend, key_cache_backend, key_pg_sync_commit,
  key_worker_count_local, Config, Viper,
}
use invoice_ocr_poc.Config.Dotenv.{Files, strip_quotes, find_value, dotenv_value, resolve_api_key}
use invoice_ocr_poc.Config.Load.{
  bind_all, set_defaults, merge_dot_env, merge_from, read_config, resolve_worker_count,
  resolve_duration,
}
use invoice_ocr_poc.Config.Validate.{Format, refusal, validate, load}
use invoice_ocr_poc.Config.Validate.Ranges.{IsValid}
use invoice_ocr_poc.Config.Validate.Equivalence.{validate-IsValid}
use invoice_ocr_poc.Program.Wiring.{pipeline_options, load-pipeline_options}
use invoice_ocr_poc.Worker.Pipeline.{apply_defaults}

abbrev text_setting : Key → Text
text_setting key_log_format = codes "json"
text_setting key_db_backend = codes "Postgres"
text_setting key_cache_backend = codes "redis "
text_setting key_pg_sync_commit = codes "on"
text_setting _ = codes "x"

-- A worker count that is not positive, which is passed over.
abbrev number_setting : Key → ℕ
number_setting key_worker_count_local = 0
number_setting _ = 3

abbrev pub viper : Viper Micros (Unit {0})
viper = record {
  fresh = tt;
  bind_env = λ v key. ok v;
  set_default = λ v key val. v;
  merge_in_config = λ v path. ok v;
  is_set = λ v key. true;
  get_string = λ v key. text_setting key;
  get_int = λ v key. number_setting key;
  get_duration = λ v key. 30000000000;
  get_float = λ v key. micros_float.decimal 75 100;
  get_bool = λ v key. true;
}

abbrev pub format : Format Micros
format = record { decimal = λ n. "n"; value = λ x. "x"; plain = λ s. "s" }

abbrev pub no_files : Files
no_files = record {
  stat = λ path. some (other "no such file");
  is_not_exist = λ e. true;
  read_file = λ path. err (other "no such file");
}

abbrev pub config : Config Micros
config = read_config viper none none tt

validate-IsValid_example : (validate viper format tt config ≡ ok config) ↔ IsValid config
validate-IsValid_example = validate-IsValid viper format tt config

load-pipeline_options_example : apply_defaults (pipeline_options config) ≡ record {
  prep_n = config.prep_workers;
  ocr_n = config.worker_count_local;
  jev_n = config.worker_count_api;
  ingest_buffer = config.ingest_buffer;
  ocr_buffer = config.ocr_buffer;
  jev_buffer = config.jev_buffer;
  job_timeout = config.job_timeout;
}
unfolding load bind_all set_defaults merge_dot_env merge_from read_config resolve_worker_count
    resolve_duration resolve_api_key validate refusal strip_quotes trim_space trim_by trim_left_by
    trim_right_by is_space to_lower same_text dotenv_value
load-pipeline_options_example = load-pipeline_options viper format no_files config refl

-- Quotes of either kind are taken off, a comment is passed over, and the first value counts.
found_key :
    find_value (codes "KEY") (split 10 (codes "# KEY=0\n OTHER=1\nKEY = 'abc'\nKEY=2"))
    ≡ some (codes "abc")
unfolding find_value split strip_quotes trim_space trim_by trim_left_by trim_right_by is_space
    same_text
found_key = refl
