-- ===== src/Tests/Program.antt =====
-- The program on a host that answers, with a database and a cache that open and a wait that a signal ends.
use invoice_ocr_poc.Base.{ℕ, true, none, some, [], ◌≡◌, ◌↔◌, refl}
use invoice_ocr_poc.Errors.{ok}
use invoice_ocr_poc.Float.{Micros, micros_float}
use invoice_ocr_poc.Strings.{codes}
use invoice_ocr_poc.Config.Fields.{Config}
use invoice_ocr_poc.Config.Validate.{load}
use invoice_ocr_poc.Config.Validate.Ranges.{IsValid}
use invoice_ocr_poc.Cache.Redis.{Server, Codec}
use invoice_ocr_poc.Program.Backends.{open_cache}
use invoice_ocr_poc.Program.Run.{main, run}
use invoice_ocr_poc.Program.Run.Exit.{IsClean, main-IsClean}
use invoice_ocr_poc.Program.Run.Guarded.{Host, program, IsLocal, main-IsValid}
use invoice_ocr_poc.Tests.Settings.{viper, format, no_files}
use invoice_ocr_poc.Tests.Store.{entry}

abbrev redis : Server ℕ
redis = record {
  ping = λ r. none;
  get = λ now key r. ok [];
  set = λ now key bytes ttl r. (r, none);
  count = λ prefix r. 0;
}

abbrev codec : Codec Micros
codec = record { marshal = λ e. ok []; unmarshal = λ bytes. ok entry }

abbrev host : Host Micros (Unit {0}) ℕ
host = record {
  viper = viper;
  format = format;
  files = no_files;
  api = redis;
  codec = codec;
  hash = λ text. "c0";
  connect = λ options. 0;
  build_logger = λ production. none;
  database = λ db. none;
  hosts = record { split_host_port = λ addr. ok (codes "localhost"); loopback = λ text. some true };
  shown = λ addr. "localhost:6060";
  ended = none;
}

main-IsClean_example :
    (main (program host) ≡ 0)
    ↔ ((cfg : Config Micros) × (load viper format no_files ≡ ok cfg) × IsClean (program host) cfg)
main-IsClean_example = main-IsClean (program host)

main-IsValid_example :
    (cfg : Config Micros) × (load viper format no_files ≡ ok cfg) × IsValid cfg × IsLocal host cfg
unfolding main run load open_cache
main-IsValid_example = main-IsValid host refl
