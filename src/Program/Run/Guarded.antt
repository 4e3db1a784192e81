-- ===== src/Program/Run/Guarded.antt =====
-- What the parts of cmd/api/main.go and internal/config guarantee of a program that ran to a good end.
use invoice_ocr_poc.Base.{Bool, true, false, Option, some, ◌≡◌, ◌⊎◌, inl, inr, String}
use invoice_ocr_poc.Errors.{Error, ok}
use invoice_ocr_poc.Float.{Float}
use invoice_ocr_poc.Strings.{Text, codes}
use invoice_ocr_poc.Config.Fields.{Config, Viper}
use invoice_ocr_poc.Config.Dotenv.{Files}
use invoice_ocr_poc.Config.Validate.{Format, load}
use invoice_ocr_poc.Config.Validate.Ranges.{IsValid}
use invoice_ocr_poc.Cache.Redis.{Server, Codec, ClientOptions}
use invoice_ocr_poc.Program.Wiring.{load-IsValid}
use invoice_ocr_poc.Program.Backends.{Database, Hosts, open_cache, pprof_refusal-none}
use invoice_ocr_poc.Program.Run.{Outside, main}
use invoice_ocr_poc.Program.Run.Exit.{main-IsClean, PprofFine}

-- What `config.Load`, the server of Redis and the system answer.
pub record Host (F V R : Type 0) : Type 0 where
  pub viper : Viper F V
  pub format : Format F
  pub files : Files
  pub api : Server R
  pub codec : Codec F
  pub hash : Text → String
  pub connect : ClientOptions → R
  pub build_logger : Bool → Option Error
  pub database : Database → Option Error
  pub hosts : Hosts
  pub shown : Text → String
  pub ended : Option Error

module _ {F V R : Type 0} ⦃d : Float F⦄ (h : Host F V R) where
  -- `run` with its own settings and cache.
  abbrev pub program : Outside F R
  program = record {
    loaded = load h.viper h.format h.files;
    build_logger = h.build_logger;
    database = h.database;
    cache = open_cache h.api h.codec h.hash h.connect;
    hosts = h.hosts;
    shown = h.shown;
    ended = h.ended;
  }

  -- The profiler is off, or it is on an address of the loopback or on localhost.
  abbrev pub IsLocal : Config F → Type 0
  IsLocal cfg =
      (cfg.debug_pprof ≡ false)
      ⊎ ((host : Text) × (h.hosts.split_host_port cfg.debug_pprof_addr ≡ ok host)
          × ((h.hosts.loopback host ≡ some true) ⊎ (host ≡ codes "localhost")))

  fine-IsLocal : (cfg : Config F) → PprofFine program cfg → IsLocal cfg
  fine-IsLocal cfg (inl off) = inl off
  fine-IsLocal cfg (inr fine) =
      inr (pprof_refusal-none h.hosts (h.shown cfg.debug_pprof_addr) cfg.debug_pprof_addr fine)

  -- A program that exits with the code 0 ran on settings that are valid, and its profiler, if it was
  -- wanted, was served on an address of the loopback or on localhost.
  pub main-IsValid :
      main program ≡ 0
      → (cfg : Config F) × (load h.viper h.format h.files ≡ ok cfg) × IsValid cfg × IsLocal cfg
  main-IsValid zero_exit =
      let (cfg, loaded, clean) = (main-IsClean program).0 zero_exit in
      (cfg, loaded, load-IsValid h.viper h.format h.files cfg loaded, fine-IsLocal cfg clean.3)
