-- ===== src/Program/Backends.antt =====
-- cmd/api/main.go: `openStore`, `openCache` and the address test of `startPprof`. Parsing an address is
-- a parameter.
use Prim.Native.String.{◌++◌}
use invoice_ocr_poc.Base.{
  Bool, true, false, not, ◌&&◌, ◌≡◌, ◌⊎◌, inl, inr, ap, Option, none, some, String, Int64,
  if◌then◌else◌, Bool-cases,
}
use invoice_ocr_poc.Errors.{Error, other, Result, Result-cases, ok, err, wrap}
use invoice_ocr_poc.Strings.{Text, codes, same_text, same_text_iff}
use invoice_ocr_poc.Cache.Memory.{MemoryCache, new}
use invoice_ocr_poc.Cache.Redis.{RedisOptions, RedisCache, ClientOptions, Server, Codec, new_redis}
use invoice_ocr_poc.Config.Fields.{Config}

-- `store.PostgresOptions`, less the log's level.
pub record PostgresOptions : Type 0 where
  pub host : Text
  pub port : Int64
  pub user : Text
  pub password : Text
  pub dbname : Text
  pub sslmode : Text
  pub max_open_conns : Int64
  pub max_idle_conns : Int64
  pub conn_max_lifetime : Int64
  pub conn_max_idle_time : Int64
  pub sync_commit : Text
  pub work_mem : String
  pub maintenance_work_mem : String

-- What `openStore` opens.
pub data Database : Type 0 where
  sqlite : Text → Database
  postgres : PostgresOptions → Database

unfoldable pub open_store : {F : Type 0} → Config F → Database
unfolding same_text
open_store cfg =
    if same_text cfg.db_backend (codes "postgres")
    then postgres record {
      host = cfg.pg_host;
      port = cfg.pg_port;
      user = cfg.pg_user;
      password = cfg.pg_password;
      dbname = cfg.pg_dbname;
      sslmode = cfg.pg_sslmode;
      max_open_conns = cfg.pg_max_open_conns;
      max_idle_conns = cfg.pg_max_idle_conns;
      conn_max_lifetime = cfg.pg_conn_max_lifetime;
      conn_max_idle_time = 600000000000;
      sync_commit = cfg.pg_sync_commit;
      work_mem = "64MB";
      maintenance_work_mem = "256MB";
    }
    else sqlite cfg.sqlite_path

-- The cache that is opened.
pub data Opened (F R : Type 0) : Type 0 where
  in_memory : MemoryCache F → Opened F R
  in_redis : RedisCache R → Opened F R

abbrev redis_options : {F : Type 0} → Config F → RedisOptions
redis_options cfg = record {
  addr = cfg.redis_addr;
  password = cfg.redis_password;
  db = cfg.redis_db;
  ttl = cfg.ocr_cache_ttl;
  prefix = "invoice-ocr:";
  pool_size = cfg.redis_pool_size;
  min_idle_conns = 0;
}

module _ {F R : Type 0} (api : Server R) (codec : Codec F) (hash : Text → String)
    (connect : ClientOptions → R) where
  abbrev wrapped : Result (RedisCache R) → Result (Opened F R)
  wrapped (ok c) = ok (in_redis c)
  wrapped (err e) = err (wrap "redis cache" e)

  unfoldable pub open_cache : Config F → Result (Opened F R)
  unfolding new new_redis same_text
  open_cache cfg =
      if not cfg.ocr_cache_enabled
      then ok (in_memory (new 0 false))
      else if same_text cfg.cache_backend (codes "redis")
      then wrapped (new_redis api codec hash connect (redis_options cfg))
      else ok (in_memory (new cfg.ocr_cache_ttl true))

-- `net.SplitHostPort`, and whether a host is an address of the loopback, if it is an address.
pub record Hosts : Type 0 where
  pub split_host_port : Text → Result Text
  pub loopback : Text → Option Bool

abbrev is_loopback : Option Bool → Bool
is_loopback none = false
is_loopback (some loopback) = loopback

-- The errors with which `startPprof` refuses an address.
unfoldable pub pprof_refusal : Hosts → String → Text → Option Error
unfolding same_text
pprof_refusal hosts shown addr = elim (hosts.split_host_port addr) [
  | err e ↦ some (wrap "debug pprof addr" e)
  | ok host ↦
      if not (is_loopback (hosts.loopback host)) && not (same_text host (codes "localhost"))
      then some (other ("DEBUG_PPROF_ADDR must bind loopback, got " ++ shown))
      else none
]

is_loopback-true : (o : Option Bool) → is_loopback o ≡ true → o ≡ some true
is_loopback-true none h = absurd (cc h)
is_loopback-true (some loopback) h = ap some h

-- The profiler is served only on a loopback address or on localhost.
pub pprof_refusal-none :
    (hosts : Hosts) (shown : String) (addr : Text)
    → pprof_refusal hosts shown addr ≡ none
    → (host : Text) × (hosts.split_host_port addr ≡ ok host)
      × ((hosts.loopback host ≡ some true) ⊎ (host ≡ codes "localhost"))
unfolding pprof_refusal
pprof_refusal-none hosts shown addr h = elim (Result-cases (hosts.split_host_port addr)) [
  | inr (e, bad) ↦ absurd (cc (rw (pprof_refusal, bad) at h))
  | inl (host, fine) ↦ elim (Bool-cases (is_loopback (hosts.loopback host))) [
    | inl local ↦ (host, fine, inl (is_loopback-true (hosts.loopback host) local))
    | inr remote ↦ elim (Bool-cases (same_text host (codes "localhost"))) [
      | inl named ↦ (host, fine, inr ((same_text_iff host (codes "localhost")).0 named))
      | inr unnamed ↦ absurd (cc (rw (pprof_refusal, fine, remote, unnamed) at h))
    ]
  ]
]
