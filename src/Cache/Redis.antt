-- ===== src/Cache/Redis.antt =====
-- internal/cache/redis.go: `RedisCache`. The server with its client, JSON and the hash are parameters;
-- the time limits of the calls act through the server's answers. `Close` is the client's own.
use Prim.Native.String.{◌++◌}
use invoice_ocr_poc.Base.{
  ℕ, ◌<◌, ◌+◌, Bool, true, Option, none, some, ◌≡◌, ◌≢◌, String, Int64, add64, is_pos, str_eq,
  if◌then◌else◌,
}
use invoice_ocr_poc.Errors.{Error, Result, ok, err, wrap}
use invoice_ocr_poc.Strings.{Text}
use invoice_ocr_poc.Cache.Entry.{Entry, Stats, Cache}

pub record RedisOptions : Type 0 where
  pub addr : Text
  pub password : Text
  pub db : Int64
  pub ttl : Int64
  pub prefix : String
  pub pool_size : Int64
  pub min_idle_conns : Int64

-- The fields of `redis.Options` that depend on ours.
pub record ClientOptions : Type 0 where
  pub addr : Text
  pub password : Text
  pub db : Int64
  pub pool_size : Int64
  pub min_idle_conns : Int64

-- A server of state `R` at a moment; `count` is the number of keys that a scan for a prefix meets.
pub record Server (R : Type 0) : Type 0 where
  pub ping : R → Option Error
  pub get : ℕ → String → R → Result Text
  pub set : ℕ → String → Text → Int64 → R → R × Option Error
  pub count : String → R → ℕ

-- What is documented of it: `stored r key now` is the value that is there and has not expired.
pub record IsServer {R : Type 0} (server : Server R) : Type 0 where
  pub stored : ℕ → R → String → Option Text
  pub get_stored :
      (now : ℕ) (key : String) (r : R) (bytes : Text)
      → server.get now key r ≡ ok bytes
      → stored now r key ≡ some bytes
  pub set-stored :
      (now : ℕ) (key : String) (bytes : Text) (ttl : Int64) (r : R) (later : ℕ)
      → (server.set now key bytes ttl r).1 ≡ none
      → later < ttl
      → stored (now + later) (server.set now key bytes ttl r).0 key ≡ some bytes
  pub set_other :
      (now : ℕ) (key : String) (bytes : Text) (ttl : Int64) (r : R) (moment : ℕ) (other : String)
      → key ≢ other
      → stored moment (server.set now key bytes ttl r).0 other ≡ stored moment r other

-- `json.Marshal` and `json.Unmarshal` of an entry.
pub record Codec (F : Type 0) : Type 0 where
  pub marshal : Entry F → Result Text
  pub unmarshal : Text → Result (Entry F)

-- With the state of the server that its client talks to.
pub record RedisCache (R : Type 0) : Type 0 where
  pub server : R
  pub ttl : Int64
  pub enabled : Bool
  pub prefix : String
  pub hits : Int64
  pub misses : Int64

abbrev pub or_number : Int64 → Int64 → Int64
or_number n fallback = if is_pos n then n else fallback

-- One hour, in nanoseconds.
abbrev pub hour : Int64
hour = 3600000000000

unfoldable pub client_options : RedisOptions → ClientOptions
client_options opts = record {
  addr = opts.addr;
  password = opts.password;
  db = opts.db;
  pool_size = or_number opts.pool_size 10;
  min_idle_conns = or_number opts.min_idle_conns 2;
}

module _ {F R : Type 0} (api : Server R) (codec : Codec F) (hash : Text → String) where
  -- `connect` is `redis.NewClient`. When the ping fails the client is left as it is, with its connections:
  -- it is not closed, and nothing refers to it any more.
  unfoldable pub new_redis : (ClientOptions → R) → RedisOptions → Result (RedisCache R)
  unfolding client_options
  new_redis connect opts =
      let r = connect (client_options opts) in
      elim (api.ping r) [
        | some e ↦ err (wrap "redis ping" e)
        | none ↦ ok record {
          server = r;
          ttl = or_number opts.ttl hour;
          enabled = true;
          prefix = if str_eq opts.prefix "" then "ocr:" else opts.prefix;
          hits = 0;
          misses = 0;
        }
      ]

  unfoldable pub key : RedisCache R → Text → String
  key c text = c.prefix ++ hash text

  abbrev pub missed : RedisCache R → RedisCache R × Option (Entry F)
  missed c = (record c { misses = add64 c.misses 1 }, none)

  abbrev pub read_entry : RedisCache R → Result (Entry F) → RedisCache R × Option (Entry F)
  read_entry c (err e) = missed c
  read_entry c (ok e) = (record c { hits = add64 c.hits 1 }, some e)

  abbrev pub read_data : RedisCache R → Result Text → RedisCache R × Option (Entry F)
  read_data c (err e) = missed c
  read_data c (ok bytes) = read_entry c (codec.unmarshal bytes)

  unfoldable pub get : ℕ → Text → RedisCache R → RedisCache R × Option (Entry F)
  unfolding key
  get now text c = if c.enabled then read_data c (api.get now (key c text) c.server) else (c, none)

  abbrev pub write_data : ℕ → Text → RedisCache R → Result Text → RedisCache R
  write_data now text c (err e) = c
  write_data now text c (ok bytes) = record c {
    server = (api.set now (key c text) bytes c.ttl c.server).0;
  }

  unfoldable pub set : ℕ → Text → Entry F → RedisCache R → RedisCache R
  unfolding key
  set now text e c =
      if c.enabled then write_data now text c (codec.marshal (record e { created_at = now })) else c

  unfoldable pub stats : RedisCache R → Stats
  stats c =
      if c.enabled
      then record { entries = api.count c.prefix c.server; hits = c.hits; misses = c.misses }
      else record { entries = 0; hits = 0; misses = 0 }

  abbrev pub redis_cache : Cache F (RedisCache R)
  redis_cache = record { get = get; set = set; enabled = λ c. c.enabled; stats = stats }

  module _ (laws : IsServer api) where
    -- An entry that was written comes back until its time is over, if the server took it and answers,
    -- and JSON gives back what it was given.
    pub get-set_redis :
        (now later : ℕ) (text : Text) (e : Entry F) (c : RedisCache R) (bytes reply : Text)
        → c.enabled ≡ true
        → codec.marshal (record e { created_at = now }) ≡ ok bytes
        → codec.unmarshal bytes ≡ ok (record e { created_at = now })
        → (api.set now (key c text) bytes c.ttl c.server).1 ≡ none
        → later < c.ttl
        → api.get (now + later) (key c text) (api.set now (key c text) bytes c.ttl c.server).0
          ≡ ok reply
        → (get (now + later) text (set now text e c)).1 ≡ some (record e { created_at = now })
    unfolding get set key
    get-set_redis now later text e c bytes reply on encoded decoded took fresh answered =
        let there =
          laws.get_stored (now + later) (key c text)
            (api.set now (key c text) bytes c.ttl c.server).0 reply answered in
        let held = laws.set-stored now (key c text) bytes c.ttl c.server later took fresh in
        let same : reply ≡ bytes = cc (there, held) in
        simp (get, set, on, encoded, answered, same, decoded)
