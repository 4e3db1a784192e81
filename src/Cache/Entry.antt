-- ===== src/Cache/Entry.antt =====
-- internal/cache/cache.go: entries, statistics, and what a client relies on.
use invoice_ocr_poc.Base.{ℕ, Bool, Option, some, ◌≡◌, Int64}
use invoice_ocr_poc.Strings.{Text}
use invoice_ocr_poc.Base.{String}
use invoice_ocr_poc.Extract.{Extract}
use invoice_ocr_poc.Jev.Answers.{Judgment, Usage}

pub record Entry (F : Type 0) : Type 0 where
  pub ocr_text : Text
  pub ocr_confidence : F
  pub parsed : Extract F
  pub judgment : Judgment F
  pub jev_usage : Usage F
  pub assist_used : Bool
  pub assist_notes : Text
  pub assist_model : String
  pub open_router_tokens : Int64
  pub ollama_duration_ms : Int64
  pub created_at : ℕ

pub record Stats : Type 0 where
  pub entries : ℕ
  pub hits : Int64
  pub misses : Int64

-- The interface `Cache`, over the cache's state `C`. The time of a call is an argument.
pub record Cache (F C : Type 0) : Type 0 where
  pub get : ℕ → Text → C → C × Option (Entry F)
  pub set : ℕ → Text → Entry F → C → C
  pub enabled : C → Bool
  pub stats : C → Stats

-- What a client relies on with a cache whose stores do not fail, as in memory: a hit is an entry that was set for the same key, with a new time stamp.
pub record IsCache {F C : Type 0} (cache : Cache F C) : Type 0 where
  pub key : Text → String
  -- The entry that the cache holds under a key.
  pub entry : C → String → Option (Entry F)
  pub get_hit :
      (now : ℕ) (text : Text) (c : C) (e : Entry F)
      → (cache.get now text c).1 ≡ some e
      → entry c (key text) ≡ some e
  pub set-entry :
      (now : ℕ) (text : Text) (e : Entry F) (c : C)
      → cache.enabled c ≡ Bool.true
      → entry (cache.set now text e c) (key text) ≡ some (record e { created_at = now })
  pub set_other :
      (now : ℕ) (text : Text) (e : Entry F) (c : C) (k : String)
      → ¬ (key text ≡ k)
      → entry (cache.set now text e c) k ≡ entry c k
