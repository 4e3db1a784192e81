-- ===== src/Cache/Memory.antt =====
-- internal/cache/ocr.go: `MemoryCache`. `hash` is the hexadecimal SHA-256 of a text; times and the
-- TTL are in nanoseconds. A nil receiver answers like a cache that is disabled.
use invoice_ocr_poc.Base.{
  ℕ, ◌-◌, Bool, true, false, ◌&&◌, Option, none, some, List, [], ◌≡◌, ◌≢◌, refl, ◌∙◌, String, Int64,
  add64, is_pos, ltb, length, if◌then◌else◌, arith, Bool-cases, inl, inr,
}
use invoice_ocr_poc.Base.Assoc.{
  lookup, insert, remove, lookup-insert_self, lookup-insert_other, lookup-remove_self,
  lookup-remove_other,
}
use invoice_ocr_poc.Strings.{Text}
use invoice_ocr_poc.Cache.Entry.{Entry, Stats, Cache, IsCache}

pub record MemoryCache (F : Type 0) : Type 0 where
  pub entries : List (String × Entry F)
  pub ttl : Int64
  pub enabled : Bool
  pub hits : Int64
  pub misses : Int64

unfoldable pub new : {F : Type 0} → Int64 → Bool → MemoryCache F
new ttl enabled = record { entries = []; ttl = ttl; enabled = enabled; hits = 0; misses = 0 }

-- `c.ttl > 0 && time.Since(entry.CreatedAt) > c.ttl`.
unfoldable pub is_expired : {F : Type 0} → Int64 → ℕ → Entry F → Bool
is_expired ttl now e = is_pos ttl && ltb ttl (now - e.created_at)

module _ {F : Type 0} (hash : Text → String) where
  unfoldable pub get : ℕ → Text → MemoryCache F → MemoryCache F × Option (Entry F)
  unfolding is_expired
  get now text c =
      let missed : MemoryCache F = record c { misses = add64 c.misses 1 } in
      if c.enabled
      then elim (lookup (hash text) c.entries) [
        | none ↦ (missed, none)
        | some e ↦
            if is_expired c.ttl now e
            then (record missed { entries = remove (hash text) c.entries }, none)
            else (record c { hits = add64 c.hits 1 }, some e)
      ]
      else (c, none)

  unfoldable pub set : ℕ → Text → Entry F → MemoryCache F → MemoryCache F
  set now text e c =
      if c.enabled
      then record c { entries = insert (hash text) (record e { created_at = now }) c.entries }
      else c

  unfoldable pub stats : MemoryCache F → Stats
  stats c =
      if c.enabled
      then record { entries = length c.entries; hits = c.hits; misses = c.misses }
      else record { entries = 0; hits = 0; misses = 0 }

  abbrev pub memory_cache : Cache F (MemoryCache F)
  memory_cache = record { get = get; set = set; enabled = λ c. c.enabled; stats = stats }

  pub get_hit :
      (now : ℕ) (text : Text) (c : MemoryCache F) (e : Entry F)
      → (get now text c).1 ≡ some e
      → lookup (hash text) c.entries ≡ some e
  unfolding get is_expired
  get_hit now text c e h = ground arith

  unfoldable pub memory_cache-IsCache : IsCache memory_cache
  unfolding set
  memory_cache-IsCache = record {
    key = hash;
    entry = λ c k. lookup k c.entries;
    get_hit = get_hit;
    set-entry = λ now text e c h. rw h (lookup-insert_self (hash text) _ c.entries);
    set_other = λ now text e c k n. elim (Bool-cases c.enabled) [
      | inl h ↦ rw h (lookup-insert_other (hash text) k _ c.entries n)
      | inr h ↦ rw h refl
    ];
  }

  set_on :
      (now : ℕ) (text : Text) (e : Entry F) (c : MemoryCache F)
      → c.enabled ≡ true
      → set now text e c
        ≡ record c { entries = insert (hash text) (record e { created_at = now }) c.entries }
  unfolding set
  set_on now text e c on = rw on

  get_found :
      (now : ℕ) (text : Text) (e : Entry F) (c : MemoryCache F)
      → c.enabled ≡ true
      → lookup (hash text) c.entries ≡ some e
      → get now text c ≡ (
          if is_expired c.ttl now e
          then (
            record c { misses = add64 c.misses 1; entries = remove (hash text) c.entries },
            none,
          )
          else (record c { hits = add64 c.hits 1 }, some e))
  unfolding get
  get_found now text e c on found = simp (on, found)

  -- A lookup after a store under the same text, in an enabled cache: the entry with the time of the
  -- store, and one more hit, as long as the TTL is not positive or not yet over; else nothing, one more
  -- miss, and the entry is gone. Entries under other hashes stay in both cases.
  pub get-set :
      (now later : ℕ) (text : Text) (e : Entry F) (c : MemoryCache F) (k : String)
      → c.enabled ≡ true
      → hash text ≢ k
      → let r = get later text (set now text e c) in
        let fresh = if is_pos c.ttl && ltb c.ttl (later - now) then false else true in
        (r.1 ≡ (if fresh then some (record e { created_at = now }) else none))
        × (r.0.hits ≡ (if fresh then add64 c.hits 1 else c.hits))
        × (r.0.misses ≡ (if fresh then c.misses else add64 c.misses 1))
        × (lookup (hash text) r.0.entries ≡ r.1)
        × (lookup k r.0.entries ≡ lookup k c.entries)
  unfolding is_expired
  get-set now later text e c k on n =
      let e' : Entry F = record e { created_at = now } in
      let self = lookup-insert_self (hash text) e' c.entries in
      let other = lookup-insert_other (hash text) k e' c.entries n in
      let kept = insert (hash text) e' c.entries in
      let c' : MemoryCache F = record c { entries = kept } in
      elim (Bool-cases (is_pos c.ttl && ltb c.ttl (later - now))) [
        | inl over ↦
            rw (set_on now text e c on, get_found later text e' c' on self, over)
              (
                refl,
                refl,
                refl,
                lookup-remove_self (hash text) kept,
                lookup-remove_other (hash text) k kept n ∙ other,
              )
        | inr fresh ↦
            rw (set_on now text e c on, get_found later text e' c' on self, fresh)
              (refl, refl, refl, self, other)
      ]

  -- A disabled cache stores nothing, finds nothing, counts nothing and does not change.
  disabled_inert :
      (now : ℕ) (text : Text) (e : Entry F) (c : MemoryCache F)
      → c.enabled ≡ false
      → (set now text e c ≡ c)
        × (get now text c ≡ (c, none))
        × (stats c ≡ record { entries = 0; hits = 0; misses = 0 })
  unfolding get set stats
  disabled_inert now text e c off = rw off (refl, refl, refl)
