-- ===== src/Config/Validate/Equivalence.antt =====
-- The checks of `Load` let exactly the valid settings through.
use invoice_ocr_poc.Base.{
  Bool, true, false, not, Option, none, some, List, [], ◌∷◌, ◌++◌, ◌≡◌, ◌≢◌, ◌⊎◌, ◌↔◌, All,
  All-append, arith, refl, String,
}
use invoice_ocr_poc.Errors.{Error, ok}
use invoice_ocr_poc.Float.{Float, nought}
use invoice_ocr_poc.Strings.{Text, codes, same_text, same_text_iff}
use invoice_ocr_poc.Config.Fields.{Config, Viper}
use invoice_ocr_poc.Config.Validate.{
  Format, Check, refusal, accept, one_of, only_if, number_checks, text_checks, postgres_checks,
  cache_checks, redis_checks, checks, validate,
}
use invoice_ocr_poc.Config.Validate.Ranges.{
  IsPositive, IsOneOf, amounts, IsPostgres, IsRedis, IsValid, Passes, refusal-none, not-one_of,
  filled,
}

All-split {ℓ κ} :
    {A : Type ℓ} (P : A → Type κ) (xs ys : List A) → All P (xs ++ ys) → All P xs × All P ys
All-split P [] ys h = (tt, h)
All-split P (x ∷ xs) ys h = let (hx, hy) = All-split P xs ys h.1 in ((h.0, hx), hy)

All-parts {ℓ κ} :
    {A : Type ℓ} (P : A → Type κ) (xs ys zs us vs : List A)
    → All P (xs ++ (ys ++ (zs ++ (us ++ vs))))
      ↔ (All P xs × All P ys × All P zs × All P us × All P vs)
All-parts P xs ys zs us vs = (
  λ h.
      let (hx, h1) = All-split P xs (ys ++ (zs ++ (us ++ vs))) h in
      let (hy, h2) = All-split P ys (zs ++ (us ++ vs)) h1 in
      let (hz, h3) = All-split P zs (us ++ vs) h2 in
      let (hu, hv) = All-split P us vs h3 in (hx, hy, hz, hu, hv),
  λ h. All-append P xs (ys ++ (zs ++ (us ++ vs))) h.0 (
      All-append P ys (zs ++ (us ++ vs)) h.1
        (All-append P zs (us ++ vs) h.2 (All-append P us vs h.3 h.4))),
)

only_if_lem :
    (b : Bool) (gs : List Check)
    → All Passes (only_if b gs) ↔ ((b ≡ false) ⊎ ((b ≡ true) × All Passes gs))
only_if_lem true gs = ground arith
only_if_lem false gs = ground arith

-- The switch on a backend and the checks under the test for its second choice.
backend-checks :
    (s : Text) (first second : String) (gs : List Check)
    → same_text (codes first) (codes second) ≡ false
    → ((not (one_of s (first ∷ second ∷ [])) ≡ false)
        × All Passes (only_if (same_text s (codes second)) gs))
      ↔ ((s ≡ codes first) ⊎ ((s ≡ codes second) × All Passes gs))
backend-checks s first second gs differ = ground (
  arith,
  only_if_lem (same_text s (codes second)) gs,
  same_text_iff s (codes first),
  same_text_iff s (codes second),
)

accept-ok {ℓ} : {A : Type ℓ} (o : Option Error) (a : A) → (accept o a ≡ ok a) ↔ (o ≡ none)
accept-ok none a = ground arith
accept-ok (some e) a = ground arith

module _ {F V : Type 0} ⦃d : Float F⦄ (w : Viper F V) (fm : Format F) (v : V) (c : Config F) where
  numbers : All Passes (number_checks w fm v c) ↔ (
      All IsPositive (amounts c)
      × ((d.lt c.ocr_min_confidence nought ≡ false)
          × (d.lt (d.decimal 1 1) c.ocr_min_confidence ≡ false)))
  numbers = ground arith

  postgres : All Passes (postgres_checks w fm c) ↔ IsPostgres c
  postgres = ground (
    arith,
    filled c.pg_host,
    filled c.pg_user,
    filled c.pg_dbname,
    not-one_of c.pg_sync_commit ("off" ∷ "local" ∷ "remote_write" ∷ "on" ∷ []),
  )

  redis : All Passes (redis_checks w fm c) ↔ IsRedis c
  redis = ground (arith, filled c.redis_addr)

  texts : All Passes (text_checks w fm c) ↔ (
      (c.debug_pprof_addr ≢ [])
      × IsOneOf c.log_format ("text" ∷ "json" ∷ [])
      × (not (one_of c.db_backend ("sqlite" ∷ "postgres" ∷ [])) ≡ false))
  texts = ground (arith, filled c.debug_pprof_addr, not-one_of c.log_format ("text" ∷ "json" ∷ []))

  stored_lem :
      ((not (one_of c.db_backend ("sqlite" ∷ "postgres" ∷ [])) ≡ false)
        × All Passes (only_if (same_text c.db_backend (codes "postgres")) (postgres_checks w fm c)))
      ↔ ((c.db_backend ≡ codes "sqlite") ⊎ ((c.db_backend ≡ codes "postgres") × IsPostgres c))
  unfolding same_text
  stored_lem = ground (
    arith,
    backend-checks c.db_backend "sqlite" "postgres" (postgres_checks w fm c) refl,
    postgres,
  )

  cached_lem :
      ((not (one_of c.cache_backend ("memory" ∷ "redis" ∷ [])) ≡ false)
        × All Passes (only_if (same_text c.cache_backend (codes "redis")) (redis_checks w fm c)))
      ↔ ((c.cache_backend ≡ codes "memory") ⊎ ((c.cache_backend ≡ codes "redis") × IsRedis c))
  unfolding same_text
  cached_lem =
      ground
        (arith, backend-checks c.cache_backend "memory" "redis" (redis_checks w fm c) refl, redis)

  checks_lem : All Passes (checks w fm v c) ↔ IsValid c
  checks_lem =
      let parts =
        All-parts Passes (number_checks w fm v c) (text_checks w fm c)
          (only_if (same_text c.db_backend (codes "postgres")) (postgres_checks w fm c))
          (cache_checks w fm c)
          (only_if (same_text c.cache_backend (codes "redis")) (redis_checks w fm c)) in
      (
        λ h.
            let (hn, ht, hp, hc, hr) = parts.0 h in
            let (positive, confident) = numbers.0 hn in
            let (addressed, logged, known) = texts.0 ht in
            record {
              positive = positive;
              confident = confident;
              addressed = addressed;
              logged = logged;
              stored = stored_lem.0 (known, hp);
              cached = cached_lem.0 (hc.0, hr);
            },
        λ ok_c.
            let (known, hp) = stored_lem.1 ok_c.stored in
            let (hc, hr) = cached_lem.1 ok_c.cached in
            parts.1 (
              numbers.1 (ok_c.positive, ok_c.confident),
              texts.1 (ok_c.addressed, ok_c.logged, known),
              hp,
              (hc, tt),
              hr,
            ),
      )

  validate-refusal : (validate w fm v c ≡ ok c) ↔ (refusal (checks w fm v c) ≡ none)
  unfolding validate
  validate-refusal = accept-ok (refusal (checks w fm v c)) c

  -- The checks accept the settings exactly if they are valid, which is: the upload limit, the numbers
  -- of workers, the queue's and the channels' sizes, and the times of a job, the shutdown, the three
  -- clients and the three stages are positive; the minimum confidence is not outside 0 to 1; the
  -- profiler has an address; the log's format is text or json; the database is sqlite, or postgres with
  -- a host, a user, a name, a port of 1 to 65535 and one of four commit modes; the cache is memory, or
  -- redis with an address, a database number of 0 to 15 and a positive pool. Other settings,
  -- such as the cache's TTL and the sizes of the connection pool, are not checked.
  pub validate-IsValid : (validate w fm v c ≡ ok c) ↔ IsValid c
  validate-IsValid = ground (arith, validate-refusal, refusal-none (checks w fm v c), checks_lem)
