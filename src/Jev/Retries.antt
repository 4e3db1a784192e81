-- ===== src/Jev/Retries.antt =====
-- How often `post` in internal/jev/client.go sends its request, and which answer it returns.
use invoice_ocr_poc.Base.{
  ◌+◌, ◌++◌, ◌≤◌, zero, suc, ℕ, zero, suc, ◌+◌, ◌≤◌, Option, none, some, ◌≡◌, refl, String, Int64,
  length, arith, ◌⊎◌, inl, inr, Option-cases, Bool-cases, is_empty,
}
use invoice_ocr_poc.Errors.{Error, Result, Result-cases}
use invoice_ocr_poc.Float.{Float}
use invoice_ocr_poc.Strings.{Text, codes}
use invoice_ocr_poc.Http.{Verbs}
use invoice_ocr_poc.Jev.Answers.{State, Response, usage_of}
use invoice_ocr_poc.Jev.Compose.{compose}
use invoice_ocr_poc.Jev.Client.{
  Client, Network, Json, Attempt, retry, finished, backoff, judge_attempt, waited, post_from, post,
  evaluate,
}
use invoice_ocr_poc.Jev.Questions.{questions}

Attempt-cases :
    {F : Type 0} (a : Attempt F)
    → ((e : Error) × (a ≡ retry e)) ⊎ ((r : Result (Response F)) × (a ≡ finished r))
Attempt-cases (retry e) = inl (e, refl)
Attempt-cases (finished r) = inr (r, refl)

-- The waits before a number of attempts, from an attempt on.
abbrev pauses : ℕ → ℕ → ℕ
pauses zero attempt = 0
pauses (suc left) attempt = backoff attempt + pauses left (suc attempt)

module _ {F : Type 0} ⦃d : Float F⦄ (net : Network) (json : Json F) (verbs : Verbs) where
  post_from-bounded :
      (url payload : Text) (left attempt : ℕ) (last : Option Error)
      → let r = post_from net json verbs url payload left attempt last in
        (length r.sent ≤ left) × (r.waited_ms ≤ pauses left attempt)
  unfolding post_from
  post_from-bounded url payload zero attempt last = (omega arith, omega arith)
  post_from-bounded url payload (suc left) attempt last =
      elim (Option-cases (waited net json verbs attempt)) [
        | inr (c, ended) ↦ rw (post_from, ended) (omega arith, omega arith)
        | inl going ↦ elim (Option-cases (net.new_request url)) [
          | inr (e, bad) ↦ rw (post_from, going, bad) (omega arith, omega arith)
          | inl made ↦
              elim (Attempt-cases
                (judge_attempt net json verbs (net.exchange attempt url payload))) [
                  | inr (r, over) ↦ rw (post_from, going, made, over) (omega arith, omega arith)
                  | inl (e, again) ↦
                      let (sent, paused) =
                        post_from-bounded url payload left (suc attempt) (some e) in
                      rw (post_from, going, made, again) (omega arith, omega arith)
                ]
        ]
      ]

  -- A call sends its request three times at most, and waits 1.2 seconds at most between the attempts.
  pub post-bounded :
      (c : Client) (payload : Text)
      → (length (post net json verbs c payload).sent ≤ 3)
        × ((post net json verbs c payload).waited_ms ≤ 1200)
  unfolding post backoff
  post-bounded c payload = post_from-bounded (c.base_url ++ codes "/v1/systemone") payload 3 0 none

  -- From an attempt on, the first answer that is not retried comes at the given attempt, and the
  -- context has not ended before it.
  pub data Reaches (url payload : Text) : ℕ → ℕ → Result (Response F) → Type 0 where
    here :
        {attempt : ℕ} {r : Result (Response F)}
        → waited net json verbs attempt ≡ none
        → judge_attempt net json verbs (net.exchange attempt url payload) ≡ finished r
        → Reaches url payload attempt 1 r
    later :
        {attempt n : ℕ} {e : Error} {r : Result (Response F)}
        → waited net json verbs attempt ≡ none
        → judge_attempt net json verbs (net.exchange attempt url payload) ≡ retry e
        → Reaches url payload (suc attempt) n r
        → Reaches url payload attempt (suc n) r

  post_from-Reaches :
      {url payload : Text} {attempt n : ℕ} {r : Result (Response F)} (left : ℕ)
      (last : Option Error)
      → net.new_request url ≡ none
      → Reaches url payload attempt n r
      → n ≤ left
      → let p = post_from net json verbs url payload left attempt last in
        (p.result ≡ r) × (length p.sent ≡ n)
  unfolding post_from
  post_from-Reaches zero last made (here going over) few = absurd (omega arith)
  post_from-Reaches zero last made (later going again rest) few = absurd (omega arith)
  post_from-Reaches (suc left) last made (here going over) few =
      rw (post_from, going, made, over) (refl, refl)
  post_from-Reaches (suc left) last made (later going again rest) few =
      let (same, sent) = post_from-Reaches left (some _) made rest (omega arith) in
      rw (post_from, going, made, again) (same, omega (arith, sent))

  -- If the first answer that is not retried comes within three attempts, then the call returns what is
  -- made of it, after as many requests, whatever the answers before it were.
  pub post-Reaches :
      (c : Client) (payload : Text) (n : ℕ) (r : Result (Response F))
      → net.new_request (c.base_url ++ codes "/v1/systemone") ≡ none
      → Reaches (c.base_url ++ codes "/v1/systemone") payload 0 n r
      → n ≤ 3
      → let p = post net json verbs c payload in (p.result ≡ r) × (length p.sent ≡ n)
  unfolding post
  post-Reaches c payload n r made reached few = post_from-Reaches 3 none made reached few

  -- An evaluation without an error is composed from a response that the service sent.
  pub evaluate-composed :
      (show_int : Int64 → String) (elapsed : Int64) (c : Client) (state : State F)
      → let e = evaluate net json verbs show_int elapsed c state in
        e.2 ≡ none
        → (resp : Response F) × (e.0 ≡ compose show_int state resp) × (e.1 ≡ usage_of resp elapsed)
  unfolding evaluate
  evaluate-composed show_int elapsed c state h = elim (Bool-cases (is_empty c.api_key)) [
    | inl missing ↦ absurd (cc (rw (evaluate, missing) at h))
    | inr given ↦ elim (Result-cases (json.marshal state questions)) [
      | inr (e, bad) ↦ absurd (cc (rw (evaluate, given, bad) at h))
      | inl (payload, encoded) ↦ elim (Result-cases (post net json verbs c payload).result) [
        | inr (e, bad) ↦ absurd (cc (rw (evaluate, given, encoded, bad) at h))
        | inl (resp, fine) ↦ (
          resp,
          rw (evaluate, given, encoded, fine) refl,
          rw (evaluate, given, encoded, fine) refl,
        )
      ]
    ]
  ]
