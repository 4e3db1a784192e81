-- ===== src/Jev/Client.antt =====
-- internal/jev/client.go: `NewClient`, `Evaluate`, and `post` with its retries. HTTP, JSON and the clock
-- are parameters.
use invoice_ocr_poc.Base.{
  ◌+◌, ◌++◌, ℕ, zero, suc, ◌*◌, ◌^◌, ◌||◌, Option, none, some, List, [], ◌∷◌, ◌++◌, String, Int64,
  is_empty, if◌then◌else◌, ◌==◌,
}
use invoice_ocr_poc.Errors.{CtxError, Error, ctx, other, Result, ok, err, wrap}
use invoice_ocr_poc.Float.{Float}
use invoice_ocr_poc.Strings.{Text, codes, trim_right_by}
use invoice_ocr_poc.Http.{Reply, Verbs, is_success, status_error}
use invoice_ocr_poc.Jev.Answers.{State, Judgment, Usage, Response, no_judgment, no_usage, usage_of}
use invoice_ocr_poc.Jev.Compose.{compose}
use invoice_ocr_poc.Jev.Questions.{Asked, questions}
use invoice_ocr_poc.Service.Types.{Judge}

abbrev pub max_retries : ℕ
max_retries = 3

pub record Client : Type 0 where
  pub base_url : Text
  pub api_key : Text

unfoldable pub new_client : Text → Text → Client
unfolding trim_right_by
new_client base_url api_key = record {
  base_url = trim_right_by (λ c. c == b'/') base_url;
  api_key = api_key;
}

-- What the network does during one call of `post`: whether a URL makes a request, the answer of `Do` to
-- each attempt, and whether the context ends during the wait before an attempt.
pub record Network : Type 0 where
  pub new_request : Text → Option Error
  pub exchange : ℕ → Text → Text → Result Reply
  pub ended : ℕ → Option CtxError

pub record Json (F : Type 0) : Type 0 where
  pub marshal : State F → List Asked → Result Text
  pub response : Text → Result (Response F)

-- What an attempt leads to: another one, with the error so far, or the end.
pub data Attempt (F : Type 0) : Type 0 where
  retry : Error → Attempt F
  finished : Result (Response F) → Attempt F

-- The result of `post`, with the attempts in which a request was sent and the time of the waits that
-- came to their end, in milliseconds.
pub record Posted (F : Type 0) : Type 0 where
  pub result : Result (Response F)
  pub sent : List ℕ
  pub waited_ms : ℕ

-- The wait before an attempt, in milliseconds: none before the first, and then
-- `time.Duration(1<<attempt) * 200 * time.Millisecond`.
unfoldable pub backoff : ℕ → ℕ
backoff zero = 0
backoff (suc attempt) = 2 ^ suc attempt * 200

module _ {F : Type 0} ⦃d : Float F⦄ (net : Network) (json : Json F) (verbs : Verbs) where
  abbrev pub decoded : Result (Response F) → Result (Response F)
  decoded (ok parsed) = ok parsed
  decoded (err e) = err (wrap "decode jev response" e)

  abbrev pub by_status : ℕ → Text → Attempt F
  by_status status body =
      if status == 429 || status == 529
      then retry (status_error verbs "jev retryable status " status body)
      else if is_success status
      then finished (decoded (json.response body))
      else finished (err (status_error verbs "jev status " status body))

  abbrev pub by_reply : Reply → Attempt F
  by_reply reply = elim reply.body [
    | err e ↦ retry (wrap "read jev body" e)
    | ok body ↦ elim reply.close [
      | some e ↦ retry (wrap "close jev body" e)
      | none ↦ by_status reply.status body
    ]
  ]

  -- The body of the loop behind the request.
  unfoldable pub judge_attempt : Result Reply → Attempt F
  unfolding status_error
  judge_attempt (err e) = retry (wrap "jev request" e)
  judge_attempt (ok reply) = by_reply reply

  abbrev pub waited : ℕ → Option CtxError
  waited zero = none
  waited (suc attempt) = net.ended (suc attempt)

  abbrev pub last_error : Option Error → Error
  last_error none = other "jev request failed"
  last_error (some e) = e

  -- The loop from an attempt on, with the attempts that are left and the error so far.
  unfoldable pub post_from : Text → Text → ℕ → ℕ → Option Error → Posted F
  unfolding judge_attempt backoff
  post_from url payload zero attempt last = record {
    result = err (last_error last);
    sent = [];
    waited_ms = 0;
  }
  post_from url payload (suc left) attempt last = elim (waited attempt) [
    | some c ↦ record { result = err (ctx c); sent = []; waited_ms = 0 }
    | none ↦ elim (net.new_request url) [
      | some e ↦ record {
        result = err (wrap "new jev request" e);
        sent = [];
        waited_ms = backoff attempt;
      }
      | none ↦ elim (judge_attempt (net.exchange attempt url payload)) [
        | finished r ↦ record { result = r; sent = attempt ∷ []; waited_ms = backoff attempt }
        | retry e ↦
            let rest = post_from url payload left (suc attempt) (some e) in
            record rest { sent = attempt ∷ rest.sent; waited_ms = backoff attempt + rest.waited_ms }
      ]
    ]
  ]

  unfoldable pub post : Client → Text → Posted F
  unfolding post_from
  post c payload = post_from (c.base_url ++ codes "/v1/systemone") payload max_retries 0 none

  module _ (show_int : Int64 → String) (elapsed : Int64) where
    abbrev pub Evaluation : Type 0
    Evaluation = Judgment F × Usage F × Option Error

    abbrev pub concluded : State F → Result (Response F) → Evaluation
    concluded state (err e) = (no_judgment, no_usage, some e)
    concluded state (ok resp) = (compose show_int state resp, usage_of resp elapsed, none)

    abbrev pub submit : Client → State F → Result Text → Evaluation
    submit c state (err e) = (no_judgment, no_usage, some (wrap "marshal jev request" e))
    submit c state (ok payload) = concluded state (post c payload).result

    unfoldable pub evaluate : Client → State F → Evaluation
    unfolding post compose usage_of questions
    evaluate c state =
        if is_empty c.api_key
        then (no_judgment, no_usage, some (other "typesafe api key is required"))
        else submit c state (json.marshal state questions)

    -- The client as the service's judge.
    abbrev pub judge : Client → Judge F
    judge c = record { evaluate = evaluate c }
