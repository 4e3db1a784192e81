-- ===== src/Http.antt =====
-- What the clients of the program see of `net/http`: the reply of a request, or the error of `Do`.
use Prim.Native.String.{◌++◌}
use invoice_ocr_poc.Base.{ℕ, Bool, ◌&&◌, Option, none, some, String, leb, ltb, if◌then◌else◌}
use invoice_ocr_poc.Errors.{Error, other, wrap, Result, ok, err}
use invoice_ocr_poc.Strings.{Text, trim_space}

-- The status, what reading the body up to its limit gives, and the error of closing it.
pub record Reply : Type 0 where
  pub status : ℕ
  pub body : Result Text
  pub close : Option Error

-- `http.NewRequestWithContext` for a URL, and `Do` for the payload of a request.
pub record Transport : Type 0 where
  pub new_request : Text → Option Error
  pub exchange : Text → Text → Result Reply

-- The verbs of messages: a number and a text.
pub record Verbs : Type 0 where
  pub number : ℕ → String
  pub plain : Text → String

-- `StatusCode < 200 || StatusCode >= 300` does not hold.
abbrev pub is_success : ℕ → Bool
is_success status = leb 200 status && ltb status 300

unfoldable pub status_error : Verbs → String → ℕ → Text → Error
unfolding trim_space
status_error verbs prefix status body =
    other (prefix ++ verbs.number status ++ ": " ++ verbs.plain (trim_space body))

-- A request whose errors are named after the service: it is built, sent and read, its status must be a
-- success, and its body is decoded.
module _ {ℓ} {A : Type ℓ} (net : Transport) (verbs : Verbs) (service : String)
    (decode : Text → Result A) where
  abbrev by_status : ℕ → Text → Result A
  by_status status body =
      if is_success status
      then elim (decode body) [
        | ok parsed ↦ ok parsed
        | err e ↦ err (wrap ("decode " ++ service ++ " response") e)
      ]
      else err (status_error verbs (service ++ " status ") status body)

  abbrev by_reply : Result Reply → Result A
  by_reply (err e) = err (wrap (service ++ " request") e)
  by_reply (ok reply) = elim reply.body [
    | err e ↦ err (wrap ("read " ++ service ++ " body") e)
    | ok body ↦ by_status reply.status body
  ]

  unfoldable pub fetch : Text → Text → Result A
  unfolding status_error
  fetch url payload = elim (net.new_request url) [
    | some e ↦ err (wrap ("new " ++ service ++ " request") e)
    | none ↦ by_reply (net.exchange url payload)
  ]
