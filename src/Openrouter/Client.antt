-- ===== src/Openrouter/Client.antt =====
-- internal/openrouter/client.go: `NewClient`, `Enabled`, `Model` and `Assist`. HTTP, JSON and the clock
-- are parameters; the fixed fields of the request, its headers and the log are left out.
use invoice_ocr_poc.Base.{
  Bool, false, not, Option, none, some, List, [], ◌∷◌, ◌++◌, Int64, is_empty, if◌then◌else◌, ◌==◌,
}
use invoice_ocr_poc.Errors.{Error, other, Result, ok, err, wrap}
use invoice_ocr_poc.Float.{Float}
use invoice_ocr_poc.Strings.{Text, codes, trim_space, trim_right_by}
use invoice_ocr_poc.Http.{Reply, Transport, Verbs, is_success, status_error}
use invoice_ocr_poc.Extract.{Extract}
use invoice_ocr_poc.Ocr.Usage.{Usage, TokenUsage, no_usage, to_usage}
use invoice_ocr_poc.Openrouter.Assist.{AssistJson, parse_assist}
use invoice_ocr_poc.Service.Types.{Assistant}

pub record Client : Type 0 where
  pub base_url : Text
  pub api_key : Text
  pub model : Text

pub record ChatRequest : Type 0 where
  pub model : Text
  pub system : Text
  pub user : Text

pub record ChatResponse (F : Type 0) : Type 0 where
  pub contents : List Text
  pub usage : TokenUsage F

-- `json.Marshal` of a request, and `json.Unmarshal` of a response and of the assistant's answer.
pub record Json (F : Type 0) : Type 0 where
  pub marshal : ChatRequest → Result Text
  pub response : Text → Result (ChatResponse F)
  pub answer : Text → Result (AssistJson F)

abbrev pub or_default : Text → Text → Text
or_default s fallback = if is_empty (trim_space s) then fallback else s

unfoldable pub new_client : Text → Text → Text → Client
unfolding trim_space trim_right_by
new_client base_url api_key model = record {
  base_url =
      trim_right_by (λ c. c == b'/') (or_default base_url (codes "https://openrouter.ai/api/v1"));
  api_key = trim_space api_key;
  model = or_default model (codes "deepseek/deepseek-v4-flash");
}

-- No client is Go's `nil`.
unfoldable pub enabled : Option Client → Bool
enabled none = false
enabled (some c) = not (is_empty c.api_key)

unfoldable pub model_of : Option Client → Text
model_of none = []
model_of (some c) = c.model

abbrev pub system_prompt : Text
system_prompt =
    codes
      "Você extrai campos de um cupom ou nota fiscal a partir de texto OCR já reconhecido.\nResponda APENAS um JSON com:\n{\"items\":[{\"produto\":\"...\",\"quantidade\":1,\"valor_unitario\":0,\"line_total\":0}],\"total_estimado\":0,\"soma_itens\":0,\"soma_confere\":true,\"notas\":\"...\"}\nNão invente produtos. Ignore CNPJ, IE, chave de acesso e forma de pagamento como itens.\nsoma_confere deve ser true só se a soma dos line_total for compatível com total_estimado.\nnotas em português sobre incertezas do OCR.\nNão classifique tipo de documento, roteamento nem risco."

unfoldable pub user_prompt : Text → Text
user_prompt ocr_text =
    codes "Texto OCR (fonte da verdade; extraia só o que estiver escrito):\n" ++ ocr_text

module _ {F : Type 0} ⦃d : Float F⦄ (net : Transport) (json : Json F) (verbs : Verbs)
    (elapsed : Int64) where
  abbrev pub Answer : Type 0
  Answer = Extract F × Text × Usage F × Option Error

  abbrev pub timed : Usage F
  timed = record no_usage { duration_ms = elapsed }

  abbrev pub first_choice : Extract F → ChatResponse F → Answer
  first_choice hint parsed = elim parsed.contents [
    | [] ↦ (hint, [], to_usage parsed.usage elapsed, some (other "openrouter returned no choices"))
    | content ∷ contents ↦
        let (result, notes, failure) = parse_assist json.answer content hint in
        (result, notes, to_usage parsed.usage elapsed, failure)
  ]

  abbrev pub read_body : Extract F → Text → Answer
  read_body hint body = elim (json.response body) [
    | err e ↦ (hint, [], timed, some (wrap "decode openrouter response" e))
    | ok parsed ↦ first_choice hint parsed
  ]

  abbrev pub read_reply : Extract F → Result Reply → Answer
  read_reply hint (err e) = (hint, [], timed, some (wrap "openrouter request" e))
  read_reply hint (ok reply) = elim reply.body [
    | err e ↦ (hint, [], timed, some (wrap "read openrouter body" e))
    | ok body ↦
        if is_success reply.status
        then read_body hint body
        else (hint, [], timed, some (status_error verbs "openrouter status " reply.status body))
  ]

  abbrev pub chat_request : Client → Text → ChatRequest
  chat_request c ocr_text = record {
    model = c.model;
    system = system_prompt;
    user = user_prompt ocr_text;
  }

  abbrev pub send : Client → Extract F → Text → Answer
  send c hint payload =
      let url = c.base_url ++ codes "/chat/completions" in
      elim (net.new_request url) [
        | some e ↦ (hint, [], no_usage, some (wrap "new openrouter request" e))
        | none ↦ read_reply hint (net.exchange url payload)
      ]

  abbrev pub ask : Client → Text → Extract F → Answer
  ask c ocr_text hint = elim (json.marshal (chat_request c ocr_text)) [
    | err e ↦ (hint, [], no_usage, some (wrap "marshal openrouter request" e))
    | ok payload ↦ send c hint payload
  ]

  unfoldable pub assist : Option Client → Text → Extract F → Answer
  unfolding parse_assist to_usage status_error user_prompt enabled
  assist none ocr_text hint = (hint, [], no_usage, none)
  assist (some c) ocr_text hint =
      if enabled (some c) then ask c ocr_text hint else (hint, [], no_usage, none)

  -- The client as the service's assistant.
  abbrev pub assistant : Client → Assistant F
  assistant c = record {
    enabled = enabled (some c);
    model = verbs.plain (model_of (some c));
    assist = assist (some c);
  }
