-- ===== src/Tests/Clients.antt =====
-- The clients of TypeSafe, OpenRouter and Redis over networks of constants.
use invoice_ocr_poc.Base.{ℕ, zero, suc, ◌≤◌, true, none, some, [], ◌∷◌, ◌≡◌, refl, length, arith}
use invoice_ocr_poc.Errors.{Result, ok}
use invoice_ocr_poc.Float.{Micros, micros_float}
use invoice_ocr_poc.Strings.{codes}
use invoice_ocr_poc.Http.{Reply, Transport, Verbs, status_error}
use invoice_ocr_poc.Extract.{no_extract, incomplete}
use invoice_ocr_poc.Jev.Answers.{Response}
use invoice_ocr_poc.Jev.Client.{Client, Network, Json, judge_attempt, post}
use invoice_ocr_poc.Jev.Retries.{here, later, post-bounded, post-Reaches}
use invoice_ocr_poc.Openrouter.Assist.{AssistItem, AssistJson}
use invoice_ocr_poc.Openrouter.Client
use invoice_ocr_poc.Openrouter.Outcome.{Fits, assist-Fits, assist-incomplete}

abbrev pub verbs : Verbs
verbs = record { number = λ n. "n"; plain = λ s. "s" }

abbrev pub client : Client
client = record { base_url = codes "http://jev"; api_key = codes "k" }

abbrev reply : ℕ → Reply
reply status = record { status = status; body = ok (codes "{}"); close = none }

-- The first attempt meets the limit on the rate, and the second one a reply.
abbrev answers : ℕ → Result Reply
answers zero = ok (reply 429)
answers (suc n) = ok (reply 200)

abbrev pub network : Network
network = record {
  new_request = λ url. none;
  exchange = λ attempt url payload. answers attempt;
  ended = λ attempt. none;
}

abbrev response : Response Micros
response = record {
  model = "jev";
  answers = [];
  usage = record { input_tokens = 10; output_tokens = 2; cost_usd = none; cost = none };
}

abbrev pub json : Json Micros
json = record { marshal = λ state asked. ok (codes "{}"); response = λ body. ok response }

post-bounded_example :
    (length (post network json verbs client (codes "{}")).sent ≤ 3)
    × ((post network json verbs client (codes "{}")).waited_ms ≤ 1200)
post-bounded_example = post-bounded network json verbs client (codes "{}")

post-Reaches_example :
    let p = post network json verbs client (codes "{}") in
    (p.result ≡ ok response) × (length p.sent ≡ 2)
unfolding judge_attempt status_error
post-Reaches_example =
    post-Reaches network json verbs client (codes "{}") 2 (ok response) refl
      (later refl refl (here refl refl)) (omega arith)

-- An item with a name and no total of its own.
abbrev coffee : AssistItem Micros
coffee = record {
  produto = codes "CAFE";
  description = [];
  quantidade = micros_float.decimal 2 1;
  quantity = micros_float.decimal 0 1;
  valor_unit = micros_float.decimal 5 1;
  unit_amount = micros_float.decimal 0 1;
  line_total = micros_float.decimal 0 1;
}

abbrev answer : AssistJson Micros
answer = record {
  items = coffee ∷ [];
  estimated_total = micros_float.decimal 10 1;
  legacy_total = micros_float.decimal 0 1;
  soma_itens = micros_float.decimal 0 1;
  soma_confere = true;
  notes = [];
  legacy_notes = [];
}

abbrev pub transport : Transport
transport = record { new_request = λ url. none; exchange = λ url payload. ok (reply 200) }

abbrev chat_json : Client.Json Micros
chat_json = record {
  marshal = λ request. ok (codes "{}");
  response = λ body. ok (record {
    contents = codes "```json {} ```" ∷ [];
    usage = record {
      prompt_tokens = 1;
      completion_tokens = 1;
      total_tokens = 2;
      cost = micros_float.decimal 0 1;
    };
  });
  answer = λ content. ok answer;
}

abbrev assistant : Client.Client
assistant = record { base_url = codes "http://or"; api_key = codes "k"; model = codes "m" }

assist-Fits_example :
    Fits no_extract
      (Client.assist transport chat_json verbs 7 (some assistant) (codes "CAFE") no_extract).0
assist-Fits_example =
    assist-Fits transport chat_json verbs 7 (some assistant) (codes "CAFE") no_extract

assist-incomplete_example :
    incomplete
      (Client.assist transport chat_json verbs 7 (some assistant) (codes "CAFE") no_extract).0
    ≡ true
unfolding incomplete
assist-incomplete_example =
    assist-incomplete transport chat_json verbs 7 (some assistant) (codes "CAFE") no_extract refl
