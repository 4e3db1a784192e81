-- ===== src/Program/Parts.antt =====
-- cmd/api/main.go: the clients that `run` makes of the settings, what it hands to the stages, and what
-- the server's handlers know.
use invoice_ocr_poc.Base.{
  true, not, refl, Option, none, some, ◌≡◌, ◌≢◌, ◌↔◌, String, Int64, is_empty, [], ◌∷◌,
}
use invoice_ocr_poc.Errors.{Error}
use invoice_ocr_poc.Float.{Float}
use invoice_ocr_poc.Strings.{Text, codes}
use invoice_ocr_poc.Http.{Transport, Verbs}
use invoice_ocr_poc.Config.Fields.{Config}
use invoice_ocr_poc.Jev.Client.{Client, Network, Json, judge, new_client}
use invoice_ocr_poc.Openrouter.Client.{
  Client as AssistClient, Json as ChatJson, new_client as new_assist_client, assistant,
}
use invoice_ocr_poc.Ocr.Tesseract.{Binary, new_tesseract}
use invoice_ocr_poc.Ocr.Tesseract
use invoice_ocr_poc.Ocr.Vision.{OpenRouter, new_open_router, Inputs}
use invoice_ocr_poc.Ocr.Vision
use invoice_ocr_poc.Httpserver.Health.{Deps, health, has_engine, health-ok}
use invoice_ocr_poc.Service.Types.{Engine, Service, Job, World, Outcome}
use invoice_ocr_poc.Service.Judging.{HopTimes}
use invoice_ocr_poc.Store.Db.{IsDb}
use invoice_ocr_poc.Service.Stages.{Sights, stage_jev}
use invoice_ocr_poc.Service.Stages.Done.{FailsOrStores, stage_jev_done}

module _ {F : Type 0} (cfg : Config F) where
  unfoldable pub judge_client : Client
  unfolding new_client
  judge_client = new_client cfg.typesafe_base_url cfg.typesafe_api_key

  unfoldable pub assist_client : AssistClient
  unfolding new_assist_client
  assist_client =
      new_assist_client cfg.openrouter_base_url cfg.openrouter_api_key cfg.openrouter_model

  unfoldable pub or_ocr : OpenRouter
  unfolding new_open_router
  or_ocr = new_open_router cfg.openrouter_base_url cfg.openrouter_api_key cfg.openrouter_ocr_model

  -- The dependencies of the handlers, with the search for the binary.
  unfoldable pub deps : Binary → Deps
  unfolding Tesseract.available new_tesseract
  deps binary = record {
    ocr_available = some (Tesseract.available binary (new_tesseract cfg.tesseract_lang));
    has_ollama = true;
    has_api_key = not (is_empty cfg.typesafe_api_key);
    has_openrouter_key = not (is_empty cfg.openrouter_api_key);
    max_body_bytes = cfg.max_upload_bytes;
    ocr_name = cfg.ocr_engine;
    ollama_model = cfg.ollama_ocr_model;
    openrouter_model = cfg.openrouter_model;
    openrouter_ocr_model = cfg.openrouter_ocr_model;
  }

  is_set : (t : Text) → (not (is_empty t) ≡ true) ↔ (t ≢ [])
  is_set [] = (λ h. absurd (cc h), λ n. absurd (n refl))
  is_set (c ∷ t) = (λ h e. cc, λ n. refl)

  -- The health of the program is "ok" exactly if the database answers, the Tesseract binary is on the
  -- PATH, and the keys of TypeSafe and OpenRouter are set. Ollama, and the engine that is named in the
  -- settings, do not count.
  pub deps-healthy :
      (binary : Binary) (ping : Option Error)
      → ((health (deps binary) ping).status ≡ codes "ok") ↔ (
          (ping ≡ none)
          × (binary.on_path ≡ true)
          × (cfg.typesafe_api_key ≢ [])
          × (cfg.openrouter_api_key ≢ []))
  unfolding deps has_engine Tesseract.available
  deps-healthy binary ping =
      let there = health-ok (deps binary) ping in
      let key = is_set cfg.typesafe_api_key in
      let router_key = is_set cfg.openrouter_api_key in
      (
        λ h. let (a, b, c, e) = there.0 h in (a, b, key.0 c, router_key.0 e),
        λ (a, b, c, e). there.1 (a, b, key.1 c, router_key.1 e),
      )

module _ {F : Type 0} ⦃d : Float F⦄ (cfg : Config F) (net : Network) (json : Json F)
    (transport : Transport) (chat_json : ChatJson F) (inputs : Inputs F) (verbs : Verbs)
    (show_int : Int64 → String) (elapsed : Int64) where
  -- OpenRouter as the engine of the last stage.
  unfoldable pub or_engine : Engine F
  unfolding or_ocr
  or_engine = record {
    name = "*ocr.OpenRouter";
    available = Vision.available (some (or_ocr cfg));
    recognize = Vision.recognize transport verbs inputs elapsed (some (or_ocr cfg));
  }

  -- The last stage as the pipeline calls it.
  unfoldable pub jev_stage :
      {T C : Type 0}
      → (String → Text)
      → Service F T C
      → HopTimes
      → Sights
      → World T C
      → Job F
      → Outcome F T C
  unfolding judge_client assist_client or_engine
  jev_stage text_of s t o w j =
      stage_jev s text_of (some (judge net json verbs show_int elapsed (judge_client cfg)))
        (some (assistant transport chat_json verbs elapsed (assist_client cfg))) (some or_engine) t
        o w j

  -- The last stage of the program either reports an error, or it leaves a job that is done and stored.
  pub jev_stage-FailsOrStores :
      {T C : Type 0} (text_of : String → Text) (s : Service F T C) (laws : IsDb s.db) (t : HopTimes)
      (o : Sights) (w : World T C) (j : Job F)
      → FailsOrStores s laws (jev_stage text_of s t o w j)
  unfolding jev_stage
  jev_stage-FailsOrStores text_of s laws t o w j =
      stage_jev_done s laws text_of
        (some (judge net json verbs show_int elapsed (judge_client cfg)))
        (some (assistant transport chat_json verbs elapsed (assist_client cfg))) (some or_engine) t
        o w j
