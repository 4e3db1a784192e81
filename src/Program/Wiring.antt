-- ===== src/Program/Wiring.antt =====
-- cmd/api/main.go: the pipeline that `run` makes of the settings that `config.Load` accepts.
use invoice_ocr_poc.Base.{
  String, subst, if◌then◌else◌, ◌≡◌, refl, Int64, is_pos, arith, Option, none, some,
}
use invoice_ocr_poc.Errors.{Error, Result, ok, err}
use invoice_ocr_poc.Float.{Float}
use invoice_ocr_poc.Strings.{codes}
use invoice_ocr_poc.Config.Fields.{Config, Viper}
use invoice_ocr_poc.Config.Dotenv.{Files, dotenv_value}
use invoice_ocr_poc.Config.Load.{keys, bind_all, read_config}
use invoice_ocr_poc.Config.Validate.{
  Format, refusal, accept, checks, validate, merge_onto_defaults, finish, load,
}
use invoice_ocr_poc.Config.Validate.Ranges.{IsValid, IsPositive}
use invoice_ocr_poc.Config.Validate.Equivalence.{validate-IsValid}
use invoice_ocr_poc.Worker.Pipeline.{PipelineOptions, apply_defaults}

-- The options of the pipeline, less the stages' functions and the logger.
unfoldable pub pipeline_options : {F : Type 0} → Config F → PipelineOptions
pipeline_options cfg = record {
  prep_n = cfg.prep_workers;
  ocr_n = cfg.worker_count_local;
  jev_n = cfg.worker_count_api;
  ingest_buffer = cfg.ingest_buffer;
  ocr_buffer = cfg.ocr_buffer;
  jev_buffer = cfg.jev_buffer;
  job_timeout = cfg.job_timeout;
}

accept-same {ℓ} :
    {A : Type ℓ} (o : Option Error) (a b : A) → accept o a ≡ ok b → (a ≡ b) × (accept o a ≡ ok a)
accept-same none a b h = (cc, refl)
accept-same (some e) a b h = absurd (cc h)

kept : (n fallback : Int64) → IsPositive n → (if is_pos n then n else fallback) ≡ n
kept n fallback h = ground arith

module _ {F V : Type 0} ⦃d : Float F⦄ (w : Viper F V) (fm : Format F) where
  validate-same : (v : V) (c b : Config F) → validate w fm v c ≡ ok b → IsValid b
  unfolding validate
  validate-same v c b h =
      let (same, accepted) = accept-same (refusal (checks w fm v c)) c b h in
      subst IsValid same ((validate-IsValid w fm v c).0 accepted)

  finish-IsValid :
      (fs : Files) (merged : Result (String × V)) (c : Config F)
      → finish w fm fs merged ≡ ok c
      → IsValid c
  finish-IsValid fs (ok (path, v)) c h =
      validate-same v
        (read_config w (dotenv_value fs path (codes "TYPESAFE_API_KEY"))
          (dotenv_value fs path (codes "OPENROUTER_API_KEY")) v)
        c h
  finish-IsValid fs (err e) c h = absurd (cc h)

  pub load-IsValid : (fs : Files) (c : Config F) → load w fm fs ≡ ok c → IsValid c
  unfolding load
  load-IsValid fs c h =
      finish-IsValid fs (merge_onto_defaults w fm fs (bind_all w keys w.fresh)) c h

  -- A pipeline that is made of settings which `Load` accepted prepares with PREP_WORKERS, reads with the
  -- local worker count and judges with the API worker count, has the channels' sizes INGEST_BUFFER,
  -- OCR_BUFFER and JEV_BUFFER, and the job's time limit, all of the settings: none is replaced by a
  -- default of the pipeline.
  pub load-pipeline_options :
      (fs : Files) (c : Config F)
      → load w fm fs ≡ ok c
      → apply_defaults (pipeline_options c) ≡ record {
        prep_n = c.prep_workers;
        ocr_n = c.worker_count_local;
        jev_n = c.worker_count_api;
        ingest_buffer = c.ingest_buffer;
        ocr_buffer = c.ocr_buffer;
        jev_buffer = c.jev_buffer;
        job_timeout = c.job_timeout;
      }
  unfolding apply_defaults pipeline_options
  load-pipeline_options fs c h =
      let (
        h0,
        (
          h1,
          (
            h2,
            (
              prep,
              (
                h4,
                (
                  h5,
                  (ingest, (ocr, (jev, (time, (h10, (h11, (h12, (h13, (local, (api, rest)))))))))),
                ),
              ),
            ),
          ),
        ),
      ) =
        (load-IsValid fs c h).positive in
      simp (
        kept c.prep_workers 1 prep,
        kept c.worker_count_local 1 local,
        kept c.worker_count_api 1 api,
        kept c.ingest_buffer 1 ingest,
        kept c.ocr_buffer 1 ocr,
        kept c.jev_buffer 1 jev,
        kept c.job_timeout 90000000000 time,
      )
