-- ===== src/System/Published.antt =====
-- What clients of the whole service can rely on: the jobs that the pipeline is through with have their
-- analysis published, in every order of uploads, workers and shutdown.
use invoice_ocr_poc.Base.{◌<◌, false, ◌≡◌, ◌⊎◌, inl, inr, refl, String, str_eq, arith}
use invoice_ocr_poc.Float.{Float}
use invoice_ocr_poc.Errors.{live}
use invoice_ocr_poc.Store.Invoice.{Invoice, done}
use invoice_ocr_poc.Store.Db.{IsDb}
use invoice_ocr_poc.Service.Types.{Service, World}
use invoice_ocr_poc.Service.Uploads.{Uploads}
use invoice_ocr_poc.Jev.Explain.{explain}
use invoice_ocr_poc.Httpserver.Handlers.{Render, analysis, get_analysis}
use invoice_ocr_poc.Httpserver.Polling.{get_invoice-row, analysis_done}
use invoice_ocr_poc.Worker.Stage.{count, new_stage}
use invoice_ocr_poc.Worker.Pipeline.{PipelineOptions, AllLeft, start, begin}
use invoice_ocr_poc.Worker.Drain.{drained}
use invoice_ocr_poc.System.Counts.{times}
use invoice_ocr_poc.System.Steps.{
  Line, System, Moves, uploads, runs, hands_on, started, Reached, begins, goes_on,
}
use invoice_ocr_poc.System.Invariant.{Ok, returned-Ok}
use invoice_ocr_poc.System.Handing.{moved-Ok}
use invoice_ocr_poc.System.Uploading.{uploaded-Ok}

module _ {F T C D B : Type 0} ⦃d : Float F⦄ (s : Service F T C) (laws : IsDb s.db)
    (u : Uploads F T D B (Line F)) where
  started-Ok :
      (opts : PipelineOptions) (w : World T C) (files : D) → Ok s laws opts (started opts w files)
  unfolding started start new_stage times count
  started-Ok opts w files = record {
    reachable = begin;
    unique = λ k. omega arith;
    own = λ k. refl;
    at_workers = λ k r e. cc;
    done_rows = λ k there. absurd (omega (arith, there));
    jev_rows = λ k there e. absurd (omega (arith, there));
  }

  pub moves-Ok :
      {opts : PipelineOptions} {x y : System F T C D}
      → Ok s laws opts x
      → Moves s u x y
      → Ok s laws opts y
  moves-Ok h (uploads input o fresh) = uploaded-Ok s laws u input o h fresh
  moves-Ok h (runs run idle) = returned-Ok s laws h run idle
  moves-Ok h (hands_on step same agrees) = moved-Ok s laws h step same agrees

  pub Reached-Ok :
      {opts : PipelineOptions} {x : System F T C D} → Reached s u opts x → Ok s laws opts x
  Reached-Ok {opts = opts} (begins w files) = started-Ok opts w files
  Reached-Ok (goes_on r step) = moves-Ok (Reached-Ok r) step

  module _ (render : Render F) where
    -- A poll for the analysis of an identifier is answered with 200 and the explanation of an invoice
    -- that is done.
    abbrev pub IsPublished : System F T C D → String → Type 0
    IsPublished x id =
        (inv : Invoice F) × (inv.status ≡ done)
        × (get_analysis (record u { db = s.db }) render id live x.world.store
            ≡ (200, analysis (explain render.fixed2 inv)))

    -- In every state that a started service can come to, in whatever order uploads, workers and a shutdown
    -- take their steps: a job that the pipeline is through with has its analysis published. A poll for it
    -- is answered with 200 and the explanation of an invoice that is done.
    pub done-IsPublished :
        {opts : PipelineOptions} {x : System F T C D} (id : String)
        → Reached s u opts x
        → 0 < times id x.line.pipe.done
        → IsPublished x id
    unfolding get_analysis
    done-IsPublished {x = x} id r there =
        let (inv, row, finished) = (Reached-Ok r).done_rows id there in
        let here : Uploads F T D B (Line F) = record u { db = s.db } in
        (
          inv,
          finished,
          rw (get_invoice-row here render laws id x.world.store inv row)
              (analysis_done here render inv finished),
        )

    -- When all workers of a service have returned without a hard stop, every upload that was accepted has
    -- its analysis published, or its job has failed.
    pub drained-IsPublished :
        {opts : PipelineOptions} {x : System F T C D} (id : String)
        → Reached s u opts x
        → x.line.pipe.canceled ≡ false
        → AllLeft x.line.pipe.prep
        → AllLeft x.line.pipe.ocr
        → AllLeft x.line.pipe.jev
        → 0 < times id x.line.pipe.accepted
        → IsPublished x id ⊎ (0 < times id x.line.pipe.failed)
    unfolding times
    drained-IsPublished {x = x} id r live gone_prep gone_ocr gone_jev there =
        let (a, b, c, e, balance) =
          drained (str_eq id) (Reached-Ok r).reachable live gone_prep gone_ocr gone_jev in
        let either : (0 < times id x.line.pipe.done) ⊎ (0 < times id x.line.pipe.failed) =
          ground (arith, balance, there) in
        elim either [ inl ended ↦ inl (done-IsPublished id r ended) | inr bad ↦ inr bad ]
