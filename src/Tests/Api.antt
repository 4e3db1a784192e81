-- ===== src/Tests/Api.antt =====
-- An upload and a finished job, as the API shows them.
use invoice_ocr_poc.Base.{ℕ, [], ◌≡◌, ◌↔◌, refl, add64}
use invoice_ocr_poc.Base.Assoc.{lookup}
use invoice_ocr_poc.Float.{Micros, micros_float}
use invoice_ocr_poc.Strings.{codes, same_text}
use invoice_ocr_poc.Errors.{Result, ok, live}
use invoice_ocr_poc.Store.Invoice.{Invoice, done, processing}
use invoice_ocr_poc.Store.Db.{rows_db-IsDb}
use invoice_ocr_poc.Store.Writes.{do_write, create, update}
use invoice_ocr_poc.Service.Uploads.{
  enqueue, store_upload, submit_invoice, write_limited, resolve_image_type, allowed_mime,
  sanitize_name, drop_dots, get_invoice,
}
use invoice_ocr_poc.Service.Cascade.{engine_available}
use invoice_ocr_poc.Service.Stages.{stage_jev, apply_open_router_ocr, judge_job, store_judged}
use invoice_ocr_poc.Service.Judging.{judge_with_assist, judge_with, wants_assist, evaluate_judge}
use invoice_ocr_poc.Jev.Explain.{explain}
use invoice_ocr_poc.Jev.Client.{judge_attempt, post, evaluate}
use invoice_ocr_poc.Http.{status_error}
use invoice_ocr_poc.Httpserver.Faithful.{IsFaithful, last_stage, stage_jev-IsFaithful}
use invoice_ocr_poc.Tests.Clients.{network, json, verbs, client}
use invoice_ocr_poc.Httpserver.Handlers.{
  FormFile, Render, process_image, get_invoice_handler, get_analysis,
}
use invoice_ocr_poc.Httpserver.Polling.{IsPolled, process_image-IsPolled, get_analysis-done}
use invoice_ocr_poc.Tests.Data.{open_store, service, times, sights, world, one_job}
use invoice_ocr_poc.Tests.Uploads.{uploads, files_disk-IsDisk, empty_intake, calm}

abbrev pub render : Render Micros
render = record { unmarshal = λ json. []; fixed2 = λ x. "x" }

abbrev form : Result (FormFile ℕ)
form =
    ok (record { filename = codes "cupom.jpg"; content_type = codes "image/jpeg"; opened = ok 50 })

-- A worker has begun with the invoice.
abbrev taken_up : Invoice Micros → Invoice Micros
taken_up inv = record inv { status = processing }

process_image-IsPolled_example :
    let r = process_image uploads render form taken_up calm empty_intake in
    IsPolled uploads render
      (rows_db-IsDb Micros)
      files_disk-IsDisk
      taken_up
      calm
      r.1
      empty_intake
      r.0
      open_store
unfolding process_image enqueue store_upload submit_invoice write_limited resolve_image_type
    allowed_mime sanitize_name drop_dots same_text create do_write add64 lookup
process_image-IsPolled_example =
    process_image-IsPolled uploads render (rows_db-IsDb Micros) files_disk-IsDisk form taken_up calm
      empty_intake open_store (λ i. refl) refl

get_analysis-done_example :
    (((get_analysis uploads render "inv1" live open_store).0 ≡ 200) ↔ (
      (inv : Invoice Micros) × (get_invoice uploads "inv1" live open_store ≡ ok inv)
      × (inv.status ≡ done)))
    × (((get_analysis uploads render "inv1" live open_store).0 ≡ 404)
        ↔ ((get_invoice_handler uploads render "inv1" live open_store).0 ≡ 404))
get_analysis-done_example = get_analysis-done uploads render "inv1" live open_store

stage_jev-IsFaithful_example :
    let out =
      last_stage service
        (λ x. "x")
        network
        json
        verbs
        (λ n. "n")
        5
        client
        codes
        times
        sights
        world
        one_job in
    IsFaithful (λ x. "x") (explain (λ x. "x") out.1.inv)
unfolding post judge_attempt status_error stage_jev apply_open_router_ocr judge_job
    judge_with_assist judge_with wants_assist evaluate_judge store_judged evaluate engine_available
    update
stage_jev-IsFaithful_example =
    stage_jev-IsFaithful service (λ x. "x") network json verbs (λ n. "n") 5 client codes times
      sights world one_job refl refl
