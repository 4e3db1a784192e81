-- ===== src/Tests/Jobs.antt =====
-- A job from its reading to its end: the cascade, the stages and the cache.
use invoice_ocr_poc.Base.{
  ◌≢◌, true, false, none, some, [], ◌∷◌, ◌⊎◌, ◌≡◌, refl, sym, ◌∙◌, String, is_empty, eq_iff, arith,
}
use invoice_ocr_poc.Float.{Micros, micros_float, nought}
use invoice_ocr_poc.Strings.{Text, codes, same_text, byte_length, trim_space, trim_by, is_space}
use invoice_ocr_poc.Errors.{Error, ok, err, ctx, deadline_exceeded, wrap, join, message}
use invoice_ocr_poc.Extract.{no_extract}
use invoice_ocr_poc.Ocr.Usage
use invoice_ocr_poc.Store.Invoice.{Invoice, done, failed}
use invoice_ocr_poc.Store.Db.{rows_db, rows_db-IsDb}
use invoice_ocr_poc.Store.Writes.{update, do_write}
use invoice_ocr_poc.Store.Persistence.{row_of}
use invoice_ocr_poc.Base.Assoc.{lookup, insert}
use invoice_ocr_poc.Strings.{split, contains_char, replace_char}
use invoice_ocr_poc.Strings
use invoice_ocr_poc.Regex.{submatch, matches, captures, replace_all}
use invoice_ocr_poc.Ocr.Clean.{
  clean_text, kept_lines, kind_of, trim_ocr_fences, collapse, drop_trailing, is_noise,
  is_separator_line,
}
use invoice_ocr_poc.Extract.{round2}
use invoice_ocr_poc.Extract.Patterns.{
  br_money, qty_prefix, qty_times, qty_inline, total_line, meta_line, pay_line, barcode, junk_desc,
}
use invoice_ocr_poc.Extract.Parse.{
  parse, fields_from, strip_numbers, product_name, looks_like_product, parse_money, amounts_of,
  parse_amounts, captured_quantity, parse_qty, item_from_line, scan_amounts, scan_words, scan_line,
  scan_lines, sum_items, finish,
}
use invoice_ocr_poc.Service.Apply.{apply_judgment, apply_jev_usage}
use invoice_ocr_poc.Cache.Entry.{Entry}
use invoice_ocr_poc.Cache.Memory.{memory_cache, memory_cache-IsCache, get, set, is_expired}
use invoice_ocr_poc.Jev.Answers.{no_judgment, no_usage}
use invoice_ocr_poc.Service.Types.{
  Engine, Job, new_job, below_min_confidence, extract_confidence, needs_escalate,
}
use invoice_ocr_poc.Service.Cascade.{
  read_result, recognize_one, recognize_cascade, second_hop, keeps_first,
}
use invoice_ocr_poc.Service.Cascade.Order.{Answers, cascade_skips_second, recognize_cascade_answers}
use invoice_ocr_poc.Service.Judging.{
  judge_with_assist, judge_with, wants_assist, evaluate_judge, Judged,
}
use invoice_ocr_poc.Service.Stages.{
  done_invoice, stage_ocr, stage_jev, store_judged, replay_entry, cache_set, named_cause,
}
use invoice_ocr_poc.Service.Stages.Failure.{stage_ocr_failed, stage_ocr_expired}
use invoice_ocr_poc.Service.Stages.Done.{FailsOrStores, stage_jev_done, stage_jev_stores}
use invoice_ocr_poc.Service.Stages.Replay.{verdict_of, replay_same}
use invoice_ocr_poc.Service.Stages.Keys.{hop_leaves_key}
use invoice_ocr_poc.Tests.Data.{
  other_invoice, in_progress, open_store, short_hash, memory, service, world, sights, late_sights,
  strict_judge, times, one_job,
}

-- Tesseract reads a line with an item, OpenRouter something else.
abbrev coffee_line : Usage.Result Micros
coffee_line = record { text = codes "CAFE 5,00"; confidence = nought; usage = Usage.no_usage }

abbrev cake_line : Usage.Result Micros
cake_line = record coffee_line { text = codes "BOLO" }

abbrev tesseract : Engine Micros
tesseract = record { name = "tesseract"; available = true; recognize = λ img. ok coffee_line }

abbrev open_router : Engine Micros
open_router = record { name = "openrouter"; available = true; recognize = λ img. ok cake_line }

abbrev broken : Engine Micros
broken = record {
  name = "ollama";
  available = true;
  recognize = λ img. err (ctx deadline_exceeded);
}

recognize_cascade_answers_example :
    Answers service
      (some broken)
      (some tesseract)
      (recognize_one service [] (some broken) []).1
      (recognize_one service [] (some tesseract) []).1
      (recognize_cascade service [] (some broken) (some tesseract) []).1
recognize_cascade_answers_example =
    recognize_cascade_answers service [] (some broken) (some tesseract) []

-- The items of the reading.
coffee_found : is_empty (read_result service coffee_line).parsed.items ≡ false
unfolding read_result clean_text kept_lines kind_of trim_ocr_fences collapse drop_trailing is_noise
    is_separator_line Strings.join Strings.before Strings.cut_prefix split trim_space trim_by
    is_space parse contains_char replace_char captures br_money matches submatch replace_all
    qty_prefix qty_times qty_inline total_line meta_line pay_line barcode junk_desc fields_from
    strip_numbers product_name looks_like_product parse_money amounts_of parse_amounts
    captured_quantity parse_qty item_from_line scan_amounts scan_words scan_line scan_lines
    sum_items finish round2
coffee_found = refl

cascade_skips_second_example : recognize_cascade service [] (some tesseract) (some broken) [] ≡ (
  "tesseract" ∷ [],
  ok (record {
    reading = read_result service coffee_line;
    engine = "tesseract";
    escalated = false;
  }),
)
cascade_skips_second_example =
    cascade_skips_second service [] tesseract (some broken) [] coffee_line refl refl coffee_found

-- Neither engine can read the image: the second one misses the deadline.
abbrev unread : Error
unread = wrap "ocr" (join (ctx deadline_exceeded) (ctx deadline_exceeded))

stage_ocr_failed_example :
    let r = stage_ocr service (some broken) (some broken) sights world one_job in
    let cause = named_cause service (wrap "ocr" unread) in
    let inv : Invoice Micros = record in_progress {
      processing_ms = 9;
      status = failed;
      error_message = message cause;
      needs_review = true;
    } in
    (row_of rows_db (rows_db-IsDb Micros) r.0.store "inv1" ≡ some inv)
    × (row_of rows_db (rows_db-IsDb Micros) r.0.store "inv2"
        ≡ row_of rows_db (rows_db-IsDb Micros) open_store "inv2")
    × (r.1 ≡ record one_job { inv = inv })
    × (r.2 ≡ some cause)
unfolding recognize_cascade recognize_one keeps_first second_hop
stage_ocr_failed_example =
    stage_ocr_failed service (rows_db-IsDb Micros) (some broken) (some broken) sights world one_job
      unread "inv2" refl refl refl refl refl (ground (arith, eq_iff "inv1" "inv2"))

stage_ocr_expired_example :
    let r = stage_ocr service (some broken) (some broken) late_sights world one_job in
    (r.0.store ≡ open_store)
    × (r.2 ≡ some (wrap "save failed invoice" (wrap "update invoice" (ctx deadline_exceeded))))
unfolding recognize_cascade recognize_one keeps_first second_hop
stage_ocr_expired_example =
    stage_ocr_expired service (some broken) (some broken) late_sights world one_job unread
      deadline_exceeded refl refl

stage_jev_done_example :
    FailsOrStores service
      (rows_db-IsDb Micros)
      (stage_jev service codes (some strict_judge) none none times sights world one_job)
stage_jev_done_example =
    stage_jev_done service (rows_db-IsDb Micros) codes (some strict_judge) none none times sights
      world one_job

stage_jev_stores_example :
    let r =
      judge_with_assist codes
        (some strict_judge)
        none
        one_job.ocr_res.text
        one_job.parsed
        times
        one_job in
    let inv = done_invoice service r "[]" 9 in
    let out = stage_jev service codes (some strict_judge) none none times sights world one_job in
    (out.2 ≡ none)
    × (out.1.inv ≡ inv)
    × (row_of rows_db (rows_db-IsDb Micros) out.0.store inv.id ≡ some inv)
    × (inv.status ≡ done)
    × (inv.items_json ≡ "[]")
    × (inv.needs_review ≡ r.judgment.needs_review)
unfolding judge_with_assist judge_with wants_assist evaluate_judge
stage_jev_stores_example =
    stage_jev_stores service (rows_db-IsDb Micros) codes (some strict_judge) none times sights world
      one_job "[]" refl refl refl refl refl refl refl

-- A judgment of the text that has an own hash, and a hit of another job.
abbrev coffee_job : Job Micros
coffee_job = record one_job { ocr_res = record coffee_line { text = codes "CAFE" } }

abbrev coffee_judged : Judged Micros
coffee_judged = record {
  job = coffee_job;
  parsed = no_extract;
  judgment = record no_judgment { needs_review = true };
  usage = no_usage;
  error = none;
}

abbrev other_job : Job Micros
other_job = new_job other_invoice

abbrev kept_entry : Entry Micros
kept_entry = record {
  ocr_text = codes "CAFE";
  ocr_confidence = nought;
  parsed = no_extract;
  judgment = record no_judgment { needs_review = true };
  jev_usage = no_usage;
  assist_used = false;
  assist_notes = [];
  assist_model = "";
  open_router_tokens = 0;
  ollama_duration_ms = 0;
  created_at = 100;
}

replay_same_example :
    verdict_of (replay_entry service kept_entry sights world other_job).1.inv
    ≡ verdict_of (store_judged service coffee_judged sights world).1.inv
unfolding store_judged replay_entry update do_write cache_set set get is_expired lookup insert
    same_text apply_judgment apply_jev_usage
replay_same_example =
    replay_same service (memory_cache short_hash) (memory_cache-IsCache short_hash) refl
      coffee_judged sights sights world world other_job 150 kept_entry
      (store_judged service coffee_judged sights world).0.cached refl refl refl refl refl

cake_hash : short_hash (read_result service cake_line).res.text ≡ "ff"
unfolding read_result clean_text kept_lines kind_of trim_ocr_fences collapse drop_trailing is_noise
    is_separator_line Strings.join Strings.before Strings.cut_prefix split trim_space trim_by
    is_space same_text
cake_hash = refl

hashes_differ : ◌≢◌ {A = String} "ff" "c0"
hashes_differ = ground (arith, eq_iff "ff" "c0")

coffee_hash : short_hash (codes "CAFE") ≡ "c0"
unfolding same_text
coffee_hash = refl

cake_hashes :
    ◌≢◌ {A = String}
      (short_hash (read_result service cake_line).res.text)
      (short_hash (codes "CAFE"))
cake_hashes h = hashes_differ (sym cake_hash ∙ h ∙ coffee_hash)

hop_leaves_key_example :
    let cached =
      (stage_jev service codes
        (some strict_judge)
        none
        (some open_router)
        times
        sights
        world
        coffee_job).0.cached in
    ((memory_cache-IsCache short_hash).entry cached (short_hash (codes "CAFE"))
      ≡ (memory_cache-IsCache short_hash).entry memory (short_hash (codes "CAFE")))
    × (((old : Entry Micros) × ((memory_cache-IsCache short_hash).entry memory
              (short_hash (codes "CAFE"))
            ≡ some old))
        ⊎ (((memory_cache short_hash).get 200 (codes "CAFE") cached).1 ≡ none))
unfolding memory_cache-IsCache below_min_confidence extract_confidence needs_escalate byte_length
    trim_space trim_by is_space
hop_leaves_key_example =
    hop_leaves_key service (memory_cache short_hash) (memory_cache-IsCache short_hash) refl codes
      (some strict_judge) none open_router times sights world coffee_job cake_line 200 refl refl
      refl refl cake_hashes
