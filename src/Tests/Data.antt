-- ===== src/Tests/Data.antt =====
-- Values for the tests: invoices, stores, contexts, a hash, and a service over them.
use invoice_ocr_poc.Base.{
  ℕ, leb, ◌&&◌, if◌then◌else◌, Bool, true, false, none, some, [], ◌∷◌, String,
}
use invoice_ocr_poc.Float.{Micros, micros_float}
use invoice_ocr_poc.Strings.{Text, codes, same_text}
use invoice_ocr_poc.Errors.{ok, deadline_exceeded, canceled}
use invoice_ocr_poc.Store.Invoice.{Invoice, new_invoice, processing}
use invoice_ocr_poc.Store.Db.{Rows}
use invoice_ocr_poc.Store.Writes.{Store, Watch}
use invoice_ocr_poc.Store.Db.{rows_db}
use invoice_ocr_poc.Cache.Memory.{MemoryCache, memory_cache}
use invoice_ocr_poc.Jev.Answers.{no_judgment, no_usage}
use invoice_ocr_poc.Service.Types.{Judge, Service, World, Job, new_job}
use invoice_ocr_poc.Service.Judging.{HopTimes}
use invoice_ocr_poc.Service.Stages.{Sights}

abbrev pub invoice : Invoice Micros
invoice = new_invoice "inv1" (codes "cupom.jpg") (codes "/up/inv1.jpg") (codes "image/jpeg")

abbrev pub in_progress : Invoice Micros
in_progress = record invoice { status = processing }

abbrev pub other_invoice : Invoice Micros
other_invoice = new_invoice "inv2" (codes "b.png") (codes "/up/inv2.png") (codes "image/png")

abbrev pub open_store : Store (Rows Micros)
open_store = record { table = ("inv1", invoice) ∷ []; stopped = false; is_postgres = false }

abbrev pub awake : Watch
awake = record { entry = none; run = none; wait = none }

-- A context that ends while the caller waits for the writer, while the writer is at it, and before.
abbrev pub late : Watch
late = record { entry = none; run = none; wait = some deadline_exceeded }

abbrev pub cut_off : Watch
cut_off = record { entry = none; run = some canceled; wait = none }

abbrev pub expired : Watch
expired = record {
  entry = some deadline_exceeded;
  run = some deadline_exceeded;
  wait = some deadline_exceeded;
}

-- A hash that tells one text from all others.
abbrev pub short_hash : Text → String
short_hash t = if same_text t (codes "CAFE") then "c0" else "ff"

abbrev pub memory : MemoryCache Micros
memory = record { entries = []; ttl = 60; enabled = true; hits = 0; misses = 0 }

abbrev pub is_ascii_letter : ℕ → Bool
is_ascii_letter c = leb b'A' c && leb c b'z'

abbrev pub service : Service Micros (Rows Micros) (MemoryCache Micros)
service = record {
  db = rows_db;
  cache = some (memory_cache short_hash);
  prepare = λ path. ok path;
  marshal = λ items. ok "[]";
  is_letter = is_ascii_letter;
  min_confidence = micros_float.decimal 1 1;
}

abbrev pub world : World (Rows Micros) (MemoryCache Micros)
world = record { store = open_store; cached = memory; asked = [] }

abbrev pub sights : Sights
sights = record {
  watch = awake;
  fail_watch = awake;
  now = 100;
  job_took = 9;
  stage_took = 5;
  hop_took = 4;
  db_took = 1;
}

-- The job's deadline is over when the failure is written.
abbrev pub late_sights : Sights
late_sights = record sights { fail_watch = expired }

abbrev pub one_job : Job Micros
one_job = new_job in_progress

-- A judge that wants every receipt reviewed.
abbrev pub strict_judge : Judge Micros
strict_judge = record {
  evaluate = λ state. (record no_judgment { needs_review = true }, no_usage, none);
}

abbrev pub times : HopTimes
times = record { assist_took = 3; jev_took = 4; again_took = 5 }
