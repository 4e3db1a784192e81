-- ===== src/Tests/Store.antt =====
-- The store of internal/store over an association list, and the cache in memory.
use invoice_ocr_poc.Base.{
  ◌≢◌, true, false, none, some, [], ◌∷◌, ◌≡◌, refl, arith, String, add64, if◌then◌else◌, is_pos,
  ltb, ◌&&◌, ◌-◌, eq_iff,
}
use invoice_ocr_poc.Base.Assoc.{lookup}
use invoice_ocr_poc.Float.{Micros, micros_float}
use invoice_ocr_poc.Strings.{codes, same_text}
use invoice_ocr_poc.Store.Db.{Rows, rows_db, rows_db-IsDb}
use invoice_ocr_poc.Store.Writes.{Store, do_write, update, batch_update}
use invoice_ocr_poc.Store.Persistence.{
  row_of, update_acknowledged, AllOrNothing, batch_update_atomic,
}
use invoice_ocr_poc.Cache.Entry.{Entry}
use invoice_ocr_poc.Cache.Memory.{MemoryCache, get, set, get-set}
use invoice_ocr_poc.Extract.{no_extract}
use invoice_ocr_poc.Jev.Answers.{no_judgment, no_usage}
use invoice_ocr_poc.Tests.Data.{in_progress, other_invoice, open_store, awake, short_hash, memory}

ids_differ : ◌≢◌ {A = String} "inv1" "inv2"
ids_differ = ground (arith, eq_iff "inv1" "inv2")

abbrev after_update : Store (Rows Micros)
after_update = (update rows_db in_progress awake open_store).0

update_acknowledged_example :
    (row_of rows_db (rows_db-IsDb Micros) after_update "inv1" ≡ some in_progress)
    × (row_of rows_db (rows_db-IsDb Micros) after_update "inv2"
        ≡ row_of rows_db (rows_db-IsDb Micros) open_store "inv2")
unfolding update do_write
update_acknowledged_example =
    update_acknowledged rows_db (rows_db-IsDb Micros) in_progress awake open_store "inv2" refl
      ids_differ

batch_update_atomic_example :
    let invs = in_progress ∷ other_invoice ∷ [] in
    AllOrNothing rows_db
      (rows_db-IsDb Micros)
      invs
      open_store
      (batch_update rows_db invs awake open_store)
      "inv1"
batch_update_atomic_example =
    batch_update_atomic rows_db (rows_db-IsDb Micros) (in_progress ∷ other_invoice ∷ []) awake
      open_store "inv1" refl

abbrev pub entry : Entry Micros
entry = record {
  ocr_text = codes "CAFE";
  ocr_confidence = micros_float.decimal 1 1;
  parsed = no_extract;
  judgment = no_judgment;
  jev_usage = no_usage;
  assist_used = false;
  assist_notes = [];
  assist_model = "";
  open_router_tokens = 0;
  ollama_duration_ms = 0;
  created_at = 0;
}

abbrev off : MemoryCache Micros
off = record memory { enabled = false }

hashes_differ : ◌≢◌ {A = String} "c0" "ff"
hashes_differ = ground (arith, eq_iff "c0" "ff")

-- Stored at 100 and looked up at 150, within the TTL of 60.
get-set_example :
    let r = get short_hash 150 (codes "CAFE") (set short_hash 100 (codes "CAFE") entry memory) in
    let fresh = if is_pos memory.ttl && ltb memory.ttl (150 - 100) then false else true in
    (r.1 ≡ (if fresh then some (record entry { created_at = 100 }) else none))
    × (r.0.hits ≡ (if fresh then add64 memory.hits 1 else memory.hits))
    × (r.0.misses ≡ (if fresh then memory.misses else add64 memory.misses 1))
    × (lookup (short_hash (codes "CAFE")) r.0.entries ≡ r.1)
    × (lookup "ff" r.0.entries ≡ lookup "ff" memory.entries)
unfolding same_text
get-set_example = get-set short_hash 100 150 (codes "CAFE") entry memory "ff" refl hashes_differ
