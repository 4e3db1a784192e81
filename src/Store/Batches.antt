-- ===== src/Store/Batches.antt =====
-- internal/store: `BatchCreate` and `CountByStatus` of postgres.go, and `Ping` of store.go. The insert
-- in batches, the grouped query and the ping are gorm's and the driver's.
use invoice_ocr_poc.Base.{ℕ, Option, none, some, List, [], ◌∷◌, String, Int64}
use invoice_ocr_poc.Base.Assoc.{insert}
use invoice_ocr_poc.Errors.{Ctx, Error, Result, ok, err, wrap}
use invoice_ocr_poc.Store.Db.{Write}
use invoice_ocr_poc.Store.Invoice.{Invoice}
use invoice_ocr_poc.Store.Writes.{Store, Watch, do_write, wrapped}

-- The loop that fills the map.
abbrev tally : List (String × Int64) → List (String × Int64) → List (String × Int64)
tally [] counts = counts
tally ((status, n) ∷ results) counts = tally results (insert status n counts)

abbrev tallied : Result (List (String × Int64)) → Result (List (String × Int64))
tallied (err e) = err (wrap "count by status" e)
tallied (ok results) = ok (tally results [])

module _ {T : Type 0} where
  -- `create_in_batches` gets the size of a batch.
  unfoldable pub batch_create :
      {F : Type 0}
      → (ℕ → List (Invoice F) → Ctx → T → Write T)
      → List (Invoice F)
      → Watch
      → Store T
      → Store T × Option Error
  unfolding do_write
  batch_create create_in_batches [] w s = (s, none)
  batch_create create_in_batches (inv ∷ invs) w s =
      let r = do_write (create_in_batches 100 (inv ∷ invs)) w s in
      (r.0, wrapped "batch create invoices" r.1)

  unfoldable pub count_by_status :
      (Ctx → T → Result (List (String × Int64))) → Ctx → Store T → Result (List (String × Int64))
  unfolding insert
  count_by_status scan c s = tallied (scan c s.table)

  unfoldable pub ping : (T → Option Error) → (Ctx → T → Option Error) → Ctx → Store T → Option Error
  ping handle ping_context c s = elim (handle s.table) [
    | some e ↦ some (wrap "sql db" e)
    | none ↦ wrapped "ping sqlite" (ping_context c s.table)
  ]
