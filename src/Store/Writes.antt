-- ===== src/Store/Writes.antt =====
-- internal/store/store.go and postgres.go: writes pass through one goroutine, reads do not. What the
-- other goroutines do to a context in the course of a call is part of the input: `Watch` gives the
-- context's state at the three moments at which a write looks at it.
use invoice_ocr_poc.Base.{
  Bool, true, not, ◌&&◌, ◌||◌, Option, none, some, List, [], ◌∷◌, String, Int64, is_pos, is_neg,
  ltb, if◌then◌else◌,
}
use invoice_ocr_poc.Errors.{Ctx, Error, Result, ok, err, ctx, sentinel, store_closed, wrap}
use invoice_ocr_poc.Store.Invoice.{Invoice, Status}
use invoice_ocr_poc.Store.Db.{Db, Write}

pub record Store (T : Type 0) : Type 0 where
  pub table : T
  pub stopped : Bool
  pub is_postgres : Bool

-- The context at the call, when the writer runs the statement, and when the caller waits for it.
pub record Watch : Type 0 where
  pub entry : Ctx
  pub run : Ctx
  pub wait : Ctx

-- The outcome that the caller's `select` takes: the statement's, unless the context is done first.
abbrev pub awaited : Ctx → Option Error → Option Error
awaited none r = r
awaited (some c) r = some (ctx c)

abbrev pub wrapped : String → Option Error → Option Error
wrapped p none = none
wrapped p (some e) = some (wrap p e)

module _ {T : Type 0} where
  unfoldable pub do_write : (Ctx → T → Write T) → Watch → Store T → Store T × Option Error
  do_write op w s = elim w.entry [
    | some c ↦ (s, some (ctx c))
    | none ↦
        if s.stopped
        then (s, some (sentinel store_closed))
        else let written = op w.run s.table in
          (record s { table = written.0 }, awaited w.wait written.1)
  ]

  -- `Close`: the writer loop ends once the open write is done, and then the handle is closed, for reads
  -- as well; a second call does nothing. `handle` is `DB()`, and `shut` is `Close` of what it gives.
  unfoldable pub close : (T → Option Error) → (T → Write T) → Store T → Store T × Option Error
  close handle shut s =
      let ended = record s { stopped = true } in
      if s.stopped then (s, none) else elim (handle s.table) [
        | some e ↦ (ended, some (wrap "sql db" e))
        | none ↦
            let closed = shut s.table in
            (record ended { table = closed.0 }, wrapped "close sqlite" closed.1)
      ]

-- The clamp of `limit` and `offset` in `List` and `ListByStatus`.
unfoldable pub clamp_limit : Int64 → Int64
clamp_limit limit = if not (is_pos limit) || (is_pos limit && ltb 100 limit) then 20 else limit

unfoldable pub clamp_offset : Int64 → Int64
clamp_offset offset = if is_neg offset then 0 else offset

module _ {F T : Type 0} (db : Db F T) where
  unfoldable pub create : Invoice F → Watch → Store T → Store T × Option Error
  unfolding do_write
  create inv w s = let r = do_write (db.create inv) w s in (r.0, wrapped "create invoice" r.1)

  unfoldable pub update : Invoice F → Watch → Store T → Store T × Option Error
  unfolding do_write
  update inv w s = let r = do_write (db.save inv) w s in (r.0, wrapped "update invoice" r.1)

  unfoldable pub delete : String → Watch → Store T → Store T × Option Error
  unfolding do_write
  delete id w s = let r = do_write (db.delete id) w s in (r.0, wrapped "delete invoice" r.1)

  unfoldable pub get : String → Ctx → Store T → Result (Invoice F)
  get id c s = db.first id c s.table

  abbrev listed : String → Result (List (Invoice F)) → Result (List (Invoice F))
  listed p (ok rows) = ok rows
  listed p (err e) = err (wrap p e)

  unfoldable pub list : Int64 → Int64 → Ctx → Store T → Result (List (Invoice F))
  unfolding clamp_limit clamp_offset
  list limit offset c s =
      listed "list invoices" (db.page none (clamp_limit limit) (clamp_offset offset) c s.table)

  -- `status` is `none` for the empty text.
  unfoldable pub list_by_status :
      Option Status → Int64 → Int64 → Ctx → Store T → Result (List (Invoice F))
  unfolding clamp_limit clamp_offset
  list_by_status status limit offset c s =
      listed "list invoices by status"
        (db.page status (clamp_limit limit) (clamp_offset offset) c s.table)

  -- The loop inside the transaction of `BatchUpdate`: it stops at the first error.
  unfoldable pub save_each : List (Invoice F) → Ctx → T → Write T
  save_each [] c t = (t, none)
  save_each (inv ∷ invs) c t =
      let saved = db.save inv c t in
      elim saved.1 [ some e ↦ (saved.0, some e) | none ↦ save_each invs c saved.0 ]

  unfoldable pub batch_update : List (Invoice F) → Watch → Store T → Store T × Option Error
  unfolding do_write save_each
  batch_update [] w s = (s, none)
  batch_update (inv ∷ invs) w s =
      let r = do_write (db.transaction (save_each (inv ∷ invs))) w s in
      (r.0, wrapped "batch update invoices" r.1)

  unfoldable pub upsert_by_id : Invoice F → Watch → Store T → Store T × Option Error
  unfolding do_write update
  upsert_by_id inv w s =
      let r = do_write (db.save inv) w s in
      if s.is_postgres then (r.0, wrapped "upsert invoice" r.1) else update inv w s
