-- ===== src/Store/Opening.antt =====
-- internal/store: `Open` of store.go, and `OpenPostgres` of postgres.go. The database's driver is a
-- parameter; the settings of gorm are left out.
use Prim.Native.String.{◌++◌}
use invoice_ocr_poc.Base.{
  Bool, true, false, Option, none, some, List, [], ◌∷◌, ◌++◌ as cat, ◌≡◌, refl, ◌⊎◌, inl, inr, map,
  String, str_eq, if◌then◌else◌, Option-cases,
}
use invoice_ocr_poc.Errors.{Error, Result, ok, err, wrap}
use invoice_ocr_poc.Store.Writes.{Store}

-- `os.MkdirAll`, `gorm.Open`, `db.DB`, the statements, the migration and the closing of a handle.
pub record Driver (H : Type 0) : Type 0 where
  pub make_dir : String → Option Error
  pub connect : String → Result H
  pub handle : H → Option Error
  pub exec : String → H → H × Option Error
  pub migrate : H → H × Option Error
  pub close : H → H

-- `PostgresOptions`, as far as `OpenPostgres` reads it; `dsn` is the text of the connection, and `pool`
-- sets the limits of the pool.
pub record PostgresSettings (H : Type 0) : Type 0 where
  pub dsn : String
  pub pool : H → H
  pub sync_commit : String
  pub work_mem : String

module _ {H : Type 0} (driver : Driver H) where
  -- A statement or the migration, and the error that its error is wrapped in.
  abbrev pub Task : Type 0
  Task = (H → H × Option Error) × (Error → Error)

  -- The tasks behind the connection: the first error closes the handle.
  unfoldable pub run_tasks : List Task → H → H × Option Error
  run_tasks [] h = (h, none)
  run_tasks ((task, named) ∷ rest) h =
      let r = task h in
      elim r.1 [ none ↦ run_tasks rest r.0 | some e ↦ (driver.close r.0, some (named e)) ]

  abbrev statement : String → String → Task
  statement prefix sql = (driver.exec sql, wrap prefix)

  abbrev migration : Task
  migration = (driver.migrate, wrap "migrate")

  abbrev pub sqlite_tasks : List Task
  sqlite_tasks =
      statement "sqlite PRAGMA journal_mode=WAL" "PRAGMA journal_mode=WAL"
      ∷ statement "sqlite PRAGMA busy_timeout=5000" "PRAGMA busy_timeout=5000"
      ∷ statement "sqlite PRAGMA synchronous=NORMAL" "PRAGMA synchronous=NORMAL"
      ∷ migration
      ∷ []

  abbrev session_setting : String → Task
  session_setting sql = statement ("postgres " ++ sql) sql

  abbrev work_mem_setting : String → List Task
  work_mem_setting work_mem =
      if str_eq work_mem ""
      then []
      else session_setting ("SET work_mem = '" ++ work_mem ++ "'") ∷ []

  abbrev pub indexes : List String
  indexes =
      "CREATE INDEX IF NOT EXISTS idx_invoices_status ON invoices(status)"
      ∷ "CREATE INDEX IF NOT EXISTS idx_invoices_created_at ON invoices(created_at DESC)"
      ∷ "CREATE INDEX IF NOT EXISTS idx_invoices_status_created ON invoices(status, created_at DESC)"
      ∷ []

  abbrev pub postgres_tasks : PostgresSettings H → List Task
  postgres_tasks opts =
      session_setting ("SET synchronous_commit = '" ++ opts.sync_commit ++ "'")
      ∷ cat (work_mem_setting opts.work_mem) (migration ∷ map (statement "create index") indexes)

  abbrev opened : Bool → H × Option Error → Result (Store H)
  opened is_postgres (h, none) =
      ok (record { table = h; stopped = false; is_postgres = is_postgres })
  opened is_postgres (h, some e) = err e

  abbrev with_handle : Bool → List Task → (H → H) → String → Result H → Result (Store H)
  with_handle is_postgres tasks pool prefix (err e) = err (wrap prefix e)
  with_handle is_postgres tasks pool prefix (ok h) = elim (driver.handle h) [
    | some e ↦ err (wrap "sql db" e)
    | none ↦ opened is_postgres (run_tasks tasks (pool h))
  ]

  -- `dir` is the directory of the file.
  unfoldable pub open_sqlite : String → String → Result (Store H)
  unfolding run_tasks
  open_sqlite dir path = elim (driver.make_dir dir) [
    | some e ↦ err (wrap "create sqlite dir" e)
    | none ↦
        with_handle false sqlite_tasks (λ h. h) "open sqlite"
          (driver.connect (path ++ "?_journal_mode=WAL&_busy_timeout=5000&_synchronous=NORMAL"))
  ]

  unfoldable pub open_postgres : PostgresSettings H → Result (Store H)
  unfolding run_tasks
  open_postgres opts =
      with_handle true (postgres_tasks opts) opts.pool "open postgres" (driver.connect opts.dsn)

  -- An opening whose tasks fail has closed its handle.
  pub run_tasks-close :
      (tasks : List Task) (h : H)
      → ((run_tasks tasks h).1 ≡ none) ⊎ ((h' : H) × ((run_tasks tasks h).0 ≡ driver.close h'))
  unfolding run_tasks
  run_tasks-close [] h = inl refl
  run_tasks-close ((task, named) ∷ rest) h = elim (Option-cases (task h).1) [
    | inl fine ↦ rw (run_tasks, fine) (run_tasks-close rest (task h).0)
    | inr (e, bad) ↦ inr ((task h).0, rw (run_tasks, bad) refl)
  ]
