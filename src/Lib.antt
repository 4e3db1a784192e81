-- ===== src/Lib.antt =====
-- Verification of the invoice OCR service: a Go program that takes photos of receipts over HTTP, reads
-- them by OCR engines, extracts items and totals, has a model judge the extract, and stores the result.
--
-- An upload (`Enqueue` of internal/invoice/service.go) writes a file and a row and hands a job to the
-- pipeline of internal/worker/pool.go. The pipeline runs three stages of the invoice service on each
-- job. The first marks the row and prepares the image. The second asks the local engines in turn
-- (internal/ocr), parses the text (internal/extract) and looks the text up in a cache
-- (internal/cache). The third asks OpenRouter if the text is weak, runs the assistant and the judge
-- (internal/jev), and writes the row (internal/store) and the cache entry, or replays a cache hit. The
-- API (internal/httpserver) takes uploads and answers the polls of their state and analysis. The program
-- (cmd/api/main.go) starts the parts from settings (internal/config).
--
-- Files and the code that they model:
--   Base, Strings, Regex    lists, Go's integers and texts, and a matcher for regular expressions
--                           with its rounds (Fuel)
--   Float                   `float64` as an interface, with exact millionths as an instance
--   Errors                  sentinels, wrapped and joined errors, `errors.Is` (all packages)
--   Http                    what a client sees of net/http, and `postJSON` of internal/ocr/ollama.go
--   Config                  internal/config/config.go: Fields, Dotenv, Load, Validate
--   Program                 cmd/api/main.go: Wiring (the pipeline's options), Backends, Engines,
--                           Parts, and Run (what is started and ended, in which order)
--   Ocr                     internal/ocr/engine.go, clean.go, ollama.go (Ollama, Inspect), openrouter.go
--                           (Vision), tesseract.go, tesseract_gosseract.go (Gosseract), factory.go
--   Openrouter              internal/openrouter/client.go
--   Extract                 internal/extract/extract.go
--   Store                   internal/store/models.go, store.go, postgres.go
--   Jev                     internal/jev/client.go and explain.go
--   Cache                   internal/cache/cache.go, ocr.go (Memory) and redis.go (Redis)
--   Service                 internal/invoice/service.go: Types (what the operations share), Apply,
--                           Cascade, Judging, Stages, Uploads
--   Worker                  internal/worker/pool.go
--   Httpserver              internal/httpserver: Dto, Handlers, Health, what a client can poll (Polling), and
--                           what an analysis of the judge's client shows (Faithful)
--   System                  the whole service: uploads, the workers, and the stages on one store
--   Tests                   runs of the models at concrete values
-- A definition has the name of its function in snake case (`StageOCR` is `stage_ocr`). A record has the
-- fields of its struct; helpers that stand for a part of a function say which.
--
-- State is passed explicitly. A stage takes the job and the `World` (store, cache, log of the engines
-- asked) and returns both with an optional error. What the program observes of the outside is input:
-- clock readings, milliseconds, and the state of a context at each moment at which the code looks at it
-- (`Watch`: at the call, when the statement runs, while the caller waits). The pipeline is a step
-- relation, so that its theorems hold in every order of its goroutines. `System` joins the two: the
-- pipeline moves identifiers, a table holds the jobs, and a stage's function runs on a job at a worker
-- before the worker hands it on. One run of a stage, and one upload, is one step there: a stage writes
-- only its job's row and looks at the cache once, so that a finer interleaving shows nothing else.
-- Identifiers that uploads draw are taken to be new. `run` is a trace of what it starts and ends.
--
-- The invoice of an upload is one object that the handler shares with its job: `process_image` takes
-- what the workers have made of it by the time of the answer (`seen`).
--
-- Code that is not in the repository is a parameter: the database with its transactions (`Db`, its laws
-- `IsDb`), the file system (`Disk`, `IsDisk`, `Files`), the run of the Tesseract binary (`Binary`), HTTP
-- (`Transport`, `Network`), Viper, the server of Redis (`Server`, `IsServer`), the hash, JSON, paths and
-- media types, the table of letters, printing. Uploads take the queue as an interface (`submit`,
-- `IsQueue`), and the cache is one (`Cache`, `IsCache`). The service takes
-- its engines, assistant and judge as records, as the code takes interfaces; the clients fill them
-- (`assistant`, `judge`). Integers are 64-bit patterns that wrap (`Int64`).
--
-- Functions are structurally recursive, on a list, a text or an expression. The matcher's loops (`star`,
-- and the search for all matches) run on the length of the text as fuel: each of their rounds takes at
-- least a character, so the fuel is enough. The retries of `post` run on the attempts that are left.
--
-- Not modelled: logging, metrics, the fixed headers and fields of requests, the settings of gorm and of
-- the HTTP transport (httpclient), the table of routes, which gin matches, the delivery of signals, and
-- the time limits of single hops, which act through the answers of the engines. The assistant and the
-- judge run side by side in the code; neither reads what the other writes, and the model runs them one
-- after the other.
pub mod Base
pub mod Float
pub mod Strings
pub mod Regex
pub mod Errors
pub mod Http
pub mod Config
pub mod Ocr
pub mod Extract
pub mod Store
pub mod Jev
pub mod Openrouter
pub mod Cache
pub mod Service
pub mod Worker
pub mod Httpserver
pub mod System
pub mod Program
pub mod Tests
