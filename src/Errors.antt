-- ===== src/Errors.antt =====
-- Go's error values as the program builds and inspects them: sentinels, the errors of a context,
-- `fmt.Errorf` with `%w`, `errors.Join` and `errors.Is`.
use Prim.Native.String.{◌++◌}
use invoice_ocr_poc.Base.{Bool, true, false, ◌||◌, Option, none, String, ◌≡◌, refl, ◌⊎◌, inl, inr}

pub data CtxError : Type 0 where
  canceled deadline_exceeded : CtxError

-- `ctx.Err()` at some moment.
abbrev pub Ctx : Type 0
Ctx = Option CtxError

abbrev pub live : Ctx
live = none

-- `store.ErrClosed`, `gorm.ErrRecordNotFound`, `invoice.ErrNotFound`, `invoice.ErrInvalidImage`,
-- `invoice.ErrQueueFull`, `worker.ErrQueueFull` and `worker.ErrPipelineStopped`.
pub data Sentinel : Type 0 where
  store_closed record_not_found not_found invalid_image service_queue_full worker_queue_full
        pipeline_stopped :
      Sentinel

-- `wrap p e` is `fmt.Errorf("p: %w", e)`, `annotate e p` is `fmt.Errorf("%w: p", e)`.
pub data Error : Type 0 where
  ctx : CtxError → Error
  sentinel : Sentinel → Error
  other : String → Error
  wrap : String → Error → Error
  annotate : Error → String → Error
  join : Error → Error → Error

-- `errors.Is(err, context.DeadlineExceeded)`.
unfoldable pub is_deadline : Error → Bool
is_deadline (ctx canceled) = false
is_deadline (ctx deadline_exceeded) = true
is_deadline (sentinel s) = false
is_deadline (other s) = false
is_deadline (wrap p e) = is_deadline e
is_deadline (annotate e p) = is_deadline e
is_deadline (join e f) = is_deadline e || is_deadline f

-- `errors.Is(err, context.Canceled) || errors.Is(err, context.DeadlineExceeded)`.
unfoldable pub is_ctx : Error → Bool
is_ctx (ctx c) = true
is_ctx (sentinel s) = false
is_ctx (other s) = false
is_ctx (wrap p e) = is_ctx e
is_ctx (annotate e p) = is_ctx e
is_ctx (join e f) = is_ctx e || is_ctx f

abbrev pub same_sentinel : Sentinel → Sentinel → Bool
same_sentinel store_closed store_closed = true
same_sentinel record_not_found record_not_found = true
same_sentinel not_found not_found = true
same_sentinel invalid_image invalid_image = true
same_sentinel service_queue_full service_queue_full = true
same_sentinel worker_queue_full worker_queue_full = true
same_sentinel pipeline_stopped pipeline_stopped = true
same_sentinel _ _ = false

-- `errors.Is` of a sentinel.
unfoldable pub is : Sentinel → Error → Bool
is s (ctx c) = false
is s (sentinel t) = same_sentinel t s
is s (other m) = false
is s (wrap p e) = is s e
is s (annotate e p) = is s e
is s (join e f) = is s e || is s f

unfoldable pub sentinel_message : Sentinel → String
sentinel_message store_closed = "store closed"
sentinel_message record_not_found = "record not found"
sentinel_message not_found = "invoice not found"
sentinel_message invalid_image = "invalid image upload"
sentinel_message service_queue_full = "job queue is full"
sentinel_message worker_queue_full = "job queue is full"
sentinel_message pipeline_stopped = "pipeline stopped"

-- `err.Error()`.
unfoldable pub message : Error → String
unfolding sentinel_message
message (ctx canceled) = "context canceled"
message (ctx deadline_exceeded) = "context deadline exceeded"
message (sentinel s) = sentinel_message s
message (other m) = m
message (wrap p e) = p ++ ": " ++ message e
message (annotate e p) = message e ++ ": " ++ p
message (join e f) = message e ++ "\n" ++ message f

pub data Result {ℓ} (A : Type ℓ) : Type ℓ where
  ok : A → Result A
  err : Error → Result A

pub Result-cases {ℓ} :
    {A : Type ℓ} (r : Result A) → ((a : A) × (r ≡ ok a)) ⊎ ((e : Error) × (r ≡ err e))
Result-cases (ok a) = inl (a, refl)
Result-cases (err e) = inr (e, refl)
