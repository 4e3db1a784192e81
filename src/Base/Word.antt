-- ===== src/Base/Word.antt =====
-- Go's 64-bit integers (`int`, `int64`, `time.Duration`) as bit patterns below 2 ^ 64 in two's
-- complement, so that sums wrap as they do in Go.
use Prim.Native.Nat.{ℕ, ◌+◌, ◌%◌, ◌^◌, ◌<◌}
use mathlib.Core.Path.{◌≡◌}
use mathlib.Core.Bool.{Bool, ◌&&◌}
use native.Mathlib.Omega.{arith}
use invoice_ocr_poc.Base.Tests.{ltb, leb}

abbrev pub Int64 : Type 0
Int64 = ℕ

unfoldable pub add64 : Int64 → Int64 → Int64
add64 a b = (a + b) % 2 ^ 64

-- `0 < n` on the signed value.
abbrev pub is_pos : Int64 → Bool
is_pos n = ltb 0 n && ltb n (2 ^ 63)

-- `n < 0` on the signed value.
abbrev pub is_neg : Int64 → Bool
is_neg n = leb (2 ^ 63) n

pub add64_comm : (a b : Int64) → add64 a b ≡ add64 b a
unfolding add64
add64_comm a b = omega arith

pub add64_assoc : (a b c : Int64) → add64 (add64 a b) c ≡ add64 a (add64 b c)
unfolding add64
add64_assoc a b c = omega arith

pub add64-zero : (a : Int64) → a < 2 ^ 64 → add64 a 0 ≡ a
unfolding add64
add64-zero a h = omega arith
