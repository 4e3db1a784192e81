-- ===== src/Ocr/Tesseract.antt =====
-- internal/ocr/tesseract.go, the engine of the build without gosseract. The search of the PATH and the
-- run of the binary, which ends with its output or an error, are parameters.
use invoice_ocr_poc.Base.{Bool}
use invoice_ocr_poc.Errors.{Result, ok, err, wrap}
use invoice_ocr_poc.Float.{Float, nought}
use invoice_ocr_poc.Strings.{Text}
use invoice_ocr_poc.Ocr.Usage.{no_usage}
use invoice_ocr_poc.Ocr.Usage

pub record Tesseract : Type 0 where
  pub lang : Text

-- `exec.LookPath`, and the output for a language and an image.
pub record Binary : Type 0 where
  pub on_path : Bool
  pub output : Text → Text → Result Text

unfoldable pub new_tesseract : Text → Tesseract
new_tesseract lang = record { lang = lang }

unfoldable pub available : Binary → Tesseract → Bool
available binary t = binary.on_path

module _ {F : Type 0} ⦃d : Float F⦄ where
  abbrev pub read_output : Result Text → Result (Usage.Result F)
  read_output (err e) = err (wrap "tesseract" e)
  read_output (ok out) = ok (record { text = out; confidence = nought; usage = no_usage })

  unfoldable pub recognize : Binary → Tesseract → Text → Result (Usage.Result F)
  recognize binary t path = read_output (binary.output t.lang path)
