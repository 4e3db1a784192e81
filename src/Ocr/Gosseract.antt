-- ===== src/Ocr/Gosseract.antt =====
-- internal/ocr/tesseract_gosseract.go, the engine of the build with gosseract. The library's client is a
-- parameter, and so is what the `select` sees first: the end of the context, or the text.
use invoice_ocr_poc.Base.{Option, none, some, ◌≡◌, refl}
use invoice_ocr_poc.Errors.{Ctx, Error, Result, ok, err, wrap, ctx}
use invoice_ocr_poc.Float.{Float, nought}
use invoice_ocr_poc.Strings.{Text}
use invoice_ocr_poc.Ocr.Tesseract.{Tesseract, Binary, recognize}
use invoice_ocr_poc.Ocr.Usage.{no_usage}
use invoice_ocr_poc.Ocr.Usage

-- `SetLanguage`, `SetImage`, and `Text` for a language and an image.
pub record Library : Type 0 where
  pub set_language : Text → Option Error
  pub set_image : Text → Option Error
  pub text : Text → Text → Result Text

module _ {F : Type 0} ⦃d : Float F⦄ where
  -- The `select`: the context that ends first, or what the library found.
  abbrev pub awaited : Ctx → Result Text → Result (Usage.Result F)
  awaited (some c) found = err (ctx c)
  awaited none (err e) = err (wrap "ocr text" e)
  awaited none (ok text) = ok (record { text = text; confidence = nought; usage = no_usage })

  -- `Recognize` with the context at its entry and at the `select`.
  unfoldable pub recognize_in_process :
      Library → Tesseract → Ctx → Ctx → Text → Result (Usage.Result F)
  recognize_in_process lib t (some c) at_select path = err (ctx c)
  recognize_in_process lib t none at_select path = elim (lib.set_language t.lang) [
    | some e ↦ err (wrap "set ocr language" e)
    | none ↦ elim (lib.set_image path) [
      | some e ↦ err (wrap "set ocr image" e)
      | none ↦ awaited at_select (lib.text t.lang path)
    ]
  ]

  -- The two builds read alike: if the library accepts the language and the image and finds what the binary
  -- prints, then under a live context both give the same reading.
  pub recognize_in_process-recognize :
      (lib : Library) (binary : Binary) (t : Tesseract) (path text : Text)
      → lib.set_language t.lang ≡ none
      → lib.set_image path ≡ none
      → lib.text t.lang path ≡ ok text
      → binary.output t.lang path ≡ ok text
      → recognize_in_process lib t none none path ≡ recognize binary t path
  unfolding recognize_in_process recognize
  recognize_in_process-recognize lib binary t path text lang image found printed =
      rw (recognize_in_process, lang, image, found, recognize, printed) refl
