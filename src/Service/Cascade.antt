-- ===== src/Service/Cascade.antt =====
-- internal/invoice/service.go: `recognizeOne`, `recognizeCascade` and `engineAvailable`.
pub mod Order
use invoice_ocr_poc.Base.{
  Bool, true, false, not, ◌&&◌, Option, none, some, List, [], ◌∷◌, String, is_empty, if◌then◌else◌,
}
use invoice_ocr_poc.Float.{Float}
use invoice_ocr_poc.Strings.{Text}
use invoice_ocr_poc.Errors.{Error, Result, ok, err, other, wrap, join}
use invoice_ocr_poc.Extract.{Extract}
use invoice_ocr_poc.Extract.Parse.{parse}
use invoice_ocr_poc.Ocr.Usage
use invoice_ocr_poc.Ocr.Clean.{clean_text}
use invoice_ocr_poc.Service.Types.{Engine, Service, extract_confidence, below_min_confidence}

-- What one engine read, and the extract of it.
pub record Reading (F : Type 0) : Type 0 where
  pub res : Usage.Result F
  pub parsed : Extract F

-- What the cascade returns: a reading, the engine's name, and whether the job was escalated.
pub record Chosen (F : Type 0) : Type 0 where
  pub reading : Reading F
  pub engine : String
  pub escalated : Bool

unfoldable pub engine_available : {F : Type 0} → Option (Engine F) → Bool
engine_available none = false
engine_available (some e) = e.available

unfoldable pub engine_name : {F : Type 0} → Option (Engine F) → String
engine_name none = ""
engine_name (some e) = e.name

abbrev pub not_configured : Error
not_configured = other "ocr engine is not configured"

module _ {F T C : Type 0} ⦃d : Float F⦄ (s : Service F T C) where
  -- The text of an answer is cleaned, parsed and given a confidence.
  unfoldable pub read_result : Usage.Result F → Reading F
  read_result res =
      let text = clean_text res.text in
      let parsed = parse s.is_letter text in
      record {
        res = record res { text = text; confidence = extract_confidence text parsed };
        parsed = parsed;
      }

  abbrev pub read_answer : Result (Usage.Result F) → Result (Reading F)
  read_answer (ok res) = ok (read_result res)
  read_answer (err e) = err e

  -- The log of the engines that were asked, and the reading or the error.
  unfoldable pub recognize_one :
      Text → Option (Engine F) → List String → List String × Result (Reading F)
  recognize_one img none asked = (asked, err not_configured)
  recognize_one img (some e) asked =
      if e.available
      then (e.name ∷ asked, read_answer (e.recognize img))
      else (asked, err not_configured)

  abbrev pub chosen : Reading F → Option (Engine F) → Bool → Result (Chosen F)
  chosen r e escalated = ok (record { reading = r; engine = engine_name e; escalated = escalated })

  -- The second hop, after Tesseract's reading was too weak or it failed. The two returns at the end of
  -- the source's function stand behind tests that always hold there.
  unfoldable pub second_hop :
      Option (Engine F)
      → Option (Engine F)
      → Result (Reading F)
      → Result (Reading F)
      → Result (Chosen F)
  second_hop tess ollama tess_out (ok r) = chosen r ollama true
  second_hop tess ollama (ok r) (err e) = chosen r tess true
  second_hop tess ollama (err te) (err oe) = err (wrap "ocr" (join te oe))

  -- Tesseract's reading is kept: it is good enough, or it has items.
  unfoldable pub keeps_first : Result (Reading F) → Bool
  keeps_first (err e) = false
  keeps_first (ok r) =
      if not (below_min_confidence s.min_confidence r.res.text r.parsed)
      then true
      else not (is_empty r.parsed.items)

  abbrev pub first_kept : Option (Engine F) → Result (Reading F) → Result (Chosen F)
  first_kept tess (ok r) = chosen r tess false
  first_kept tess (err e) = err e

  unfoldable pub recognize_cascade :
      Text → Option (Engine F) → Option (Engine F) → List String → List String × Result (Chosen F)
  recognize_cascade img tess ollama asked =
      let first = recognize_one img tess asked in
      if keeps_first first.1
      then (first.0, first_kept tess first.1)
      else let second = recognize_one img ollama first.0 in
        (second.0, second_hop tess ollama first.1 second.1)
