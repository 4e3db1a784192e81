-- ===== src/Program/Engines.antt =====
-- cmd/api/main.go: the engines that `run` gives to the OCR stage, and where the text of a job comes from.
use invoice_ocr_poc.Base.{
  false, none, some, ◌≡◌, ◌⊎◌, inl, inr, refl, sym, ap, ◌∙◌, subst, Int64, ◌++◌, String, is_empty,
  List, Bool-cases, arith,
}
use invoice_ocr_poc.Errors.{Result-cases, ok, wrap}
use invoice_ocr_poc.Float.{Float}
use invoice_ocr_poc.Strings.{Text, codes}
use invoice_ocr_poc.Http.{Transport, Verbs, fetch}
use invoice_ocr_poc.Config.Fields.{Config}
use invoice_ocr_poc.Ocr.Usage
use invoice_ocr_poc.Ocr.Clean.{clean_text}
use invoice_ocr_poc.Ocr.Tesseract.{Binary, new_tesseract}
use invoice_ocr_poc.Ocr.Tesseract
use invoice_ocr_poc.Ocr.Ollama.{new_ollama, answer_text, GenerateResponse}
use invoice_ocr_poc.Ocr.Ollama
use invoice_ocr_poc.Store.Invoice.{Invoice}
use invoice_ocr_poc.Service.Apply.{apply_ocr_usage, apply_open_router_usage, apply_ollama_usage}
use invoice_ocr_poc.Service.Types.{Engine, Service, Job, World}
use invoice_ocr_poc.Service.Cascade.{Reading, Chosen, recognize_one, read_result, recognize_cascade}
use invoice_ocr_poc.Service.Cascade.Order.{recognize_cascade_answers}
use invoice_ocr_poc.Service.Stages.{Sights, cache_get, with_hit, after_ocr, stage_ocr}
use invoice_ocr_poc.Service.Stages.Failure.{fail_reports}

ok_injective : {A : Type 0} (a b : A) → ok a ≡ ok b → a ≡ b
ok_injective a b h = cc

module _ {F : Type 0} ⦃d : Float F⦄ (binary : Binary) (net : Transport) (verbs : Verbs)
    (inputs : Ollama.Inputs) (elapsed : Int64) (cfg : Config F) where
  unfoldable pub tess : Engine F
  tess =
      let t = new_tesseract cfg.tesseract_lang in
      record {
        name = "*ocr.Tesseract";
        available = Tesseract.available binary t;
        recognize = Tesseract.recognize binary t;
      }

  unfoldable pub ollama : Engine F
  ollama =
      let o = some (new_ollama cfg.ollama_url cfg.ollama_ocr_model) in
      record {
        name = "*ocr.Ollama";
        available = Ollama.available o;
        recognize = Ollama.recognize net verbs inputs elapsed o;
      }

  -- The text is what the binary printed, in the language that is set.
  abbrev pub IsPrinted : Text → Text → Type 0
  IsPrinted path text = binary.output cfg.tesseract_lang path ≡ ok text

  -- The text is the one, not empty, of a response to the image.
  abbrev pub IsAnswered : Text → Text → Type 0
  IsAnswered path text =
      (raw : Text) × (payload : Text) × (parsed : GenerateResponse) × (inputs.read_file path
        ≡ ok raw)
      × (inputs.marshal (new_ollama cfg.ollama_url cfg.ollama_ocr_model).model raw ≡ ok payload)
      × (fetch net verbs "ollama" inputs.decode
            ((new_ollama cfg.ollama_url cfg.ollama_ocr_model).base_url ++ codes "/api/generate")
            payload
          ≡ ok parsed)
      × (text ≡ answer_text parsed)
      × (is_empty text ≡ false)

  tess-IsPrinted :
      (path : Text) (r : Usage.Result F) → tess.recognize path ≡ ok r → IsPrinted path r.text
  unfolding tess Tesseract.recognize new_tesseract
  tess-IsPrinted path r h = elim (Result-cases (binary.output cfg.tesseract_lang path)) [
    | inl (out, q) ↦
        let same : out ≡ r.text = ap (λ x. x.text) (ok_injective _ _ (rw q at h)) in q ∙ ap ok same
    | inr (e, q) ↦ absurd (cc (rw q at h))
  ]

  read_response-ok :
      (parsed : GenerateResponse) (r : Usage.Result F)
      → Ollama.read_response net verbs inputs elapsed (ok parsed) ≡ ok r
      → (r.text ≡ answer_text parsed) × (is_empty r.text ≡ false)
  read_response-ok parsed r h = elim (Bool-cases (is_empty (answer_text parsed))) [
    | inl blank ↦ absurd (cc (rw blank at h))
    | inr full ↦
        let same : answer_text parsed ≡ r.text =
          ap (λ x. x.text) (ok_injective _ _ (rw full at h)) in
        (sym same, subst (λ t. is_empty t ≡ false) same full)
  ]

  ollama-IsAnswered :
      (path : Text) (r : Usage.Result F) → ollama.recognize path ≡ ok r → IsAnswered path r.text
  unfolding ollama Ollama.recognize
  ollama-IsAnswered path r h =
      let o = new_ollama cfg.ollama_url cfg.ollama_ocr_model in
      elim (Bool-cases (Ollama.available (some o))) [
        | inr down ↦ absurd (cc (rw down at h))
        | inl up ↦ elim (Result-cases (inputs.read_file path)) [
          | inr (e, bad) ↦ absurd (cc (rw (up, bad) at h))
          | inl (raw, q1) ↦ elim (Result-cases (inputs.marshal o.model raw)) [
            | inr (e, bad) ↦ absurd (cc (rw (up, q1, bad) at h))
            | inl (payload, q2) ↦
                elim (Result-cases (
                  fetch net verbs "ollama" inputs.decode (o.base_url ++ codes "/api/generate")
                    payload)) [
                      | inr (e, bad) ↦ absurd (cc (rw (up, q1, q2, bad) at h))
                      | inl (parsed, q3) ↦
                          let (same, full) = read_response-ok parsed r (rw (up, q1, q2, q3) at h) in
                          (raw, payload, parsed, q1, q2, q3, same, full)
                    ]
          ]
        ]
      ]

  module _ {T C : Type 0} (s : Service F T C) where
    recognize_one-ok :
        (img : Text) (e : Engine F) (asked : List String) (r : Reading F)
        → (recognize_one s img (some e) asked).1 ≡ ok r
        → (res : Usage.Result F) × (e.recognize img ≡ ok res) × (read_result s res ≡ r)
    unfolding recognize_one
    recognize_one-ok img e asked r h = elim (Bool-cases e.available) [
      | inr down ↦ absurd (cc (rw down at h))
      | inl up ↦ elim (Result-cases (e.recognize img)) [
        | inr (x, bad) ↦ absurd (cc (rw (up, bad) at h))
        | inl (res, q) ↦ (res, q, ok_injective _ _ (rw (up, q) at h))
      ]
    ]

    -- Where a text comes from: the binary, or the server of Ollama.
    abbrev pub IsRead : Text → Text → Type 0
    IsRead path text = IsPrinted path text ⊎ IsAnswered path text

    cascade-IsRead :
        (img : Text) (asked : List String) (c : Chosen F)
        → (recognize_cascade s img (some tess) (some ollama) asked).1 ≡ ok c
        → (text : Text) × IsRead img text × (c.reading.res.text ≡ clean_text text)
    unfolding read_result
    cascade-IsRead img asked c h =
        elim (recognize_cascade_answers s img (some tess) (some ollama) asked) [
          | inl (r, b, q, out) ↦
              let (res, answer, same) = recognize_one-ok img tess asked r q in
              let kept = ap (λ x. x.reading) (ok_injective _ _ (sym h ∙ out)) in
              (
                res.text,
                inl (tess-IsPrinted img res answer),
                ap (λ x. x.res.text) (kept ∙ sym same),
              )
          | inr (inl (r, q, out)) ↦
              let (res, answer, same) = recognize_one-ok img ollama asked r q in
              let kept = ap (λ x. x.reading) (ok_injective _ _ (sym h ∙ out)) in
              (
                res.text,
                inr (ollama-IsAnswered img res answer),
                ap (λ x. x.res.text) (kept ∙ sym same),
              )
          | inr (inr (e, f, q1, q2, out)) ↦ absurd (cc (h, out))
        ]

    usage_text :
        (u : Usage.Usage F) (inv : Invoice F) → (apply_ocr_usage u inv).ocr_text ≡ inv.ocr_text
    unfolding apply_ocr_usage apply_open_router_usage apply_ollama_usage
    usage_text u inv = ground arith

    after_ocr-text :
        (r : Reading F) (o : Sights) (w : World T C) (j : Job F)
        → (after_ocr s r o w j).2 ≡ none
        → ((after_ocr s r o w j).1.ocr_res.text ≡ r.res.text)
          × ((after_ocr s r o w j).1.inv.ocr_text ≡ r.res.text)
    unfolding after_ocr
    after_ocr-text r o w j h = elim (Result-cases (s.marshal r.parsed.items)) [
      | inr (e, bad) ↦
          let read = record j.inv { ocr_text = r.res.text; ocr_confidence = r.res.confidence } in
          let looked = cache_get s o.now r.res.text w.cached in
          let j' = with_hit s looked.1 (record j { inv = apply_ocr_usage r.res.usage read }) in
          let (x, reported) =
            fail_reports s (wrap "marshal items" e) o (record w { cached = looked.0 }) j' in
          absurd (cc (rw (after_ocr, bad) at h, reported))
      | inl (json, q) ↦ (rw (after_ocr, q) refl, rw (after_ocr, q) (usage_text r.res.usage _))
    ]

    -- After an OCR stage of the program without an error, the job and its invoice hold the cleaned text
    -- of what the Tesseract binary printed for the image in the language that is set, or of a response,
    -- not empty, that the Ollama server gave to the image's bytes under the model that is set.
    pub stage_ocr-IsRead :
        (o : Sights) (w : World T C) (j : Job F)
        → (stage_ocr s (some tess) (some ollama) o w j).2 ≡ none
        → (text : Text) × IsRead j.img_path text
          × ((stage_ocr s (some tess) (some ollama) o w j).1.ocr_res.text ≡ clean_text text)
          × ((stage_ocr s (some tess) (some ollama) o w j).1.inv.ocr_text ≡ clean_text text)
    unfolding stage_ocr
    stage_ocr-IsRead o w j h =
        let out = recognize_cascade s j.img_path (some tess) (some ollama) w.asked in
        let w' = record w { asked = out.0 } in
        elim (Result-cases out.1) [
          | inr (e, bad) ↦
              let (x, reported) = fail_reports s (wrap "ocr" e) o w' j in
              absurd (cc (rw (stage_ocr, bad) at h, reported))
          | inl (c, q) ↦
              let (text, from, same) = cascade-IsRead j.img_path w.asked c q in
              let (held, stored) = after_ocr-text c.reading o w' j (rw (stage_ocr, q) at h) in
              (text, from, rw (stage_ocr, q) (held ∙ same), rw (stage_ocr, q) (stored ∙ same))
        ]
