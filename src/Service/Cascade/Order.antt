-- ===== src/Service/Cascade/Order.antt =====
-- Which engines `recognizeCascade` asks, and what it answers.
use invoice_ocr_poc.Base.{
  Bool, true, false, Option, none, some, List, ◌∷◌, ◌≡◌, refl, ◌⊎◌, inl, inr, String, is_empty,
  arith, Bool-cases,
}
use invoice_ocr_poc.Float.{Float, nought}
use invoice_ocr_poc.Strings.{Text}
use invoice_ocr_poc.Errors.{Error, Result, ok, err, wrap, join}
use invoice_ocr_poc.Extract.{Extract}
use invoice_ocr_poc.Ocr.Usage
use invoice_ocr_poc.Service.Types.{
  Engine, Service, needs_escalate, extract_confidence, below_min_confidence,
}
use invoice_ocr_poc.Service.Cascade.{
  Reading, Chosen, read_result, read_answer, recognize_one, recognize_cascade, second_hop,
  keeps_first, first_kept, engine_name,
}

module _ {F : Type 0} ⦃d : Float F⦄ where
  -- For a configured confidence above 0 and not above 1, the only ones with which the test can tell a
  -- weak reading from a good one: a reading is too weak exactly if its text is shorter than 40 bytes
  -- or its extract is incomplete. How high the bar is makes no difference.
  below_min_confidence_flat :
      (m : F) (text : Text) (parsed : Extract F)
      → d.lt nought m ≡ true
      → d.lt (d.decimal 1 1) m ≡ false
      → below_min_confidence m text parsed ≡ needs_escalate text parsed
  unfolding below_min_confidence extract_confidence
  below_min_confidence_flat m text parsed low high = ground arith

module _ {F T C : Type 0} ⦃d : Float F⦄ (s : Service F T C) where
  keeps_first_items :
      (r : Reading F) → is_empty r.parsed.items ≡ false → keeps_first s (ok r) ≡ true
  unfolding keeps_first
  keeps_first_items r h = ground arith

  asked_one :
      (img : Text) (e : Engine F) (asked : List String)
      → e.available ≡ true
      → recognize_one s img (some e) asked ≡ (e.name ∷ asked, read_answer s (e.recognize img))
  unfolding recognize_one
  asked_one img e asked up = rw up

  -- If Tesseract answers with a text in which items are found, however weak, then no other engine is
  -- asked, and the cascade answers with that reading, not escalated.
  pub cascade_skips_second :
      (img : Text) (tess : Engine F) (ollama : Option (Engine F)) (asked : List String)
      (res : Usage.Result F)
      → tess.available ≡ true
      → tess.recognize img ≡ ok res
      → is_empty (read_result s res).parsed.items ≡ false
      → recognize_cascade s img (some tess) ollama asked ≡ (
        tess.name ∷ asked,
        ok (record { reading = read_result s res; engine = tess.name; escalated = false }),
      )
  unfolding recognize_cascade engine_name
  cascade_skips_second img tess ollama asked res up answer items =
      rw (asked_one img tess asked up, answer, keeps_first_items (read_result s res) items)

  recognize_one_log :
      (img : Text) (e : Option (Engine F)) (a b : List String)
      → (recognize_one s img e a).1 ≡ (recognize_one s img e b).1
  unfolding recognize_one
  recognize_one_log img none a b = refl
  recognize_one_log img (some e) a b = ground arith

  -- What the cascade may answer, given what the two engines answer.
  abbrev pub Answers :
      Option (Engine F)
      → Option (Engine F)
      → Result (Reading F)
      → Result (Reading F)
      → Result (Chosen F)
      → Type 0
  Answers tess ollama first second out =
      ((r : Reading F) × (b : Bool) × (first ≡ ok r)
        × (out ≡ ok (record { reading = r; engine = engine_name tess; escalated = b })))
      ⊎ ((r : Reading F) × (second ≡ ok r)
          × (out ≡ ok (record { reading = r; engine = engine_name ollama; escalated = true })))
      ⊎ ((e : Error) × (f : Error) × (first ≡ err e)
          × (second ≡ err f)
          × (out ≡ err (wrap "ocr" (join e f))))

  kept_answers :
      (tess ollama : Option (Engine F)) (first second : Result (Reading F))
      → keeps_first s first ≡ true
      → Answers tess ollama first second (first_kept s tess first)
  unfolding keeps_first
  kept_answers tess ollama (ok r) second k = inl (r, false, refl, refl)
  kept_answers tess ollama (err e) second k = cc

  second_answers :
      (tess ollama : Option (Engine F)) (first second : Result (Reading F))
      → Answers tess ollama first second (second_hop s tess ollama first second)
  unfolding second_hop
  second_answers tess ollama first (ok r) = inr (inl (r, refl, refl))
  second_answers tess ollama (ok r) (err e) = inl (r, true, refl, refl)
  second_answers tess ollama (err te) (err oe) = inr (inr (te, oe, refl, refl, refl))

  -- The cascade answers with Tesseract's reading under Tesseract's name, with the second engine's
  -- under its name and escalated, or with both errors joined, and the last only if both engines fail.
  pub recognize_cascade_answers :
      (img : Text) (tess ollama : Option (Engine F)) (asked : List String)
      → Answers tess ollama
          (recognize_one s img tess asked).1
          (recognize_one s img ollama asked).1
          (recognize_cascade s img tess ollama asked).1
  unfolding recognize_cascade
  recognize_cascade_answers img tess ollama asked =
      let first = recognize_one s img tess asked in
      elim (Bool-cases (keeps_first s first.1)) [
        | inl kept ↦
            rw kept (kept_answers tess ollama first.1 (recognize_one s img ollama asked).1 kept)
        | inr weak ↦
            rw (weak, recognize_one_log img ollama asked first.0)
              (second_answers tess ollama first.1 (recognize_one s img ollama first.0).1)
      ]
