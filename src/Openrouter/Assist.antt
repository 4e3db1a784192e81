-- ===== src/Openrouter/Assist.antt =====
-- internal/openrouter/client.go: `parseAssist` and its helpers. Decoding the JSON is a parameter.
use invoice_ocr_poc.Base.{
  Bool, false, ◌&&◌, Option, none, some, List, [], ◌∷◌, ◌++◌, is_empty, if◌then◌else◌,
}
use invoice_ocr_poc.Errors.{Error, Result, ok, err, wrap}
use invoice_ocr_poc.Float.{Float, nought}
use invoice_ocr_poc.Strings.{Text, codes, trim_space, trim_prefix, trim_suffix}
use invoice_ocr_poc.Extract.{Item, Extract}

pub record AssistItem (F : Type 0) : Type 0 where
  pub produto : Text
  pub description : Text
  pub quantidade : F
  pub quantity : F
  pub valor_unit : F
  pub unit_amount : F
  pub line_total : F

pub record AssistJson (F : Type 0) : Type 0 where
  pub items : List (AssistItem F)
  pub estimated_total : F
  pub legacy_total : F
  pub soma_itens : F
  pub soma_confere : Bool
  pub notes : Text
  pub legacy_notes : Text

unfoldable pub first_non_empty : List Text → Text
unfolding trim_space
first_non_empty [] = []
first_non_empty (v ∷ vals) = if is_empty (trim_space v) then first_non_empty vals else trim_space v

-- The JSON without a fence of Markdown around it.
unfoldable pub unfence : Text → Text
unfolding trim_space trim_prefix trim_suffix
unfence content = trim_space (
    trim_suffix (codes "```")
      (trim_prefix (codes "```") (trim_prefix (codes "```json") (trim_space content))))

module _ {F : Type 0} ⦃d : Float F⦄ where
  unfoldable pub first_non_zero : List F → F
  first_non_zero [] = nought
  first_non_zero (v ∷ vals) = if d.eq v nought then first_non_zero vals else v

  -- `float64(int(v*100+0.5)) / 100`.
  unfoldable pub round_cents : F → F
  round_cents v =
      d.div (d.of_int (d.truncate (d.add (d.mul v (d.decimal 100 1)) (d.decimal 5 10))))
        (d.decimal 100 1)

  abbrev pub or_one : F → F
  or_one q = if d.eq q nought then d.decimal 1 1 else q

  -- An item of the answer with its defaults.
  unfoldable pub to_item : AssistItem F → Item F
  unfolding first_non_empty first_non_zero
  to_item raw =
      let quantity = or_one (first_non_zero (raw.quantidade ∷ raw.quantity ∷ [])) in
      let unit_amount = first_non_zero (raw.valor_unit ∷ raw.unit_amount ∷ []) in
      record {
        description = first_non_empty (raw.produto ∷ raw.description ∷ []);
        quantity = quantity;
        unit_amount = unit_amount;
        line_total =
            if d.eq raw.line_total nought then d.mul quantity unit_amount else raw.line_total;
      }

  abbrev pub is_void : Item F → Bool
  is_void it = is_empty it.description && d.eq it.line_total nought

  abbrev pub take_item : Item F → List (Item F) × F → List (Item F) × F
  take_item it (items, computed) =
      if is_void it then (items, computed) else (items ++ it ∷ [], d.add computed it.line_total)

  -- The loop over the answer's items, with the items so far and the sum of their totals.
  unfoldable pub collect : List (AssistItem F) → List (Item F) × F → List (Item F) × F
  unfolding to_item
  collect [] found = found
  collect (raw ∷ raws) found = collect raws (take_item (to_item raw) found)

  abbrev pub notes_of : AssistJson F → Text
  notes_of out =
      let notes =
        if is_empty (trim_space out.notes)
        then trim_space out.legacy_notes
        else trim_space out.notes in
      if out.soma_confere
      then (if is_empty notes then [] else notes ++ b' ' ∷ [])
        ++ codes "Modelo: soma dos itens confere com o total estimado."
      else notes

  abbrev pub estimate : AssistJson F → F → F
  estimate out computed =
      let estimated = first_non_zero (out.estimated_total ∷ out.legacy_total ∷ []) in
      if d.eq estimated nought then first_non_zero (out.soma_itens ∷ computed ∷ []) else estimated

  -- The extract of the items that were found, or the fallback if there are none.
  abbrev pub assisted : AssistJson F → Extract F → List (Item F) × F → Extract F
  assisted out fallback ([], computed) = fallback
  assisted out fallback (it ∷ items, computed) = record {
    items = it ∷ items;
    estimated_total = estimate out computed;
    computed_items_total = round_cents computed;
    found_total = false;
  }

  abbrev pub read_answer : Extract F → Result (AssistJson F) → Extract F × Text × Option Error
  read_answer fallback (err e) = (fallback, [], some (wrap "decode assist json" e))
  read_answer fallback (ok out) =
      (assisted out fallback (collect out.items ([], nought)), notes_of out, none)

  unfoldable pub parse_assist :
      (Text → Result (AssistJson F)) → Text → Extract F → Extract F × Text × Option Error
  unfolding unfence collect first_non_zero round_cents trim_space
  parse_assist decode content fallback = read_answer fallback (decode (unfence content))
