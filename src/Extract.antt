-- ===== src/Extract.antt =====
-- internal/extract/extract.go: items and totals from OCR text.
pub mod Patterns
pub mod Parse
pub mod Items
mod Tests
use invoice_ocr_poc.Base.{
  Bool, true, false, not, ◌&&◌, ◌||◌, List, [], ◌∷◌, is_empty, any, if◌then◌else◌,
}
use invoice_ocr_poc.Float.{Float, nought}
use invoice_ocr_poc.Strings.{Text, codes, same_text}

abbrev pub unlabeled_item : Text
unlabeled_item = codes "unlabeled item"

pub record Item (F : Type 0) : Type 0 where
  pub description : Text
  pub quantity : F
  pub unit_amount : F
  pub line_total : F

pub record Extract (F : Type 0) : Type 0 where
  pub items : List (Item F)
  pub estimated_total : F
  pub computed_items_total : F
  pub found_total : Bool

module _ {F : Type 0} ⦃d : Float F⦄ where
  abbrev pub line_delta : F
  line_delta = d.decimal 5 100

  -- Go's zero value.
  abbrev pub no_extract : Extract F
  no_extract = record {
    items = [];
    estimated_total = nought;
    computed_items_total = nought;
    found_total = false;
  }

  unfoldable pub inconsistent_line : Item F → Bool
  inconsistent_line it =
      if d.le it.quantity nought || d.le it.unit_amount nought || d.le it.line_total nought
      then false
      else d.lt line_delta (d.magnitude (d.sub (d.mul it.quantity it.unit_amount) it.line_total))

  -- What the loop of `Incomplete` looks for.
  unfoldable pub unusable : Item F → Bool
  unfolding inconsistent_line
  unusable it =
      is_empty it.description || same_text it.description unlabeled_item || inconsistent_line it

  unfoldable pub incomplete : Extract F → Bool
  unfolding unusable
  incomplete r =
      if is_empty r.items
      then true
      else if not r.found_total
      then true
      else if d.lt line_delta (d.magnitude (d.sub r.estimated_total r.computed_items_total))
      then true
      else any unusable r.items

  -- `math.Round(v*100) / 100`.
  unfoldable pub round2 : F → F
  round2 v = d.div (d.round (d.mul v (d.decimal 100 1))) (d.decimal 100 1)
