-- ===== src/Extract/Parse.antt =====
-- `Parse` of internal/extract/extract.go and the functions that it calls. The table of letters behind
-- `\p{L}` is Unicode's: `is_letter` stands for it.
use invoice_ocr_poc.Base.{
  ℕ, Bool, true, false, ◌||◌, Option, none, some, List, [], ◌∷◌, ◌++◌, is_empty, any, if◌then◌else◌,
}
use invoice_ocr_poc.Float.{Float, nought}
use invoice_ocr_poc.Strings.{Text, trim_space, split, join, replace_char, contains_char, is_space}
use invoice_ocr_poc.Regex.{matches, submatch, captures, replace_all}
use invoice_ocr_poc.Extract.{Item, Extract, unlabeled_item, round2}
use invoice_ocr_poc.Extract.Patterns.{
  br_money, qty_prefix, qty_inline, qty_times, total_line, meta_line, pay_line, barcode, junk_desc,
}

-- `strings.Fields`: the parts between white space; `field` is the part that is being read.
unfoldable pub fields_from : Text → Text → List Text
fields_from field [] = if is_empty field then [] else field ∷ []
fields_from field (c ∷ s) =
    let ended = if is_empty field then fields_from [] s else field ∷ fields_from [] s in
    let longer = fields_from (field ++ c ∷ []) s in if is_space c then ended else longer

unfoldable pub strip_numbers : Text → Text
strip_numbers line =
    let no_money = replace_all br_money line (b' ' ∷ []) in
    let no_prefix = replace_all qty_prefix no_money (b' ' ∷ []) in
    let no_times = replace_all qty_times no_prefix (b' ' ∷ []) in
    let no_inline = replace_all qty_inline no_times (b' ' ∷ []) in
    let cleaned = replace_char b'=' (b' ' ∷ []) no_inline in
    trim_space (join b' ' (fields_from [] cleaned))

unfoldable pub product_name : Text → Text
product_name line = trim_space (replace_all barcode line [])

unfoldable pub looks_like_product : (ℕ → Bool) → Text → Bool
looks_like_product is_letter line =
    if matches meta_line line || matches pay_line line then false else any is_letter line

-- The variables of the loop.
pub record Scan (F : Type 0) : Type 0 where
  pub items : List (Item F)
  pub estimated : F
  pub found_total : Bool
  pub pending_desc : Text
  pub pending_pay : Bool

module _ {F : Type 0} ⦃d : Float F⦄ where
  unfoldable pub parse_money : Text → Option F
  parse_money raw =
      let s = trim_space raw in
      d.parse_float
        (if contains_char b',' s then replace_char b',' (b'.' ∷ []) (replace_char b'.' [] s) else s)

  unfoldable pub amounts_of : List Text → List F
  amounts_of [] = []
  amounts_of (m ∷ ms) = elim (parse_money m) [ some v ↦ v ∷ amounts_of ms | none ↦ amounts_of ms ]

  unfoldable pub parse_amounts : Text → List F
  parse_amounts line = amounts_of (captures br_money line)

  -- The capture of a quantity pattern, if there is a match and it parses.
  unfoldable pub captured_quantity : Option Text → Option F
  captured_quantity none = none
  captured_quantity (some m) = parse_money m

  abbrev or_else : Option F → Option F → Option F
  or_else (some v) o = some v
  or_else none o = o

  abbrev or_zero : Option F → F
  or_zero (some v) = v
  or_zero none = nought

  unfoldable pub parse_qty : Text → F
  parse_qty line = or_zero (
      or_else (captured_quantity (submatch qty_prefix line)) (
        or_else (captured_quantity (submatch qty_times line))
          (captured_quantity (submatch qty_inline line))))

  abbrev last_or : F → List F → F
  last_or v [] = v
  last_or v (w ∷ ws) = last_or w ws

  -- `amounts` is the non-empty list `first ∷ more`.
  unfoldable pub item_from_line : Text → F → List F → Text → Item F
  item_from_line line first more pending_desc =
      let found = parse_qty line in
      let qty = if d.eq found nought then d.decimal 1 1 else found in
      let stripped = strip_numbers line in
      let desc =
        if is_empty stripped || matches junk_desc stripped then pending_desc else stripped in
      record {
        description = if is_empty desc then unlabeled_item else desc;
        quantity = qty;
        unit_amount = first;
        line_total = if is_empty more then d.mul first qty else last_or first more;
      }

  abbrev pub start : Scan F
  start = record {
    items = [];
    estimated = nought;
    found_total = false;
    pending_desc = [];
    pending_pay = false;
  }

  -- The loop that sums the items up.
  unfoldable pub sum_items : F → List (Item F) → F
  sum_items computed [] = computed
  sum_items computed (it ∷ its) =
      sum_items
        (d.add computed
          (if d.lt nought it.line_total then it.line_total else d.mul it.quantity it.unit_amount))
        its

  unfoldable pub finish : Scan F → Extract F
  finish st =
      let computed = sum_items nought st.items in
      record {
        items = st.items;
        estimated_total = round2 (if st.found_total then st.estimated else computed);
        computed_items_total = round2 computed;
        found_total = st.found_total;
      }

  module _ (is_letter : ℕ → Bool) where
    -- A line with amounts: a total, or an item.
    unfoldable pub scan_amounts : Text → F → List F → Scan F → Scan F
    scan_amounts line first more st =
        if matches total_line line || st.pending_pay
        then record st {
          estimated = last_or first more;
          found_total = true;
          pending_desc = [];
          pending_pay = false;
        }
        else record st {
          items = st.items ++ item_from_line line first more st.pending_desc ∷ [];
          pending_desc = [];
        }

    -- A line with no amounts: a payment line, a product or neither.
    unfoldable pub scan_words : Text → Scan F → Scan F
    scan_words line st =
        if matches pay_line line
        then record st { pending_desc = line; pending_pay = true }
        else if looks_like_product is_letter line
        then record st { pending_desc = product_name line; pending_pay = false }
        else st

    unfoldable pub scan_line : Text → Scan F → Scan F
    scan_line raw st =
        let line = trim_space raw in
        if is_empty line
        then st
        else if matches meta_line line
        then record st { pending_desc = []; pending_pay = false }
        else elim (parse_amounts line) [
          | [] ↦ scan_words line st
          | first ∷ more ↦ scan_amounts line first more st
        ]

    unfoldable pub scan_lines : List Text → Scan F → Scan F
    scan_lines [] st = st
    scan_lines (raw ∷ lines) st = scan_lines lines (scan_line raw st)

    unfoldable pub parse : Text → Extract F
    parse ocr_text = finish (scan_lines (split 10 ocr_text) start)
