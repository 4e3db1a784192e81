-- ===== src/Extract/Tests.antt =====
-- The patterns and the parser on lines of a receipt.
use invoice_ocr_poc.Base.{
  length, All, ◌≤◌, ◌⊎◌, ℕ, leb, ◌&&◌, Bool, true, false, some, [], ◌∷◌, ◌≡◌, refl,
}
use invoice_ocr_poc.Base.Int.{pos}
use invoice_ocr_poc.Float.{Micros, micros_float}
use invoice_ocr_poc.Strings.{
  Text, codes, split, trim_space, trim_by, is_space, contains_char, replace_char, join, same_text,
}
use invoice_ocr_poc.Regex.{submatch, matches, captures, replace_all}
use invoice_ocr_poc.Extract.Items.{IsFilled, parse-IsFilled}
use invoice_ocr_poc.Extract.{Extract, incomplete, round2}
use invoice_ocr_poc.Extract.Patterns.{
  br_money, qty_prefix, qty_times, qty_inline, total_line, meta_line, pay_line, barcode, junk_desc,
}
use invoice_ocr_poc.Extract.Parse.{
  parse, fields_from, strip_numbers, product_name, looks_like_product, parse_money, amounts_of,
  parse_amounts, captured_quantity, parse_qty, item_from_line, scan_amounts, scan_words, scan_line,
  scan_lines, sum_items, finish,
}

money_found :
    captures br_money (codes "CAFE 2x 5,00 R$ 1.010,00") ≡ codes "5,00" ∷ codes "1.010,00" ∷ []
unfolding captures br_money
money_found = refl

quantity_found : submatch qty_inline (codes "CAFE 2x 5,00") ≡ some (codes "2")
unfolding submatch qty_inline
quantity_found = refl

lines_told_apart :
    (matches total_line (codes "VALOR TOTAL R$ 10,00") ≡ true)
    × (matches total_line (codes "SUBTOTAL 10,00") ≡ false)
    × (matches meta_line (codes "CNPJ: 12.345") ≡ true)
    × (matches pay_line (codes "Forma de pagamento") ≡ true)
    × (matches junk_desc (codes " x = ") ≡ true)
unfolding matches total_line meta_line pay_line junk_desc
lines_told_apart = (refl, refl, refl, refl, refl)

barcode_cut : replace_all barcode (codes "7891234567 CAFE 12345678") [] ≡ codes "CAFE 12345678"
unfolding replace_all barcode
barcode_cut = refl

receipt : Text
receipt = codes "CNPJ 12\nCAFE 2x 5,00\nBOLO 3,50\nTOTAL R$ 13,50"

is_ascii_letter : ℕ → Bool
is_ascii_letter c = leb b'A' c && leb c b'z'

abbrev parse_receipt : Extract Micros
unfolding receipt is_ascii_letter parse split trim_space trim_by is_space contains_char replace_char
    join captures br_money matches submatch replace_all qty_prefix qty_times qty_inline total_line
    meta_line pay_line barcode junk_desc fields_from strip_numbers product_name looks_like_product
    parse_money amounts_of parse_amounts captured_quantity parse_qty item_from_line scan_amounts
    scan_words scan_line scan_lines sum_items finish round2
parse_receipt = parse is_ascii_letter receipt

receipt_parsed :
    (parse_receipt.estimated_total ≡ pos 13_500_000)
    × (parse_receipt.computed_items_total ≡ pos 13_500_000)
    × (incomplete parse_receipt ≡ false)
unfolding parse_receipt incomplete same_text
receipt_parsed = (refl, refl, refl)

-- The same receipt, for the parser's guarantees.
parse-IsFilled_example :
    let r = parse {F = Micros} is_ascii_letter receipt in
    All IsFilled r.items
    × (length r.items ≤ length (split 10 receipt))
    × ((r.found_total ≡ true) ⊎ (r.estimated_total ≡ r.computed_items_total))
parse-IsFilled_example = parse-IsFilled refl is_ascii_letter receipt
