-- ===== src/Tests/Text.antt =====
-- Cleaning a text of internal/ocr.
use invoice_ocr_poc.Base.{false, List, ◌≡◌, All}
use invoice_ocr_poc.Float.{micros_float}
use invoice_ocr_poc.Strings.{Text, codes, split}
use invoice_ocr_poc.Ocr.Clean.{Kind, kept_lines, kinds_of, lines_of}
use invoice_ocr_poc.Ocr.Clean.Lines.{
  kept_lines-contents, contents, IsCollapsed, IsRead, ends_in_noise,
}

abbrev read_text : Text
read_text = codes "MERCADO\n\n\n-----\n=====\nCAFE 5,00\n\n"

kept_lines-contents_example :
    (ks : List Kind) × (kept_lines read_text ≡ lines_of ks)
    × (contents ks ≡ contents (kinds_of (split 10 read_text)))
    × All IsRead ks
    × IsCollapsed false false ks
    × (ends_in_noise (kept_lines read_text) ≡ false)
kept_lines-contents_example = kept_lines-contents read_text
