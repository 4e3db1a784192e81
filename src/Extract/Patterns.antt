-- ===== src/Extract/Patterns.antt =====
-- The regular expressions of internal/extract/extract.go.
use invoice_ocr_poc.Regex.{
  Regex, at_start, at_end, at_edge, one, seq, alt, opt, star, capture, word, one_of, plus, digit,
  blanks,
}
use invoice_ocr_poc.Strings.{codes}

-- (?i)(?:r\$\s*)?(\d{1,3}(?:\.\d{3})*,\d{2}|\d+,\d{2}|\d+\.\d{2})
unfoldable pub br_money : Regex
br_money = seq (opt (seq (word "r$") blanks)) (capture (alt grouped (alt comma point)))
  where
    cents : Regex
    cents = seq digit digit

    grouped : Regex
    grouped = seq digit (
        seq (opt (seq digit (opt digit)))
          (seq (star (seq (word ".") (seq digit cents))) (seq (word ",") cents)))

    comma : Regex
    comma = seq (plus digit) (seq (word ",") cents)

    point : Regex
    point = seq (plus digit) (seq (word ".") cents)

-- (\d+(?:[.,]\d+)?)
abbrev number : Regex
number = capture (seq (plus digit) (opt (seq (one_of (codes ".,")) (plus digit))))

-- (?i)^(?:qtd|qty|quant(?:idade)?)\s*[:x×*]?\s*(\d+(?:[.,]\d+)?)
unfoldable pub qty_prefix : Regex
qty_prefix = seq at_start (
    seq (alt (word "qtd") (alt (word "qty") (seq (word "quant") (opt (word "idade")))))
      (seq blanks (seq (opt (one_of (codes ":x×*"))) (seq blanks number))))

-- (?i)\b(\d+(?:[.,]\d+)?)\s*(?:[x×*]|un|unid|pcs?)\b
unfoldable pub qty_inline : Regex
qty_inline = seq at_edge (
    seq number (
      seq blanks (
        seq
          (alt (one_of (codes "x×*"))
            (alt (word "un") (alt (word "unid") (seq (word "pc") (opt (word "s"))))))
          at_edge)))

-- (?i)^\s*(\d+(?:[.,]\d+)?)\s*[x×*]\s*
unfoldable pub qty_times : Regex
qty_times = seq at_start (seq blanks (seq number (seq blanks (seq (one_of (codes "x×*")) blanks))))

-- (?i)\b(total|valor\s*total|total\s*geral|amount\s*due)\b
unfoldable pub total_line : Regex
total_line = seq at_edge (
    seq
      (alt (word "total") (
        alt (seq (word "valor") (seq blanks (word "total"))) (
          alt (seq (word "total") (seq blanks (word "geral")))
            (seq (word "amount") (seq blanks (word "due"))))))
      at_edge)

-- (?i)^(cnpj|cpf|cnpj\/cpf|ie|im|inscri[cç][aã]o)\b
unfoldable pub meta_line : Regex
meta_line = seq at_start (
    seq
      (alt (word "cnpj") (
        alt (word "cpf") (
          alt (word "cnpj/cpf") (
            alt (word "ie") (
              alt (word "im") (
                seq (word "inscri")
                  (seq (one_of (codes "cç")) (seq (one_of (codes "aã")) (word "o")))))))))
      at_edge)

-- (?i)(forma\s+de\s+pagamento|pagamento|cart[aã]o|dinheiro|\bpix\b)
unfoldable pub pay_line : Regex
pay_line =
    alt
      (seq (word "forma") (seq some_blanks (seq (word "de") (seq some_blanks (word "pagamento")))))
      (alt (word "pagamento") (
        alt (seq (word "cart") (seq (one_of (codes "aã")) (word "o")))
          (alt (word "dinheiro") (seq at_edge (seq (word "pix") at_edge)))))
  where
    some_blanks : Regex
    some_blanks = plus (one invoice_ocr_poc.Regex.is_blank)

-- ^\d{8,}\s*
unfoldable pub barcode : Regex
barcode = seq at_start (seq (twice (twice (twice digit))) (seq (star digit) blanks))
  where
    twice : Regex → Regex
    twice r = seq r r

-- (?i)^[\s×x*=.-]+$
unfoldable pub junk_desc : Regex
junk_desc =
    seq at_start
      (seq (plus (alt (one invoice_ocr_poc.Regex.is_blank) (one_of (codes "×x*=.-")))) at_end)
