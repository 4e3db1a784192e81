-- ===== src/Extract/Items.antt =====
-- What `Parse` guarantees of its items and totals.
use invoice_ocr_poc.Base.{
  ℕ, ◌+◌, ◌≤◌, Bool, true, false, List, [], ◌∷◌, ◌++◌, ◌≡◌, arith, is_empty, length, length-append,
  All, All-append, ◌⊎◌, inl, inr, Bool-cases, ◌||◌,
}
use invoice_ocr_poc.Float.{Float, nought}
use invoice_ocr_poc.Strings.{Text, split, trim_space}
use invoice_ocr_poc.Regex.{matches}
use invoice_ocr_poc.Extract.Patterns.{total_line, meta_line}
use invoice_ocr_poc.Extract.{Item}
use invoice_ocr_poc.Extract.Parse.{
  Scan, start, item_from_line, scan_amounts, scan_words, scan_line, scan_lines, finish, parse,
  parse_amounts,
}

module _ {F : Type 0} ⦃d : Float F⦄ where
  -- An item that has a description and a quantity other than zero.
  pub record IsFilled (it : Item F) : Type 0 where
    pub described : is_empty it.description ≡ false
    pub counted : d.eq it.quantity nought ≡ false

  -- A step of the loop leaves the items, or adds one that is filled.
  abbrev Grows : List (Item F) → List (Item F) → Type 0
  Grows old new = (new ≡ old) ⊎ ((it : Item F) × IsFilled it × (new ≡ old ++ it ∷ []))

  module _ (one-ne-zero : d.eq (d.decimal 1 1) nought ≡ false) where
    item_from_line-IsFilled :
        (line : Text) (first : F) (more : List F) (pending : Text)
        → IsFilled (item_from_line line first more pending)
    unfolding item_from_line
    item_from_line-IsFilled line first more pending = ground arith

    module _ (is_letter : ℕ → Bool) where
      scan_amounts-Grows :
          (line : Text) (first : F) (more : List F) (st : Scan F)
          → Grows st.items (scan_amounts is_letter line first more st).items
      unfolding scan_amounts
      scan_amounts-Grows line first more st =
          elim (Bool-cases (matches total_line line || st.pending_pay)) [
            | inl total ↦ inl (rw total)
            | inr no_total ↦ inr (
              item_from_line line first more st.pending_desc,
              item_from_line-IsFilled line first more st.pending_desc,
              rw no_total,
            )
          ]

      scan_words_items :
          (line : Text) (st : Scan F) → (scan_words is_letter line st).items ≡ st.items
      unfolding scan_words
      scan_words_items line st = ground arith

      scan_found-Grows :
          (line : Text) (amounts : List F) (st : Scan F)
          → Grows st.items
              (elim amounts as (λ x. Scan F) [
                | [] ↦ scan_words is_letter line st
                | first ∷ more ↦ scan_amounts is_letter line first more st
              ]).items
      scan_found-Grows line [] st = inl (scan_words_items line st)
      scan_found-Grows line (first ∷ more) st = scan_amounts-Grows line first more st

      scan_line-Grows :
          (raw : Text) (st : Scan F) → Grows st.items (scan_line is_letter raw st).items
      unfolding scan_line
      scan_line-Grows raw st =
          let line = trim_space raw in
          elim (Bool-cases (is_empty line)) [
            | inl e ↦ inl (rw e)
            | inr e ↦ elim (Bool-cases (matches meta_line line)) [
              | inl m ↦ inl (rw (e, m))
              | inr m ↦ rw (e, m) (scan_found-Grows line (parse_amounts line) st)
            ]
          ]

      Grows-IsFilled :
          {old new : List (Item F)}
          → Grows old new
          → All IsFilled old
          → All IsFilled new × (length new ≤ length old + 1)
      Grows-IsFilled {old} (inl e) h = rw e (h, omega arith)
      Grows-IsFilled {old} (inr (it, filled, e)) h = rw e (
        All-append IsFilled old (it ∷ []) h (filled, tt),
        omega (arith, length-append old (it ∷ [])),
      )

      scan_lines-IsFilled :
          (lines : List Text) (st : Scan F)
          → All IsFilled st.items
          → let items = (scan_lines is_letter lines st).items in
            All IsFilled items × (length items ≤ length st.items + length lines)
      unfolding scan_lines
      scan_lines-IsFilled [] st h = (h, omega arith)
      scan_lines-IsFilled (raw ∷ lines) st h =
          let one = Grows-IsFilled (scan_line-Grows raw st) h in
          let rest = scan_lines-IsFilled lines (scan_line is_letter raw st) one.0 in
          (rest.0, omega (arith, one.1, rest.1))

      finish_total :
          (st : Scan F)
          → ((finish st).found_total ≡ true)
            ⊎ ((finish st).estimated_total ≡ (finish st).computed_items_total)
      unfolding finish
      finish_total st = elim (Bool-cases st.found_total) [ inl e ↦ inl e | inr e ↦ inr (rw e) ]

      -- Provided that 1 is not 0: every item of a parse has a description and a quantity that is not
      -- zero, there are no more items than lines, and the parse found a total line or
      -- estimates the total by the sum of its items.
      pub parse-IsFilled :
          (ocr_text : Text)
          → let r = parse {F = F} is_letter ocr_text in
            All IsFilled r.items
            × (length r.items ≤ length (split 10 ocr_text))
            × ((r.found_total ≡ true) ⊎ (r.estimated_total ≡ r.computed_items_total))
      unfolding parse finish
      parse-IsFilled ocr_text =
          let scanned = scan_lines-IsFilled (split 10 ocr_text) start tt in
          (
            scanned.0,
            omega (arith, scanned.1),
            finish_total (scan_lines is_letter (split 10 ocr_text) start),
          )
