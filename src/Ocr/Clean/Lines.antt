-- ===== src/Ocr/Clean/Lines.antt =====
-- What the loops of `CleanText` keep: the order of the lines with content, and no runs of noise.
use invoice_ocr_poc.Base.{
  Bool, true, false, ◌&&◌, List, [], ◌∷◌, ◌≡◌, refl, arith, is_empty, if◌then◌else◌, All, ap, ◌∙◌,
}
use invoice_ocr_poc.Strings.{Text, split}
use invoice_ocr_poc.Ocr.Clean.{
  Kind, blank, separator, content, kind_of, kinds_of, collapse, line_text, lines_of, is_noise,
  is_separator_line, drop_trailing, kept_lines,
}

-- No two blank lines and no two separators are neighbours; the flags speak of the line before.
abbrev pub IsCollapsed : Bool → Bool → List Kind → Type 0
IsCollapsed b s [] = Unit {0}
IsCollapsed b s (blank ∷ ks) = (b ≡ false) × IsCollapsed true false ks
IsCollapsed b s (separator t ∷ ks) = (s ≡ false) × IsCollapsed false true ks
IsCollapsed b s (content t ∷ ks) = IsCollapsed false false ks

-- The texts of the lines with content.
abbrev pub contents : List Kind → List Text
contents [] = []
contents (blank ∷ ks) = contents ks
contents (separator t ∷ ks) = contents ks
contents (content t ∷ ks) = t ∷ contents ks

collapse-IsCollapsed : (b s : Bool) (ks : List Kind) → IsCollapsed b s (collapse b s ks)
unfolding collapse
collapse-IsCollapsed b s [] = tt
collapse-IsCollapsed b s (blank ∷ ks) =
    ground (arith, collapse-IsCollapsed b s ks, collapse-IsCollapsed true false ks)
collapse-IsCollapsed b s (separator t ∷ ks) =
    ground (arith, collapse-IsCollapsed b s ks, collapse-IsCollapsed false true ks)
collapse-IsCollapsed b s (content t ∷ ks) = collapse-IsCollapsed false false ks

contents-collapse : (b s : Bool) (ks : List Kind) → contents (collapse b s ks) ≡ contents ks
unfolding collapse
contents-collapse b s [] = refl
contents-collapse b s (blank ∷ ks) =
    ground (arith, contents-collapse b s ks, contents-collapse true false ks)
contents-collapse b s (separator t ∷ ks) =
    ground (arith, contents-collapse b s ks, contents-collapse false true ks)
contents-collapse b s (content t ∷ ks) = ap (◌∷◌ t) (contents-collapse false false ks)

collapse_fixed : (b s : Bool) (ks : List Kind) → IsCollapsed b s ks → collapse b s ks ≡ ks
unfolding collapse
collapse_fixed b s [] h = refl
collapse_fixed b s (blank ∷ ks) h = ground (arith, collapse_fixed true false ks h.1)
collapse_fixed b s (separator t ∷ ks) h = ground (arith, collapse_fixed false true ks h.1)
collapse_fixed b s (content t ∷ ks) h = ap (◌∷◌ (content t)) (collapse_fixed false false ks h)

-- Lines that come from `kind_of`: a line with content is no noise, and a separator is one.
abbrev pub IsRead : Kind → Type 0
IsRead blank = Unit {0}
IsRead (separator t) = is_separator_line t ≡ true
IsRead (content t) = is_noise t ≡ false

kind_of-IsRead : (raw : Text) → IsRead (kind_of raw)
unfolding kind_of is_noise
kind_of-IsRead raw = ground arith

kinds_of-IsRead : (lines : List Text) → All IsRead (kinds_of lines)
kinds_of-IsRead [] = tt
kinds_of-IsRead (line ∷ lines) = (kind_of-IsRead line, kinds_of-IsRead lines)

collapse-IsRead : (b s : Bool) (ks : List Kind) → All IsRead ks → All IsRead (collapse b s ks)
unfolding collapse
collapse-IsRead b s [] h = tt
collapse-IsRead b s (blank ∷ ks) h =
    ground (arith, collapse-IsRead b s ks h.1, collapse-IsRead true false ks h.1)
collapse-IsRead b s (separator t ∷ ks) h =
    ground (arith, collapse-IsRead b s ks h.1, collapse-IsRead false true ks h.1)
collapse-IsRead b s (content t ∷ ks) h = (h.0, collapse-IsRead false false ks h.1)

-- `drop_trailing` on kinds.
drop_kinds : List Kind → List Kind
drop_kinds [] = []
drop_kinds (k ∷ ks) =
    let rest = drop_kinds ks in if is_empty rest && is_noise (line_text k) then [] else k ∷ rest

lines_of-drop_kinds : (ks : List Kind) → drop_trailing (lines_of ks) ≡ lines_of (drop_kinds ks)
unfolding drop_trailing drop_kinds
lines_of-drop_kinds [] = refl
lines_of-drop_kinds (k ∷ ks) =
    ground (arith, lines_of-drop_kinds ks, is_empty-lines_of (drop_kinds ks))
  where
    is_empty-lines_of : (js : List Kind) → is_empty (lines_of js) ≡ is_empty js
    is_empty-lines_of [] = refl
    is_empty-lines_of (j ∷ js) = refl

contents_dropped :
    (r : List Kind) (n : Bool) (k : Kind)
    → contents (k ∷ []) ≡ []
    → contents (k ∷ r) ≡ contents r
    → contents (if is_empty r && n then [] else k ∷ r) ≡ contents r
contents_dropped [] true k h e = refl
contents_dropped [] false k h e = h
contents_dropped (j ∷ js) n k h e = e

drop_kinds-IsRead : (ks : List Kind) → All IsRead ks → All IsRead (drop_kinds ks)
unfolding drop_kinds
drop_kinds-IsRead [] h = tt
drop_kinds-IsRead (k ∷ ks) h = ground (arith, drop_kinds-IsRead ks h.1)

contents-drop_kinds : (ks : List Kind) → All IsRead ks → contents (drop_kinds ks) ≡ contents ks
unfolding drop_kinds
contents-drop_kinds [] h = refl
contents-drop_kinds (blank ∷ ks) h =
    contents_dropped (drop_kinds ks) (is_noise []) blank refl refl ∙ contents-drop_kinds ks h.1
contents-drop_kinds (separator t ∷ ks) h =
    contents_dropped (drop_kinds ks) (is_noise t) (separator t) refl refl
    ∙ contents-drop_kinds ks h.1
contents-drop_kinds (content t ∷ ks) h = ground (arith, contents-drop_kinds ks h.1)

drop_kinds-IsCollapsed :
    (b s : Bool) (ks : List Kind) → IsCollapsed b s ks → IsCollapsed b s (drop_kinds ks)
unfolding drop_kinds
drop_kinds-IsCollapsed b s [] h = tt
drop_kinds-IsCollapsed b s (blank ∷ ks) h = ground (arith, drop_kinds-IsCollapsed true false ks h.1)
drop_kinds-IsCollapsed b s (separator t ∷ ks) h =
    ground (arith, drop_kinds-IsCollapsed false true ks h.1)
drop_kinds-IsCollapsed b s (content t ∷ ks) h =
    ground (arith, drop_kinds-IsCollapsed false false ks h)

-- The last line, if there is one, is blank or a separator.
abbrev pub ends_in_noise : List Text → Bool
ends_in_noise [] = false
ends_in_noise (line ∷ []) = is_noise line
ends_in_noise (line ∷ next ∷ lines) = ends_in_noise (next ∷ lines)

onto_dropped :
    (line : Text) (rest : List Text)
    → ends_in_noise rest ≡ false
    → ends_in_noise (if is_empty rest && is_noise line then [] else line ∷ rest) ≡ false
onto_dropped line [] h = ground arith
onto_dropped line (next ∷ rest) h = h

ends_in_noise-drop_trailing : (lines : List Text) → ends_in_noise (drop_trailing lines) ≡ false
unfolding drop_trailing
ends_in_noise-drop_trailing [] = refl
ends_in_noise-drop_trailing (line ∷ lines) =
    onto_dropped line (drop_trailing lines) (ends_in_noise-drop_trailing lines)

-- The lines that `CleanText` keeps of a text are blank lines (empty), separators (lines that
-- `isSeparatorLine` accepts) and lines with content (neither, when they are trimmed): no two blank lines
-- and no two separators are neighbours, the lines with content are those of the text in the same order,
-- and the last line is neither blank nor a separator.
pub kept_lines-contents :
    (s : Text)
    → (ks : List Kind) × (kept_lines s ≡ lines_of ks)
      × (contents ks ≡ contents (kinds_of (split 10 s)))
      × All IsRead ks
      × IsCollapsed false false ks
      × (ends_in_noise (kept_lines s) ≡ false)
unfolding kept_lines
kept_lines-contents s =
    let read = kinds_of (split 10 s) in
    let kept = collapse false false read in
    (
      drop_kinds kept,
      lines_of-drop_kinds kept,
      contents-drop_kinds kept (collapse-IsRead false false read (kinds_of-IsRead (split 10 s)))
          ∙ contents-collapse false false read,
      drop_kinds-IsRead kept (collapse-IsRead false false read (kinds_of-IsRead (split 10 s))),
      drop_kinds-IsCollapsed false false kept (collapse-IsCollapsed false false read),
      ends_in_noise-drop_trailing (lines_of kept),
    )

-- The loop that skips repeated blank lines and separators changes nothing the second time.
collapse_idem :
    (ks : List Kind) → collapse false false (collapse false false ks) ≡ collapse false false ks
collapse_idem ks = collapse_fixed false false _ (collapse-IsCollapsed false false ks)
