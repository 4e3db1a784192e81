-- ===== src/Ocr/Clean.antt =====
-- internal/ocr/clean.go (`CleanText`, `isSeparatorLine`) and `trimOCRFences` of
-- internal/ocr/ollama.go.
pub mod Lines
use invoice_ocr_poc.Base.{
  ℕ, Bool, true, false, not, ◌&&◌, ◌||◌, Option, none, some, List, [], ◌∷◌, ◌++◌, ◌==◌, is_empty,
  if◌then◌else◌,
}
use invoice_ocr_poc.Strings.{
  Text, codes, trim_space, trim_by, trim_right_by, split, join, cut_prefix, before,
}

unfoldable pub trim_ocr_fences : Text → Text
trim_ocr_fences raw =
    let text = trim_space raw in
    let opened : Text = elim (cut_prefix (codes "```markdown") text) [
      | some after ↦ trim_space after
      | none ↦ elim (cut_prefix (codes "```") text) [ some after ↦ trim_space after | none ↦ text ]
    ] in
    let closed : Text = elim (before (10 ∷ codes "```") opened) [
      | some kept ↦ trim_space kept
      | none ↦ opened
    ] in
    trim_space closed

unfoldable pub is_separator_line : Text → Bool
is_separator_line s =
    not (is_empty s) && is_empty (trim_by (λ c. c == b'-' || c == b'|' || c == b':' || c == b' ') s)

-- What one line is to the loop: its text as it would be kept.
pub data Kind : Type 0 where
  blank : Kind
  separator : Text → Kind
  content : Text → Kind

unfoldable pub kind_of : Text → Kind
kind_of raw =
    let line = trim_right_by (λ c. c == 13) raw in
    let trimmed = trim_space line in
    if is_empty trimmed
    then blank
    else if is_separator_line trimmed
    then separator trimmed
    else content line

-- The loop over the lines, with its two flags `prevBlank` and `prevSep`; the lines come out in order.
unfoldable pub collapse : Bool → Bool → List Kind → List Kind
collapse prev_blank prev_sep [] = []
collapse prev_blank prev_sep (blank ∷ ks) =
    let skipped = collapse prev_blank prev_sep ks in
    let kept = blank ∷ collapse true false ks in if prev_blank then skipped else kept
collapse prev_blank prev_sep (separator t ∷ ks) =
    let skipped = collapse prev_blank prev_sep ks in
    let kept = separator t ∷ collapse false true ks in if prev_sep then skipped else kept
collapse prev_blank prev_sep (content t ∷ ks) = content t ∷ collapse false false ks

abbrev pub line_text : Kind → Text
line_text blank = []
line_text (separator t) = t
line_text (content t) = t

abbrev pub lines_of : List Kind → List Text
lines_of [] = []
lines_of (k ∷ ks) = line_text k ∷ lines_of ks

abbrev pub kinds_of : List Text → List Kind
kinds_of [] = []
kinds_of (line ∷ lines) = kind_of line ∷ kinds_of lines

-- The second loop: drop lines from the end while they are blank or separators.
unfoldable pub is_noise : Text → Bool
is_noise line = let last = trim_space line in is_empty last || is_separator_line last

unfoldable pub drop_trailing : List Text → List Text
drop_trailing [] = []
drop_trailing (line ∷ lines) =
    let rest = drop_trailing lines in if is_empty rest && is_noise line then [] else line ∷ rest

unfoldable pub kept_lines : Text → List Text
unfolding drop_trailing collapse
kept_lines s = drop_trailing (lines_of (collapse false false (kinds_of (split 10 s))))

unfoldable pub clean_text : Text → Text
unfolding trim_ocr_fences kept_lines
clean_text raw =
    let s = trim_ocr_fences raw in if is_empty s then [] else trim_space (join 10 (kept_lines s))
