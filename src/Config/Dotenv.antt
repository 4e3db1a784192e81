-- ===== src/Config/Dotenv.antt =====
-- internal/config/config.go: `stripQuotes`, `dotenvValue` and `resolveAPIKey`.
use invoice_ocr_poc.Base.{
  Bool, true, ◌&&◌, ◌||◌, Option, none, some, List, [], ◌∷◌, String, is_empty, if◌then◌else◌,
  str_eq, ◌==◌, ℕ,
}
use invoice_ocr_poc.Errors.{Error, Result, ok, err}
use invoice_ocr_poc.Strings.{Text, split, trim_space, same_text}

-- The file system: `os.Stat`'s error, `errors.Is(err, os.ErrNotExist)` and `os.ReadFile`.
pub record Files : Type 0 where
  pub stat : String → Option Error
  pub is_not_exist : Error → Bool
  pub read_file : String → Result Text

-- A text of two characters or more, taken apart: the first, those between, and the last one.
abbrev pub last_of : ℕ → Text → Text × ℕ
last_of c [] = ([], c)
last_of c (d ∷ s) = let (init, last) = last_of d s in (c ∷ init, last)

abbrev pub unquoted : Text → Text
unquoted [] = []
unquoted (c ∷ []) = c ∷ []
unquoted (c ∷ d ∷ s) =
    let (inner, last) = last_of d s in
    if (c == b'\'' && last == b'\'') || (c == b'"' && last == b'"')
    then trim_space inner
    else c ∷ d ∷ s

unfoldable pub strip_quotes : Text → Text
unfolding trim_space
strip_quotes s = unquoted (trim_space s)

-- `strings.Cut(line, "=")`.
abbrev pub cut_at : ℕ → Text → Option (Text × Text)
cut_at sep [] = none
cut_at sep (c ∷ s) =
    if c == sep
    then some ([], s)
    else elim (cut_at sep s) [ none ↦ none | some (key, val) ↦ some (c ∷ key, val) ]

abbrev pub is_comment : Text → Bool
is_comment [] = true
is_comment (c ∷ s) = c == b'#'

abbrev pub line_value : Text → Text → Option Text
line_value want line = elim (cut_at b'=' line) [
  | none ↦ none
  | some (key, val) ↦ if same_text (trim_space key) want then some (strip_quotes val) else none
]

-- The loop of `dotenvValue` over the lines.
unfoldable pub find_value : Text → List Text → Option Text
unfolding trim_space strip_quotes same_text
find_value want [] = none
find_value want (raw ∷ rest) =
    let line = trim_space raw in
    if is_comment line
    then find_value want rest
    else elim (line_value want line) [ some val ↦ some val | none ↦ find_value want rest ]

-- `dotenvValue`; `none` stands for the second result `false`.
unfoldable pub dotenv_value : Files → String → Text → Option Text
unfolding split find_value
dotenv_value fs path want =
    if str_eq path ""
    then none
    else elim (fs.read_file path) [ err e ↦ none | ok raw ↦ find_value want (split b'\n' raw) ]

unfoldable pub resolve_api_key : Option Text → Text → Text
unfolding strip_quotes
resolve_api_key none viper_key = strip_quotes viper_key
resolve_api_key (some file_key) viper_key =
    if is_empty file_key then strip_quotes viper_key else file_key
