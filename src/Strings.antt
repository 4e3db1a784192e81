-- ===== src/Strings.antt =====
-- The functions of Go's `strings` that the program calls, on texts as lists of code points.
use Prim.Native.Char.{code}
use invoice_ocr_poc.Base.{
  ℕ, ◌+◌, ◌≡◌, Bool, true, false, ◌&&◌, ◌||◌, Option, none, some, List, [], ◌∷◌, ◌++◌, String,
  arith, leb, ltb, ◌==◌, if◌then◌else◌, is_empty, ◌↔◌,
}

abbrev pub Text : Type 0
Text = List ℕ

abbrev pub codes : String → Text
codes String.[] = []
codes (String.◌∷◌ c s) = code c ∷ codes s

unfoldable pub same_text : Text → Text → Bool
same_text [] [] = true
same_text [] (d ∷ t) = false
same_text (c ∷ s) [] = false
same_text (c ∷ s) (d ∷ t) = c == d && same_text s t

-- The bytes of the text in UTF-8, which is what `len` counts.
unfoldable pub byte_length : Text → ℕ
byte_length [] = 0
byte_length (c ∷ s) =
    (if ltb c 0x80 then 1 else if ltb c 0x800 then 2 else if ltb c 0x10000 then 3 else 4)
    + byte_length s

-- `unicode.IsSpace`.
unfoldable pub is_space : ℕ → Bool
is_space c =
    (leb 9 c && leb c 13)
    || c == 32
    || c == 0x85
    || c == 0xa0
    || c == 0x1680
    || (leb 0x2000 c && leb c 0x200a)
    || c == 0x2028
    || c == 0x2029
    || c == 0x202f
    || c == 0x205f
    || c == 0x3000

unfoldable pub trim_left_by : (ℕ → Bool) → Text → Text
trim_left_by p [] = []
trim_left_by p (c ∷ s) = if p c then trim_left_by p s else c ∷ s

unfoldable pub trim_right_by : (ℕ → Bool) → Text → Text
trim_right_by p [] = []
trim_right_by p (c ∷ s) =
    let rest = trim_right_by p s in if p c && is_empty rest then [] else c ∷ rest

unfoldable pub trim_by : (ℕ → Bool) → Text → Text
unfolding trim_left_by trim_right_by
trim_by p s = trim_right_by p (trim_left_by p s)

unfoldable pub trim_space : Text → Text
unfolding trim_by is_space
trim_space = trim_by is_space

-- `strings.Split` by one character: one part more than there are separators.
abbrev onto_first : ℕ → List Text → List Text
onto_first c [] = (c ∷ []) ∷ []
onto_first c (part ∷ parts) = (c ∷ part) ∷ parts

unfoldable pub split : ℕ → Text → List Text
split sep [] = [] ∷ []
split sep (c ∷ s) = if c == sep then [] ∷ split sep s else onto_first c (split sep s)

unfoldable pub join : ℕ → List Text → Text
join sep [] = []
join sep (part ∷ []) = part
join sep (part ∷ next ∷ parts) = part ++ sep ∷ join sep (next ∷ parts)

-- `strings.CutPrefix`: the text behind the prefix.
unfoldable pub cut_prefix : Text → Text → Option Text
cut_prefix [] s = some s
cut_prefix (p ∷ ps) [] = none
cut_prefix (p ∷ ps) (c ∷ s) = if p == c then cut_prefix ps s else none

-- `strings.TrimPrefix` and `strings.TrimSuffix`; the suffix is not empty.
unfoldable pub trim_prefix : Text → Text → Text
unfolding cut_prefix
trim_prefix part s = elim (cut_prefix part s) [ none ↦ s | some rest ↦ rest ]

unfoldable pub trim_suffix : Text → Text → Text
unfolding same_text
trim_suffix part [] = []
trim_suffix part (c ∷ s) = if same_text (c ∷ s) part then [] else c ∷ trim_suffix part s

-- The text before the first occurrence of a part: `s[:strings.Index(s, part)]`.
unfoldable pub before : Text → Text → Option Text
before part [] = if is_empty part then some [] else none
before part (c ∷ s) = elim (cut_prefix part (c ∷ s)) [
  | some after ↦ some []
  | none ↦ elim (before part s) [ none ↦ none | some t ↦ some (c ∷ t) ]
]

unfoldable pub replace_char : ℕ → Text → Text → Text
replace_char old new [] = []
replace_char old new (c ∷ s) =
    if c == old then new ++ replace_char old new s else c ∷ replace_char old new s

unfoldable pub contains_char : ℕ → Text → Bool
contains_char c [] = false
contains_char c (d ∷ s) = c == d || contains_char c s

-- `strings.ToLower`: the ASCII letters, and the two other letters with a lower case in ASCII (the dotted
-- capital I and the Kelvin sign). Other letters are kept: the results are compared with ASCII texts, in
-- which they do not occur, and, in `sameModel`, with each other.
unfoldable pub to_lower : Text → Text
to_lower [] = []
to_lower (c ∷ s) =
    let rest = to_lower s in
    (if leb b'A' c && leb c b'Z'
      then c + 32
      else if c == 0x130
      then b'i'
      else if c == 0x212a
      then b'k'
      else c)
    ∷ rest

pub same_text_iff : (s t : Text) → (same_text s t ≡ true) ↔ (s ≡ t)
unfolding same_text
same_text_iff [] [] = ground arith
same_text_iff [] (d ∷ t) = ground arith
same_text_iff (c ∷ s) [] = ground arith
same_text_iff (c ∷ s) (d ∷ t) = ground (arith, same_text_iff s t)

pub same_text_self : (s : Text) → same_text s s ≡ true
unfolding same_text
same_text_self [] = ground arith
same_text_self (c ∷ s) = ground (arith, same_text_self s)
