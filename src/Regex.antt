-- ===== src/Regex.antt =====
-- The part of Go's `regexp` that internal/extract/extract.go uses: leftmost matches, and among those
-- the first that a backtracking search finds. A pattern has at most one capture group.
pub mod Fuel
use mathlib.Core.List.{flat_map}
use invoice_ocr_poc.Base.{
  ℕ, zero, suc, ◌+◌, ◌-◌, Bool, true, false, not, ◌&&◌, ◌||◌, Option, none, some, List, [], ◌∷◌,
  ◌++◌, String, length, leb, ltb, ◌==◌, if◌then◌else◌, is_empty,
}
use invoice_ocr_poc.Strings.{Text, codes}

pub data Regex : Type 0 where
  empty at_start at_end at_edge : Regex
  one : (ℕ → Bool) → Regex
  seq alt : Regex → Regex → Regex
  opt star capture : Regex → Regex

-- The character before the place of the match, the text behind it, and the capture so far.
pub record Place : Type 0 where
  pub prev : Option ℕ
  pub rest : Text
  pub captured : Text

unfoldable pub is_digit : ℕ → Bool
is_digit c = leb b'0' c && leb c b'9'

-- `\s` and the word characters of `\b`.
unfoldable pub is_blank : ℕ → Bool
is_blank c = c == 9 || c == 10 || c == 12 || c == 13 || c == 32

unfoldable pub is_word : ℕ → Bool
unfolding is_digit
is_word c = is_digit c || (leb b'a' c && leb c b'z') || (leb b'A' c && leb c b'Z') || c == b'_'

unfoldable pub word_before : Option ℕ → Bool
unfolding is_word
word_before none = false
word_before (some c) = is_word c

unfoldable pub word_behind : Text → Bool
unfolding is_word
word_behind [] = false
word_behind (c ∷ s) = is_word c

unfoldable pub on_edge : Place → Bool
unfolding word_before word_behind
on_edge p = if word_before p.prev then not (word_behind p.rest) else word_behind p.rest

abbrev only_if : Bool → Place → List Place
only_if b p = if b then p ∷ [] else []

abbrev is_none {ℓ} : {A : Type ℓ} → Option A → Bool
is_none none = true
is_none (some a) = false

unfoldable pub step_one : (ℕ → Bool) → Option ℕ → Text → Text → List Place
step_one test prev [] captured = []
step_one test prev (c ∷ s) captured =
    if test c then record { prev = some c; rest = s; captured = captured } ∷ [] else []

-- The first `n` characters.
unfoldable pub take : ℕ → Text → Text
take zero s = []
take (suc n) [] = []
take (suc n) (c ∷ s) = c ∷ take n s

-- A greedy loop: each round takes at least one character, so the rounds are fewer than the text.
unfoldable pub loop : ℕ → (Place → List Place) → Place → List Place
loop zero f p = p ∷ []
loop (suc n) f p =
    flat_map (λ q. elim (ltb (length q.rest) (length p.rest)) [ true ↦ loop n f q | false ↦ [] ])
      (f p)
    ++ p ∷ []

-- The places where a match that begins at a place can end, the preferred one first.
unfoldable pub ends : Regex → Place → List Place
unfolding on_edge step_one loop take flat_map is_blank is_digit
ends empty p = p ∷ []
ends at_start p = only_if (is_none p.prev) p
ends at_end p = only_if (is_empty p.rest) p
ends at_edge p = only_if (on_edge p) p
ends (one test) p = step_one test p.prev p.rest p.captured
ends (seq r s) p = flat_map (ends s) (ends r p)
ends (alt r s) p = ends r p ++ ends s p
ends (opt r) p = ends r p ++ p ∷ []
ends (star r) p = loop (length p.rest) (ends r) p
ends (capture r) p =
    flat_map {B = Place}
      (λ q. record q { captured = take (length p.rest - length q.rest) p.rest } ∷ []) (ends r p)

abbrev first_of_list : List Place → Option Place
first_of_list [] = none
first_of_list (p ∷ ps) = some p

-- The leftmost match: the text before it, and the place behind it.
unfoldable pub find : Regex → Option ℕ → Text → Option (Text × Place)
unfolding ends
find r prev [] = elim (first_of_list (ends r (record { prev = prev; rest = []; captured = [] }))) [
  | none ↦ none
  | some q ↦ some ([], q)
]
find r prev (c ∷ s) =
    elim (first_of_list (ends r (record { prev = prev; rest = c ∷ s; captured = [] }))) [
      | some q ↦ some ([], q)
      | none ↦ elim (find r (some c) s) [ none ↦ none | some (skipped, q) ↦ some (c ∷ skipped, q) ]
    ]

-- `MatchString`.
unfoldable pub matches : Regex → Text → Bool
unfolding find
matches r s = not (is_none (find r none s))

-- The capture of `FindStringSubmatch`.
unfoldable pub submatch : Regex → Text → Option Text
unfolding find
submatch r s = elim (find r none s) [ none ↦ none | some (skipped, q) ↦ some q.captured ]

-- The captures of `FindAllStringSubmatch`. A pattern that matches no empty text takes at least a
-- character in each round, so the length of the text is fuel enough.
unfoldable pub captures_from : ℕ → Regex → Option ℕ → Text → List Text
unfolding find
captures_from zero r prev s = []
captures_from (suc n) r prev s = elim (find r prev s) [
  | none ↦ []
  | some (skipped, q) ↦ q.captured ∷ captures_from n r q.prev q.rest
]

unfoldable pub captures : Regex → Text → List Text
unfolding captures_from
captures r s = captures_from (length s) r none s

-- `ReplaceAllString`.
unfoldable pub replace_from : ℕ → Regex → Text → Option ℕ → Text → Text
unfolding find
replace_from zero r new prev s = s
replace_from (suc n) r new prev s = elim (find r prev s) [
  | none ↦ s
  | some (skipped, q) ↦ skipped ++ new ++ replace_from n r new q.prev q.rest
]

unfoldable pub replace_all : Regex → Text → Text → Text
unfolding replace_from
replace_all r s new = replace_from (length s) r new none s

-- A character under `(?i)`: with its other case, and with the signs that fold to `k` and `s`.
abbrev pub folded : ℕ → ℕ → Bool
folded a c =
    c == a
    || (leb b'a' a && leb a b'z' && c + 32 == a)
    || (leb 0xe0 a && leb a 0xfe && not (a == 0xf7) && c + 32 == a)
    || (a == b'k' && c == 0x212a)
    || (a == b's' && c == 0x17f)

abbrev pub word_of : Text → Regex
word_of [] = empty
word_of (a ∷ s) = seq (one (folded a)) (word_of s)

-- A word in lower case, under `(?i)`.
abbrev pub word : String → Regex
word s = word_of (codes s)

abbrev pub one_of : Text → Regex
one_of [] = one (λ c. false)
one_of (a ∷ s) = alt (one (folded a)) (one_of s)

abbrev pub plus : Regex → Regex
plus r = seq r (star r)

abbrev pub digit : Regex
digit = one is_digit

abbrev pub blanks : Regex
blanks = star (one is_blank)
