-- ===== src/Regex/Fuel.antt =====
-- The matcher's loops have fuel enough: a match never lengthens the text, and it shortens it by the
-- characters that its pattern takes at least, so that more rounds than the text is long find nothing more.
use mathlib.Core.List.{flat_map}
use invoice_ocr_poc.Base.{
  subst, ℕ, zero, suc, ◌+◌, ◌-◌, ◌≤◌, ◌<◌, Bool, true, false, Option, none, some, List, [], ◌∷◌,
  ◌++◌, ◌≡◌, refl, sym, ap, ap₂, length, leb, ltb, if◌then◌else◌, arith, inl, inr, Bool-cases,
  Option-cases,
}
use invoice_ocr_poc.Strings.{Text}
use invoice_ocr_poc.Regex.{
  Regex, empty, at_start, at_end, at_edge, one, seq, alt, opt, star, capture, Place, step_one, take,
  loop, only_if, first_of_list, ends, find, captures_from, replace_from,
}

-- Each place of a list is at least `w` characters behind a text of `n`.
abbrev pub Within : ℕ → ℕ → List Place → Type 0
Within w n [] = Unit
Within w n (q ∷ qs) = (w + length q.rest ≤ n) × Within w n qs

Within-cat : (w n : ℕ) (ps qs : List Place) → Within w n ps → Within w n qs → Within w n (ps ++ qs)
Within-cat w n [] qs h k = k
Within-cat w n (p ∷ ps) qs h k = (h.0, Within-cat w n ps qs h.1 k)

Within-le : (v w m n : ℕ) (ps : List Place) → v + m ≤ w + n → Within w m ps → Within v n ps
Within-le v w m n [] le h = tt
Within-le v w m n (p ∷ ps) le h = (omega (arith, h.0, le), Within-le v w m n ps le h.1)

Within-flat_map :
    (v w n : ℕ) (f : Place → List Place) (ps : List Place)
    → Within v n ps
    → ((q : Place) → Within w (length q.rest) (f q))
    → Within (v + w) n (flat_map f ps)
unfolding flat_map
Within-flat_map v w n f [] h k = tt
Within-flat_map v w n f (p ∷ ps) h k =
    Within-cat (v + w) n (f p) (flat_map f ps)
      (Within-le (v + w) w (length p.rest) n (f p) (omega (arith, h.0)) (k p))
      (Within-flat_map v w n f ps h.1 k)

-- The least number of characters that a match takes.
abbrev pub width : Regex → ℕ
width empty = 0
width at_start = 0
width at_end = 0
width at_edge = 0
width (one test) = 1
width (seq r s) = width r + width s
width (alt r s) = if leb (width r) (width s) then width r else width s
width (opt r) = 0
width (star r) = 0
width (capture r) = width r

abbrev guarded : ℕ → (Place → List Place) → Place → Place → List Place
guarded n f p q = elim (ltb (length q.rest) (length p.rest)) [ true ↦ loop n f q | false ↦ [] ]

guards-Within :
    (n : ℕ) (f : Place → List Place) (p : Place)
    → ((q : Place) → Within 0 (length q.rest) (loop n f q))
    → (ps : List Place) → Within 0 (length p.rest) (flat_map (guarded n f p) ps)
unfolding flat_map
guards-Within n f p ih [] = tt
guards-Within n f p ih (q ∷ ps) =
    let rest = guards-Within n f p ih ps in
    Within-cat 0 (length p.rest) (guarded n f p q) (flat_map (guarded n f p) ps)
      (elim (Bool-cases (ltb (length q.rest) (length p.rest))) [
        | inl shorter ↦
            rw (guarded, shorter)
              (Within-le 0 0 (length q.rest) (length p.rest) (loop n f q) (ground arith) (ih q))
        | inr longer ↦ rw (guarded, longer) tt
      ])
      rest

loop-Within : (n : ℕ) (f : Place → List Place) (p : Place) → Within 0 (length p.rest) (loop n f p)
unfolding loop
loop-Within zero f p = (omega arith, tt)
loop-Within (suc n) f p =
    Within-cat 0 (length p.rest) (flat_map (guarded n f p) (f p)) (p ∷ [])
      (guards-Within n f p (λ q. loop-Within n f q) (f p)) (omega arith, tt)

-- More rounds than characters change nothing.
same_guards :
    (n m : ℕ) (f : Place → List Place) (p : Place)
    → ((q : Place) → length q.rest < length p.rest → loop n f q ≡ loop m f q)
    → (ps : List Place) → flat_map (guarded n f p) ps ≡ flat_map (guarded m f p) ps
unfolding flat_map
same_guards n m f p ih [] = refl
same_guards n m f p ih (q ∷ ps) =
    let rest = same_guards n m f p ih ps in
    let here : guarded n f p q ≡ guarded m f p q =
      elim (Bool-cases (ltb (length q.rest) (length p.rest))) [
        | inl shorter ↦ rw (guarded, shorter) (ih q (ground arith))
        | inr longer ↦ rw (guarded, longer) refl
      ] in
    ap₂ (λ a b. a ++ b) here rest

no_guards :
    (n : ℕ) (f : Place → List Place) (p : Place)
    → length p.rest ≤ 0
    → (ps : List Place) → flat_map (guarded n f p) ps ≡ []
unfolding flat_map
no_guards n f p h [] = refl
no_guards n f p h (q ∷ ps) =
    let none_shorter : ltb (length q.rest) (length p.rest) ≡ false = ground arith in
    rw (guarded, none_shorter) (no_guards n f p h ps)

loop_fuel :
    (n m : ℕ) (f : Place → List Place) (p : Place)
    → length p.rest ≤ n
    → length p.rest ≤ m
    → loop n f p ≡ loop m f p
unfolding loop
loop_fuel zero zero f p a b = refl
loop_fuel zero (suc m) f p a b = ap (λ ps. ps ++ p ∷ []) (sym (no_guards m f p a (f p)))
loop_fuel (suc n) zero f p a b = ap (λ ps. ps ++ p ∷ []) (no_guards n f p b (f p))
loop_fuel (suc n) (suc m) f p a b =
    ap (λ ps. ps ++ p ∷ [])
      (same_guards n m f p
        (λ q shorter. loop_fuel n m f q (omega (arith, shorter, a)) (omega (arith, shorter, b)))
        (f p))

step_one-Within :
    (test : ℕ → Bool) (prev : Option ℕ) (s captured : Text)
    → Within 1 (length s) (step_one test prev s captured)
unfolding step_one
step_one-Within test prev [] captured = tt
step_one-Within test prev (c ∷ s) captured = elim (Bool-cases (test c)) [
  | inl holds ↦ rw holds (omega arith, tt)
  | inr fails ↦ rw fails tt
]

only_if-Within : (b : Bool) (p : Place) → Within 0 (length p.rest) (only_if b p)
only_if-Within true p = (omega arith, tt)
only_if-Within false p = tt

-- A match takes at least the pattern's width.
ends-Within : (r : Regex) (p : Place) → Within (width r) (length p.rest) (ends r p)
unfolding ends
ends-Within empty p = (omega arith, tt)
ends-Within at_start p = only_if-Within _ p
ends-Within at_end p = only_if-Within _ p
ends-Within at_edge p = only_if-Within _ p
ends-Within (one test) p = step_one-Within test p.prev p.rest p.captured
ends-Within (seq r s) p =
    Within-flat_map (width r) (width s) (length p.rest) (ends s) (ends r p) (ends-Within r p)
      (ends-Within s)
ends-Within (alt r s) p =
    let least_left : width (alt r s) ≤ width r = ground arith in
    let least_right : width (alt r s) ≤ width s = ground arith in
    let n = length p.rest in
    Within-cat (width (alt r s)) n (ends r p) (ends s p)
      (Within-le (width (alt r s)) (width r) n n (ends r p) (omega arith) (ends-Within r p))
      (Within-le (width (alt r s)) (width s) n n (ends s p) (omega arith) (ends-Within s p))
ends-Within (opt r) p =
    Within-cat 0 (length p.rest) (ends r p) (p ∷ [])
      (Within-le 0 (width r) (length p.rest) (length p.rest) (ends r p) (omega arith)
        (ends-Within r p))
      (omega arith, tt)
ends-Within (star r) p = loop-Within (length p.rest) (ends r) p
ends-Within (capture r) p =
    let n = length p.rest in
    Within-le (width r) (width r + 0) n n (ends (capture r) p) (omega arith) (
      Within-flat_map (width r) 0 n
        (λ q. record q { captured = take (n - length q.rest) p.rest } ∷ []) (ends r p)
        (ends-Within r p) (λ q. (omega arith, tt)))

first-Within :
    (w n : ℕ) (ps : List Place) (q : Place)
    → Within w n ps
    → first_of_list ps ≡ some q
    → w + length q.rest ≤ n
first-Within w n [] q h found = absurd (cc found)
first-Within w n (p ∷ ps) q h found =
    let same : p ≡ q = cc found in subst (λ x. w + length x.rest ≤ n) same h.0

same_place :
    (a b : Text) (p q : Place) → ◌≡◌ {A = Option (Text × Place)} (some (a, p)) (some (b, q)) → p ≡ q
same_place a b p q h = ap (λ x. elim x [ none ↦ p | some found ↦ found.1 ]) h

-- What is found leaves a text that is shorter by the pattern's width, at least.
find-shortens :
    (r : Regex) (prev : Option ℕ) (s skipped : Text) (q : Place)
    → find r prev s ≡ some (skipped, q)
    → width r + length q.rest ≤ length s
unfolding find
find-shortens r prev [] skipped q found =
    let start : Place = record { prev = prev; rest = []; captured = [] } in
    elim (Option-cases (first_of_list (ends r start))) [
      | inl fails ↦ absurd (cc (rw (find, fails) at found))
      | inr (p, ends_at) ↦
          let same : p ≡ q = same_place [] skipped p q (rw (find, ends_at) at found) in
          first-Within (width r) 0 (ends r start) q (ends-Within r start) cc
    ]
find-shortens r prev (c ∷ s) skipped q found =
    let start : Place = record { prev = prev; rest = c ∷ s; captured = [] } in
    elim (Option-cases (first_of_list (ends r start))) [
      | inl fails ↦ elim (Option-cases (find r (some c) s)) [
        | inl nowhere ↦ absurd (cc (rw (find, fails, nowhere) at found))
        | inr ((before, p), later) ↦
            let same : p ≡ q =
              same_place (c ∷ before) skipped p q (rw (find, fails, later) at found) in
            let shorter = find-shortens r (some c) s before p later in
            let behind : width r + length q.rest ≤ length s =
              subst (λ x. width r + length x.rest ≤ length s) same shorter in
            omega (arith, behind)
      ]
      | inr (p, ends_at) ↦
          let same : p ≡ q = same_place [] skipped p q (rw (find, ends_at) at found) in
          first-Within (width r) (suc (length s)) (ends r start) q (ends-Within r start) cc
    ]

-- A pattern that takes a character finds nothing in an empty text.
find-nowhere :
    (r : Regex) (prev : Option ℕ) (s : Text) → 1 ≤ width r → length s ≤ 0 → find r prev s ≡ none
find-nowhere r prev s wide bare = elim (Option-cases (find r prev s)) [
  | inl nowhere ↦ nowhere
  | inr ((skipped, q), found) ↦
      let shorter = find-shortens r prev s skipped q found in
      absurd (omega (arith, wide, bare, shorter))
]

-- The captures of a pattern that takes a character are the same with any fuel that the text is not longer than.
pub captures_fuel :
    (n m : ℕ) (r : Regex) (prev : Option ℕ) (s : Text)
    → 1 ≤ width r
    → length s ≤ n
    → length s ≤ m
    → captures_from n r prev s ≡ captures_from m r prev s
unfolding captures_from
captures_fuel zero zero r prev s wide a b = refl
captures_fuel zero (suc m) r prev s wide a b = rw (captures_from, find-nowhere r prev s wide a) refl
captures_fuel (suc n) zero r prev s wide a b = rw (captures_from, find-nowhere r prev s wide b) refl
captures_fuel (suc n) (suc m) r prev s wide a b = elim (Option-cases (find r prev s)) [
  | inl nowhere ↦ rw (captures_from, nowhere) refl
  | inr ((skipped, q), found) ↦
      let shorter = find-shortens r prev s skipped q found in
      let rest =
        captures_fuel n m r q.prev q.rest wide (omega (arith, shorter, a, wide))
          (omega (arith, shorter, b, wide)) in
      rw (captures_from, found) (ap (λ cs. q.captured ∷ cs) rest)
]

-- And so is the text with all matches replaced.
pub replace_fuel :
    (n m : ℕ) (r : Regex) (new : Text) (prev : Option ℕ) (s : Text)
    → 1 ≤ width r
    → length s ≤ n
    → length s ≤ m
    → replace_from n r new prev s ≡ replace_from m r new prev s
unfolding replace_from
replace_fuel zero zero r new prev s wide a b = refl
replace_fuel zero (suc m) r new prev s wide a b =
    rw (replace_from, find-nowhere r prev s wide a) refl
replace_fuel (suc n) zero r new prev s wide a b =
    rw (replace_from, find-nowhere r prev s wide b) refl
replace_fuel (suc n) (suc m) r new prev s wide a b = elim (Option-cases (find r prev s)) [
  | inl nowhere ↦ rw (replace_from, nowhere) refl
  | inr ((skipped, q), found) ↦
      let shorter = find-shortens r prev s skipped q found in
      let rest =
        replace_fuel n m r new q.prev q.rest wide (omega (arith, shorter, a, wide))
          (omega (arith, shorter, b, wide)) in
      rw (replace_from, found) (ap (λ t. skipped ++ new ++ t) rest)
]
