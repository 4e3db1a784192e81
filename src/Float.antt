-- ===== src/Float.antt =====
-- What the program does with a `float64`, as an interface: floating point arithmetic is the
-- hardware's. `Micros` is a value of it, exact millionths, on which the definitions run.
use invoice_ocr_poc.Base.{
  ℕ, ◌+◌, ◌*◌, ◌/◌, ◌%◌, ◌^◌, Bool, Option, none, some, List, [], ◌∷◌, Int64, is_neg, if◌then◌else◌,
  leb, ◌&&◌, ◌-◌, ◌==◌, length,
}
use invoice_ocr_poc.Base.Int.{
  ℤ, pos, ◌+ℤ◌, ◌-ℤ◌, ◌*ℤ◌, over, ltb_ℤ, eqb_ℤ, pos_part, neg_part, sub_ℕ,
}

pub record Float (F : Type 0) : Type 0 where
  -- `decimal a b` is the `float64` nearest to the literal a / b.
  pub decimal : ℕ → ℕ → F
  pub add : F → F → F
  pub sub : F → F → F
  pub mul : F → F → F
  pub div : F → F → F
  pub neg : F → F
  pub lt : F → F → Bool
  pub le : F → F → Bool
  pub eq : F → F → Bool
  -- `math.Abs`, `math.Round`, `int(v)`, `float64(n)` and `strconv.ParseFloat`.
  pub magnitude : F → F
  pub round : F → F
  pub truncate : F → Int64
  pub of_int : Int64 → F
  pub parse_float : List ℕ → Option F

abbrev pub nought : {F : Type 0} ⦃d : Float F⦄ → F
nought ⦃d⦄ = d.decimal 0 1

-- Millionths.
abbrev pub Micros : Type 0
Micros = ℤ

abbrev million : ℕ
million = 1_000_000

-- Decimal digits, with the digits behind a point scaled to millionths.
abbrev digits_value : ℕ → List ℕ → Option ℕ
digits_value acc [] = some acc
digits_value acc (c ∷ cs) =
    if leb b'0' c && leb c b'9' then digits_value (acc * 10 + (c - b'0')) cs else none

abbrev split_point : List ℕ → List ℕ × List ℕ
split_point [] = ([], [])
split_point (c ∷ cs) =
    let (whole, part) = split_point cs in if c == b'.' then ([], cs) else (c ∷ whole, part)

abbrev parse_micros : List ℕ → Option ℤ
parse_micros cs =
    let (whole, part) = split_point cs in
    elim (digits_value 0 whole) [
      | none ↦ none
      | some w ↦ elim (digits_value 0 part) [
        | none ↦ none
        | some p ↦ some (pos (w * million + p * million / 10 ^ length part))
      ]
    ]

instance abbrev pub micros_float : Float Micros
micros_float = record {
  decimal = λ a b. pos (a * million / b);
  add = ◌+ℤ◌;
  sub = ◌-ℤ◌;
  mul = λ a b. over (a *ℤ b) million;
  div = λ a b. sub_ℕ (pos_part a * million / pos_part b) (neg_part a * million / pos_part b);
  neg = λ a. sub_ℕ (neg_part a) (pos_part a);
  lt = ltb_ℤ;
  le = λ a b. if ltb_ℤ b a then Bool.false else Bool.true;
  eq = eqb_ℤ;
  magnitude = λ a. pos (pos_part a + neg_part a);
  round = λ a.
      sub_ℕ ((pos_part a + 500_000) / million * million)
        ((neg_part a + 500_000) / million * million);
  truncate = λ a. (pos_part a / million + (2 ^ 64 - neg_part a / million)) % 2 ^ 64;
  of_int = λ n. if is_neg n then sub_ℕ 0 ((2 ^ 64 - n) * million) else pos (n * million);
  parse_float = parse_micros;
}
