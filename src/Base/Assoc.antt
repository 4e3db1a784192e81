-- ===== src/Base/Assoc.antt =====
-- Maps with text keys as association lists.
use Prim.Native.String.{String}
use mathlib.Core.Path.{◌≡◌, refl}
use mathlib.Core.Logic.{◌≢◌}
use mathlib.Core.Option.{Option, none, some}
use mathlib.Core.List.{List, [], ◌∷◌}
use native.Mathlib.Omega.{arith}
use text.Mathlib.TextEquality.{eq_iff}
use invoice_ocr_poc.Base.Tests.{str_eq, if◌then◌else◌}

module _ {ℓ} {V : Type ℓ} where
  unfoldable pub lookup : String → List (String × V) → Option V
  lookup key [] = none
  lookup key ((probe, val) ∷ table) = if str_eq probe key then some val else lookup key table

  unfoldable pub insert : String → V → List (String × V) → List (String × V)
  insert key val [] = (key, val) ∷ []
  insert key val ((probe, held) ∷ table) =
      if str_eq probe key then (key, val) ∷ table else (probe, held) ∷ insert key val table

  unfoldable pub remove : String → List (String × V) → List (String × V)
  remove key [] = []
  remove key ((probe, held) ∷ table) =
      if str_eq probe key then remove key table else (probe, held) ∷ remove key table

  pub lookup-insert :
      (key probe : String) (val : V) (table : List (String × V))
      → lookup probe (insert key val table)
        ≡ (if str_eq key probe then some val else lookup probe table)
  unfolding lookup insert
  lookup-insert key probe val [] = refl
  lookup-insert key probe val ((first, held) ∷ table) = ground (
    arith,
    eq_iff key probe,
    eq_iff first key,
    eq_iff first probe,
    lookup-insert key probe val table,
  )

  pub lookup-remove :
      (key probe : String) (table : List (String × V))
      → lookup probe (remove key table) ≡ (if str_eq key probe then none else lookup probe table)
  unfolding lookup remove
  lookup-remove key probe [] = ground arith
  lookup-remove key probe ((first, held) ∷ table) =
      ground (
        arith,
        eq_iff key probe,
        eq_iff first key,
        eq_iff first probe,
        lookup-remove key probe table,
      )

  pub lookup-insert_self :
      (key : String) (val : V) (table : List (String × V))
      → lookup key (insert key val table) ≡ some val
  lookup-insert_self key val table = ground (arith, lookup-insert key key val table, eq_iff key key)

  pub lookup-insert_other :
      (key probe : String) (val : V) (table : List (String × V))
      → key ≢ probe
      → lookup probe (insert key val table) ≡ lookup probe table
  lookup-insert_other key probe val table differ =
      ground (arith, lookup-insert key probe val table, eq_iff key probe)

  pub lookup-remove_self :
      (key : String) (table : List (String × V)) → lookup key (remove key table) ≡ none
  lookup-remove_self key table = ground (arith, lookup-remove key key table, eq_iff key key)

  pub lookup-remove_other :
      (key probe : String) (table : List (String × V))
      → key ≢ probe
      → lookup probe (remove key table) ≡ lookup probe table
  lookup-remove_other key probe table differ =
      ground (arith, lookup-remove key probe table, eq_iff key probe)
