-- ===== src/Service/Uploads/Names.antt =====
-- The name that is stored for an upload.
use invoice_ocr_poc.Base.{
  Bool, true, false, not, ◌&&◌, [], ◌∷◌, ◌≡◌, refl, ◌==◌, arith, Bool-cases, inl, inr, ◌||◌,
}
use invoice_ocr_poc.Strings.{Text, codes, same_text}
use invoice_ocr_poc.Service.Uploads.{Paths, drop_dots, sanitize_name}

-- Two dots in a row; the flag tells whether the character before was a dot.
unfoldable pub has_dots : Bool → Text → Bool
has_dots dot [] = false
has_dots dot (x ∷ xs) = (dot && x == 46) || has_dots (x == 46) xs

drop_dots-has_dots : (held : Bool) (name : Text) → has_dots false (drop_dots held name) ≡ false
unfolding has_dots drop_dots
drop_dots-has_dots true [] = refl
drop_dots-has_dots false [] = refl
drop_dots-has_dots held (x ∷ xs) =
    let rest = drop_dots-has_dots (not held && x == 46) xs in ground arith

-- Whatever name an upload comes with, the name that is stored has no two dots in a row.
sanitize_name-has_dots :
    (paths : Paths) (name : Text) → has_dots false (sanitize_name paths name) ≡ false
unfolding sanitize_name has_dots
sanitize_name-has_dots paths name =
    elim (Bool-cases (
      same_text (drop_dots false (paths.base name)) (codes ".")
      || same_text (drop_dots false (paths.base name)) (codes "/"))) [
        | inl replaced ↦ rw (sanitize_name, replaced) refl
        | inr kept ↦ rw (sanitize_name, kept) (drop_dots-has_dots false (paths.base name))
      ]
