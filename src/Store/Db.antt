-- ===== src/Store/Db.antt =====
-- What internal/store asks of gorm: a table of invoices behind an interface. Each statement is
-- handed the state of its context, as `WithContext(ctx)` does, and fails or takes effect whole.
use invoice_ocr_poc.Base.{Option, none, some, List, ◌≡◌, ap, refl, ◌≢◌, String, Int64, map}
use invoice_ocr_poc.Base.Assoc.{
  lookup, insert, remove, lookup-insert_self, lookup-insert_other, lookup-remove_self,
  lookup-remove_other,
}
use invoice_ocr_poc.Errors.{
  Ctx, Error, Result, ok, err, ctx, sentinel, record_not_found, live, other,
}
use invoice_ocr_poc.Store.Invoice.{Invoice, Status}

-- The table after a statement, and the statement's error.
abbrev pub Write : Type 0 → Type 0
Write T = T × Option Error

pub record Db (F T : Type 0) : Type 0 where
  -- `Create(inv)`, `Save(inv)`, `Delete(&Invoice{}, "id = ?", id)`.
  pub create : Invoice F → Ctx → T → Write T
  pub save : Invoice F → Ctx → T → Write T
  pub delete : String → Ctx → T → Write T
  -- `Transaction(body)`: begin, the body on the open transaction, commit or rollback.
  pub transaction : (Ctx → T → Write T) → Ctx → T → Write T
  -- `First(&inv, "id = ?", id)`.
  pub first : String → Ctx → T → Result (Invoice F)
  -- `Order("created_at DESC").Limit(limit).Offset(offset)`, with the status filter if there is one.
  pub page : Option Status → Int64 → Int64 → Ctx → T → Result (List (Invoice F))

-- What gorm documents. `row t id` is the row that a query by key sees.
pub record IsDb {F T : Type 0} (db : Db F T) : Type 0 where
  pub row : T → String → Option (Invoice F)
  pub first_found :
      (c : Ctx) (t : T) (id : String) (inv : Invoice F)
      → db.first id c t ≡ ok inv
      → row t id ≡ some inv
  pub first_live :
      (t : T) (id : String) (inv : Invoice F) → row t id ≡ some inv → db.first id live t ≡ ok inv
  pub create-row :
      (c : Ctx) (t : T) (inv : Invoice F)
      → (db.create inv c t).1 ≡ none
      → row (db.create inv c t).0 inv.id ≡ some inv
  pub create_other :
      (c : Ctx) (t : T) (inv : Invoice F) (j : String)
      → inv.id ≢ j
      → row (db.create inv c t).0 j ≡ row t j
  pub create_failed :
      (c : Ctx) (t : T) (inv : Invoice F) (e : Error) (j : String)
      → (db.create inv c t).1 ≡ some e
      → row (db.create inv c t).0 j ≡ row t j
  pub save-row :
      (c : Ctx) (t : T) (inv : Invoice F)
      → (db.save inv c t).1 ≡ none
      → row (db.save inv c t).0 inv.id ≡ some inv
  pub save_other :
      (c : Ctx) (t : T) (inv : Invoice F) (j : String)
      → inv.id ≢ j
      → row (db.save inv c t).0 j ≡ row t j
  pub save_failed :
      (c : Ctx) (t : T) (inv : Invoice F) (e : Error) (j : String)
      → (db.save inv c t).1 ≡ some e
      → row (db.save inv c t).0 j ≡ row t j
  pub delete-row :
      (c : Ctx) (t : T) (id : String)
      → (db.delete id c t).1 ≡ none
      → row (db.delete id c t).0 id ≡ none
  pub delete_other :
      (c : Ctx) (t : T) (id j : String) → id ≢ j → row (db.delete id c t).0 j ≡ row t j
  pub delete_failed :
      (c : Ctx) (t : T) (id : String) (e : Error) (j : String)
      → (db.delete id c t).1 ≡ some e
      → row (db.delete id c t).0 j ≡ row t j
  pub committed :
      (body : Ctx → T → Write T) (c : Ctx) (t : T)
      → (db.transaction body c t).1 ≡ none
      → (body c t).1 ≡ none
  pub committed-row :
      (body : Ctx → T → Write T) (c : Ctx) (t : T) (j : String)
      → (db.transaction body c t).1 ≡ none
      → row (db.transaction body c t).0 j ≡ row (body c t).0 j
  pub rolled_back :
      (body : Ctx → T → Write T) (c : Ctx) (t : T) (e : Error) (j : String)
      → (db.transaction body c t).1 ≡ some e
      → row (db.transaction body c t).0 j ≡ row t j

-- A table that meets this: an association list, whose statements fail only by their context.
abbrev pub Rows : Type 0 → Type 0
Rows F = List (String × Invoice F)

abbrev unless_done : {T : Type 0} → T → T → Ctx → Write T
unless_done old new none = (new, none)
unless_done old new (some c) = (old, some (ctx c))

abbrev kept_if_fine : {T : Type 0} → T → Write T → Write T
kept_if_fine old (new, none) = (new, none)
kept_if_fine old (new, some e) = (old, some e)

-- A transaction whose begin fails if the context has ended.
abbrev transacted : {T : Type 0} → (Ctx → T → Write T) → Ctx → T → Write T
transacted body (some c) t = (t, some (ctx c))
transacted body none t = kept_if_fine t (body none t)

kept-none : {T : Type 0} (t : T) (r : Write T) → (kept_if_fine t r).1 ≡ none → r.1 ≡ none
kept-none t (new, none) h = refl
kept-none t (new, some e) h = cc

kept-new :
    {T : Type 0} (t : T) (r : Write T) → (kept_if_fine t r).1 ≡ none → (kept_if_fine t r).0 ≡ r.0
kept-new t (new, none) h = refl
kept-new t (new, some e) h = cc

kept-old :
    {T : Type 0} (t : T) (r : Write T) (e : Error)
    → (kept_if_fine t r).1 ≡ some e
    → (kept_if_fine t r).0 ≡ t
kept-old t (new, none) e h = cc
kept-old t (new, some f) e h = refl

transacted-none :
    {T : Type 0} (body : Ctx → T → Write T) (c : Ctx) (t : T)
    → (transacted body c t).1 ≡ none
    → ((body c t).1 ≡ none) × ((transacted body c t).0 ≡ (body c t).0)
transacted-none body none t h = (kept-none t (body none t) h, kept-new t (body none t) h)
transacted-none body (some c) t h = cc

transacted-some :
    {T : Type 0} (body : Ctx → T → Write T) (c : Ctx) (t : T) (e : Error)
    → (transacted body c t).1 ≡ some e
    → (transacted body c t).0 ≡ t
transacted-some body none t e h = kept-old t (body none t) e h
transacted-some body (some c) t e h = refl

module _ {V : Type 0} where
  abbrev found : Option V → Ctx → Result V
  found o (some c) = err (ctx c)
  found none none = err (sentinel record_not_found)
  found (some v) none = ok v

  -- An insert of a key that is there fails.
  abbrev created_over : Option V → String → V → Ctx → List (String × V) → Write (List (String × V))
  created_over (some old) k v c t = (t, some (other "UNIQUE constraint failed"))
  created_over none k v c t = unless_done t (insert k v t) c

  found_ok : (o : Option V) (c : Ctx) (v : V) → found o c ≡ ok v → o ≡ some v
  found_ok o (some c) v h = cc
  found_ok none none v h = cc
  found_ok (some w) none v h = cc

  found-live : (o : Option V) (v : V) → o ≡ some v → found o live ≡ ok v
  found-live none v h = cc
  found-live (some w) v h = cc

  saved-row :
      (k : String) (v : V) (c : Ctx) (t : List (String × V))
      → (unless_done t (insert k v t) c).1 ≡ none
      → lookup k (unless_done t (insert k v t) c).0 ≡ some v
  saved-row k v none t h = lookup-insert_self k v t
  saved-row k v (some c) t h = cc

  saved_other :
      (k j : String) (v : V) (c : Ctx) (t : List (String × V))
      → k ≢ j
      → lookup j (unless_done t (insert k v t) c).0 ≡ lookup j t
  saved_other k j v none t n = lookup-insert_other k j v t n
  saved_other k j v (some c) t n = refl

  undone :
      (j : String) (c : Ctx) (t new : List (String × V)) (e : Error)
      → (unless_done t new c).1 ≡ some e
      → lookup j (unless_done t new c).0 ≡ lookup j t
  undone j none t new e h = cc
  undone j (some c) t new e h = refl

  created-row :
      (o : Option V) (k : String) (v : V) (c : Ctx) (t : List (String × V))
      → (created_over o k v c t).1 ≡ none
      → lookup k (created_over o k v c t).0 ≡ some v
  created-row none k v c t h = saved-row k v c t h
  created-row (some w) k v c t h = cc

  created_other :
      (o : Option V) (k j : String) (v : V) (c : Ctx) (t : List (String × V))
      → k ≢ j
      → lookup j (created_over o k v c t).0 ≡ lookup j t
  created_other none k j v c t n = saved_other k j v c t n
  created_other (some w) k j v c t n = refl

  created_failed :
      (o : Option V) (k j : String) (v : V) (c : Ctx) (t : List (String × V)) (e : Error)
      → (created_over o k v c t).1 ≡ some e
      → lookup j (created_over o k v c t).0 ≡ lookup j t
  created_failed none k j v c t e h = undone j c t (insert k v t) e h
  created_failed (some w) k j v c t e h = refl

  removed-row :
      (k : String) (c : Ctx) (t : List (String × V))
      → (unless_done t (remove k t) c).1 ≡ none
      → lookup k (unless_done t (remove k t) c).0 ≡ none
  removed-row k none t h = lookup-remove_self k t
  removed-row k (some c) t h = cc

  removed_other :
      (k j : String) (c : Ctx) (t : List (String × V))
      → k ≢ j
      → lookup j (unless_done t (remove k t) c).0 ≡ lookup j t
  removed_other k j none t n = lookup-remove_other k j t n
  removed_other k j (some c) t n = refl

  abbrev second : String × V → V
  second p = p.1

abbrev pub rows_db : {F : Type 0} → Db F (Rows F)
rows_db = record {
  create = λ inv c t. created_over (lookup inv.id t) inv.id inv c t;
  save = λ inv c t. unless_done t (insert inv.id inv t) c;
  delete = λ id c t. unless_done t (remove id t) c;
  transaction = transacted;
  first = λ id c t. found (lookup id t) c;
  page = λ status limit offset c t. elim c [ some e ↦ err (ctx e) | none ↦ ok (map second t) ];
}

pub rows_db-IsDb : (F : Type 0) → IsDb (rows_db {F = F})
rows_db-IsDb F = record {
  row = λ t id. lookup id t;
  first_found = λ c t id inv h. found_ok (lookup id t) c inv h;
  first_live = λ t id inv h. found-live (lookup id t) inv h;
  create-row = λ c t inv h. created-row (lookup inv.id t) inv.id inv c t h;
  create_other = λ c t inv j n. created_other (lookup inv.id t) inv.id j inv c t n;
  create_failed = λ c t inv e j h. created_failed (lookup inv.id t) inv.id j inv c t e h;
  save-row = λ c t inv h. saved-row inv.id inv c t h;
  save_other = λ c t inv j n. saved_other inv.id j inv c t n;
  save_failed = λ c t inv e j h. undone j c t (insert inv.id inv t) e h;
  delete-row = λ c t id h. removed-row id c t h;
  delete_other = λ c t id j n. removed_other id j c t n;
  delete_failed = λ c t id e j h. undone j c t (remove id t) e h;
  committed = λ body c t h. (transacted-none body c t h).0;
  committed-row = λ body c t j h. ap (lookup j) (transacted-none body c t h).1;
  rolled_back = λ body c t e j h. ap (lookup j) (transacted-some body c t e h);
}
