-- ===== src/Store/Persistence.antt =====
-- What a write promises: acknowledged rows are there, a closed store is left alone, and a failed
-- batch leaves no trace.
use invoice_ocr_poc.Base.{
  ◌≤◌, ◌<◌, ◌^◌, false, Option, none, some, List, [], ◌∷◌, ◌≡◌, ◌≢◌, ◌⊎◌, inl, inr, refl, ap, sym,
  ◌∙◌, String, Int64, true, subst, str_eq, eq_iff, if◌then◌else◌, arith, Bool-cases, Option-cases,
}
use invoice_ocr_poc.Errors.{Ctx, CtxError, Error, ctx, sentinel, store_closed, wrap}
use invoice_ocr_poc.Store.Invoice.{Invoice}
use invoice_ocr_poc.Store.Db.{Db, IsDb, Write}
use invoice_ocr_poc.Store.Writes.{
  Store, Watch, do_write, close, update, create, delete, save_each, batch_update, clamp_limit,
  clamp_offset, awaited, wrapped,
}

module _ {T : Type 0} (op : Ctx → T → Write T) (w : Watch) (s : Store T) where
  -- The three ways in which a write can go: refused at the door, or run and awaited.
  pub do_write_cases :
      (((do_write op w s).0 ≡ s) × ((e : Error) × ((do_write op w s).1 ≡ some e)))
      ⊎ (((do_write op w s).0.table ≡ (op w.run s.table).0)
          × ((do_write op w s).1 ≡ awaited w.wait (op w.run s.table).1))
  unfolding do_write
  do_write_cases = elim (Option-cases w.entry) [
    | inr (c, e) ↦ inl (rw (e, do_write), (ctx c, rw (e, do_write)))
    | inl e ↦ elim (Bool-cases s.stopped) [
      | inl b ↦ inl (rw (e, b, do_write), (sentinel store_closed, rw (e, b, do_write)))
      | inr b ↦ inr (rw (e, b, do_write), rw (e, b, do_write))
    ]
  ]

awaited-none : (c : Ctx) (r : Option Error) → awaited c r ≡ none → r ≡ none
awaited-none none r h = h
awaited-none (some c) r h = cc

wrapped-none : (p : String) (r : Option Error) → wrapped p r ≡ none → r ≡ none
wrapped-none p none h = refl
wrapped-none p (some e) h = cc

wrapped-some :
    (p : String) (r : Option Error) (e : Error) → r ≡ some e → wrapped p r ≡ some (wrap p e)
wrapped-some p r e h = rw h

patient_gets : (c : Ctx) (r : Option Error) → c ≡ none → awaited c r ≡ r
patient_gets none r h = refl
patient_gets (some c) r h = cc

wrapped-awaited :
    (p : String) (c : Ctx) (r : Option Error) (e : Error)
    → c ≡ none
    → wrapped p (awaited c r) ≡ some e
    → (f : Error) × (r ≡ some f)
wrapped-awaited p (some d) r e live h = cc
wrapped-awaited p none none e live h = cc
wrapped-awaited p none (some f) e live h = (f, refl)

-- After `Close` the store is stopped, whatever the handle answers.
close-stopped :
    {T : Type 0} (handle : T → Option Error) (shut : T → Write T) (s : Store T)
    → (close handle shut s).0.stopped ≡ true
unfolding close
close-stopped handle shut s = elim (Bool-cases s.stopped) [
  | inl ended ↦ rw (close, ended) refl
  | inr running ↦ elim (Option-cases (handle s.table)) [
    | inl fine ↦ rw (close, running, fine) refl
    | inr (e, bad) ↦ rw (close, running, bad) refl
  ]
]

-- The row under a key once the invoices were saved one after the other.
abbrev pub row_after :
    {F : Type 0} → List (Invoice F) → String → Option (Invoice F) → Option (Invoice F)
row_after [] j old = old
row_after (inv ∷ invs) j old = row_after invs j (if str_eq inv.id j then some inv else old)

module _ {F T : Type 0} (db : Db F T) (laws : IsDb db) where
  abbrev pub row_of : Store T → String → Option (Invoice F)
  row_of s id = laws.row s.table id

  pub update-row :
      (inv : Invoice F) (w : Watch) (s : Store T)
      → (update db inv w s).1 ≡ none
      → row_of (update db inv w s).0 inv.id ≡ some inv
  unfolding update
  update-row inv w s h =
      let h' = wrapped-none _ _ h in
      elim (do_write_cases (db.save inv) w s) [
        | inl (same, (e, failed)) ↦ absurd (cc (h', failed))
        | inr (table, outcome) ↦
            let saved = awaited-none w.wait _ (sym outcome ∙ h') in
            ap (λ t. laws.row t inv.id) table ∙ laws.save-row w.run s.table inv saved
      ]

  pub update_other :
      (inv : Invoice F) (w : Watch) (s : Store T) (j : String)
      → inv.id ≢ j
      → row_of (update db inv w s).0 j ≡ row_of s j
  unfolding update
  update_other inv w s j n = elim (do_write_cases (db.save inv) w s) [
    | inl (same, failed) ↦ ap (λ t. row_of t j) same
    | inr (table, outcome) ↦ ap (λ t. laws.row t j) table ∙ laws.save_other w.run s.table inv j n
  ]

  -- An update that reports success has stored the invoice under its id, and no other row changes.
  pub update_acknowledged :
      (inv : Invoice F) (w : Watch) (s : Store T) (j : String)
      → (update db inv w s).1 ≡ none
      → inv.id ≢ j
      → (row_of (update db inv w s).0 inv.id ≡ some inv)
        × (row_of (update db inv w s).0 j ≡ row_of s j)
  update_acknowledged inv w s j h n = (update-row inv w s h, update_other inv w s j n)

  pub create-row :
      (inv : Invoice F) (w : Watch) (s : Store T)
      → (create db inv w s).1 ≡ none
      → row_of (create db inv w s).0 inv.id ≡ some inv
  unfolding create
  create-row inv w s h =
      let h' = wrapped-none _ _ h in
      elim (do_write_cases (db.create inv) w s) [
        | inl (same, (e, failed)) ↦ absurd (cc (h', failed))
        | inr (table, outcome) ↦
            let created = awaited-none w.wait _ (sym outcome ∙ h') in
            ap (λ t. laws.row t inv.id) table ∙ laws.create-row w.run s.table inv created
      ]

  -- An insert that reports an error has changed no row, unless the caller gave up waiting.
  pub create-failed_rows :
      (inv : Invoice F) (w : Watch) (s : Store T) (j : String) (e : Error)
      → (create db inv w s).1 ≡ some e
      → ((c : CtxError) × (w.wait ≡ some c)) ⊎ (row_of (create db inv w s).0 j ≡ row_of s j)
  unfolding create
  create-failed_rows inv w s j e h = elim (Option-cases w.wait) [
    | inr gone ↦ inl gone
    | inl patient ↦ elim (do_write_cases (db.create inv) w s) [
      | inl (same, (_, failed)) ↦ inr (ap (λ t. row_of t j) same)
      | inr (table, outcome) ↦
          let (f, failed) =
            wrapped-awaited "create invoice" w.wait (db.create inv w.run s.table).1 e patient
              (ap (wrapped "create invoice") (sym outcome) ∙ h) in
          inr (ap (λ t. laws.row t j) table ∙ laws.create_failed w.run s.table inv f j failed)
    ]
  ]

  pub delete-row :
      (id : String) (w : Watch) (s : Store T)
      → (delete db id w s).1 ≡ none
      → row_of (delete db id w s).0 id ≡ none
  unfolding delete
  delete-row id w s h =
      let h' = wrapped-none _ _ h in
      elim (do_write_cases (db.delete id) w s) [
        | inl (same, (e, failed)) ↦ absurd (cc (h', failed))
        | inr (table, outcome) ↦
            let deleted = awaited-none w.wait _ (sym outcome ∙ h') in
            ap (λ t. laws.row t id) table ∙ laws.delete-row w.run s.table id deleted
      ]

  -- As long as the caller does not give up waiting, an update that reports an error has changed no row.
  update_failed :
      (inv : Invoice F) (w : Watch) (s : Store T) (j : String) (e : Error)
      → w.wait ≡ none
      → (update db inv w s).1 ≡ some e
      → row_of (update db inv w s).0 j ≡ row_of s j
  unfolding update
  update_failed inv w s j e patient h = elim (do_write_cases (db.save inv) w s) [
    | inl (same, (_, failed)) ↦ ap (λ t. row_of t j) same
    | inr (table, outcome) ↦
        let (f, failed) =
          wrapped-awaited "update invoice" w.wait (db.save inv w.run s.table).1 e patient
            (ap (wrapped "update invoice") (sym outcome) ∙ h) in
        ap (λ t. laws.row t j) table ∙ laws.save_failed w.run s.table inv f j failed
  ]

  -- When the caller's context ends while it waits for the writer, the update reports the context's
  -- error although the row is stored, if the statement itself succeeds.
  update_unacknowledged :
      (inv : Invoice F) (w : Watch) (s : Store T) (c : CtxError)
      → w.entry ≡ none
      → s.stopped ≡ false
      → w.wait ≡ some c
      → (db.save inv w.run s.table).1 ≡ none
      → ((update db inv w s).1 ≡ some (wrap "update invoice" (ctx c)))
        × (row_of (update db inv w s).0 inv.id ≡ some inv)
  unfolding update do_write
  update_unacknowledged inv w s c entry opened gone saved =
      rw (entry, opened, gone) (refl, laws.save-row w.run s.table inv saved)

  -- On a stopped store, creating, updating, deleting and updating in a batch leave the table alone, and
  -- under a live context each reports that the store is closed.
  stopped_rejects :
      (inv : Invoice F) (invs : List (Invoice F)) (w : Watch) (s : Store T)
      → w.entry ≡ none
      → s.stopped ≡ true
      → (create db inv w s ≡ (s, some (wrap "create invoice" (sentinel store_closed))))
        × (update db inv w s ≡ (s, some (wrap "update invoice" (sentinel store_closed))))
        × (delete db inv.id w s ≡ (s, some (wrap "delete invoice" (sentinel store_closed))))
        × (batch_update db (inv ∷ invs) w s
            ≡ (s, some (wrap "batch update invoices" (sentinel store_closed))))
  unfolding create update delete batch_update do_write
  stopped_rejects inv invs w s entry ended = rw (entry, ended) (refl, refl, refl, refl)

  save-row_if :
      (inv : Invoice F) (c : Ctx) (t : T) (j : String)
      → (db.save inv c t).1 ≡ none
      → laws.row (db.save inv c t).0 j ≡ (if str_eq inv.id j then some inv else laws.row t j)
  save-row_if inv c t j saved = elim (Bool-cases (str_eq inv.id j)) [
    | inl hit ↦
        let same : inv.id ≡ j = (eq_iff inv.id j).0 hit in
        rw hit (
          subst (λ k. laws.row (db.save inv c t).0 k ≡ some inv) same (laws.save-row c t inv saved))
    | inr miss ↦
        rw miss (laws.save_other c t inv j (λ h. absurd (cc (miss, (eq_iff inv.id j).1 h))))
  ]

  save_each-row :
      (invs : List (Invoice F)) (c : Ctx) (t : T) (j : String)
      → (save_each db invs c t).1 ≡ none
      → laws.row (save_each db invs c t).0 j ≡ row_after invs j (laws.row t j)
  unfolding save_each
  save_each-row [] c t j h = refl
  save_each-row (inv ∷ invs) c t j h = elim (Option-cases (db.save inv c t).1) [
    | inr (e, bad) ↦ absurd (cc (rw (save_each, bad) at h))
    | inl saved ↦
        let rest = save_each-row invs c (db.save inv c t).0 j (rw (save_each, saved) at h) in
        rw (save_each, saved) (rest ∙ ap (row_after invs j) (save-row_if inv c t j saved))
  ]

  -- What a batch update leaves under a key: with an error the row that was there, and without one the
  -- row that saving all the invoices in their order gives.
  abbrev pub AllOrNothing : List (Invoice F) → Store T → Store T × Option Error → String → Type 0
  AllOrNothing invs s r j =
      ((e : Error) × (r.1 ≡ some e) × (row_of r.0 j ≡ row_of s j))
      ⊎ ((r.1 ≡ none) × (row_of r.0 j ≡ row_after invs j (row_of s j)))

  -- A batch update is all or nothing, as long as the caller does not give up waiting: if it reports an
  -- error, whichever step of the transaction failed, then every row is the one before the call; and if
  -- not, then every row is what saving all the invoices, in their order, makes of it.
  pub batch_update_atomic :
      (invs : List (Invoice F)) (w : Watch) (s : Store T) (j : String)
      → w.wait ≡ none
      → AllOrNothing invs s (batch_update db invs w s) j
  unfolding batch_update
  batch_update_atomic [] w s j patient = inr (refl, refl)
  batch_update_atomic (inv ∷ invs) w s j patient =
      let op : Ctx → T → Write T = db.transaction (save_each db (inv ∷ invs)) in
      let r = batch_update db (inv ∷ invs) w s in
      elim (do_write_cases op w s) [
        | inl (same, (e, refused)) ↦ inl (
          wrap "batch update invoices" e,
          wrapped-some "batch update invoices" _ e refused,
          ap (λ t. row_of t j) same,
        )
        | inr (table, outcome) ↦
            let answer : r.1 ≡ wrapped "batch update invoices" (op w.run s.table).1 =
              ap (wrapped "batch update invoices") (outcome ∙ patient_gets w.wait _ patient) in
            elim (Option-cases (op w.run s.table).1) [
              | inr (e, bad) ↦ inl (
                wrap "batch update invoices" e,
                answer ∙ wrapped-some "batch update invoices" _ e bad,
                ap (λ t. laws.row t j) table
                    ∙ laws.rolled_back (save_each db (inv ∷ invs)) w.run s.table e j bad,
              )
              | inl fine ↦
                  let all = laws.committed (save_each db (inv ∷ invs)) w.run s.table fine in
                  inr (
                    answer ∙ ap (wrapped "batch update invoices") fine,
                    ap (λ t. laws.row t j) table
                        ∙ laws.committed-row (save_each db (inv ∷ invs)) w.run s.table j fine
                        ∙ save_each-row (inv ∷ invs) w.run s.table j all,
                  )
            ]
      ]

-- The page that `List` and `ListByStatus` ask for: between 1 and 100 rows, at an offset that is not
-- negative; a limit in that range and an offset that is not negative are kept.
clamp_page :
    (limit offset : Int64)
    → offset < 2 ^ 64
    → (1 ≤ clamp_limit limit)
      × (clamp_limit limit ≤ 100)
      × (clamp_offset offset < 2 ^ 63)
      × ((clamp_limit limit ≡ limit) ⊎ (limit ≡ 0) ⊎ (100 < limit))
      × ((clamp_offset offset ≡ offset) ⊎ (2 ^ 63 ≤ offset))
unfolding clamp_limit clamp_offset
clamp_page limit offset h = ground arith
