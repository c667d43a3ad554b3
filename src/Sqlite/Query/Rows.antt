-- ===== src/Sqlite/Query/Rows.antt =====
-- What a query returns, against the rows that the library's steps give.
use ormpp.Base.{
  ℕ, zero, suc, ◌<◌, ◌≢◌, ◌==◌, not, Bool, true, false, List, [], ◌∷◌, Bytes, length, Bool-cases,
  inl, inr, ◌≡◌, refl, sym, ap, ◌∙◌, arith,
}
use mathlib.Core.Path.{subst}
use ormpp.Sqlite.{
  StepResult, row, done, failed, Library, Driver, reset_error, set_last_error, with_handle,
}
use ormpp.Sqlite.Statement.{Field, guarded, closed}
use ormpp.Sqlite.Query.{
  Kind, read_row, next_row, before_rows, fetch_all, bind_each, fetched, prepared_with, query_s,
}

module _ {Db : Type 0} (lib : Library Db) (kinds : List (Bool × Kind)) where
  -- From `handle` on, the steps give these rows and then, at `end`, no row.
  abbrev pub Gives : List (List Field) → Db → StepResult → Db → Type 0
  Gives [] handle last end = lib.step handle ≡ (last, end)
  Gives (values ∷ rows) handle last end =
      (next : Db) × (lib.step handle ≡ (row, next))
      × (values ≡ read_row lib kinds 0 next)
      × Gives rows next last end

  no_row :
      (more : Db → List (List Field) × Db) (last : StepResult) (end : Db)
      → last ≢ row
      → next_row lib kinds more (last, end) ≡ ([], end)
  no_row more row end h = absurd (h refl)
  no_row more done end h = refl
  no_row more failed end h = refl

  fetch_all_lem :
      (rows : List (List Field)) (fuel : ℕ) (handle : Db) (last : StepResult) (end : Db)
      → last ≢ row
      → length rows < fuel
      → Gives rows handle last end
      → fetch_all lib fuel kinds handle ≡ (rows, end)
  unfolding fetch_all
  fetch_all_lem rows zero handle last end h k g = elim k [ ]
  fetch_all_lem [] (suc fuel) handle last end h k g =
      ap (next_row lib kinds (fetch_all lib fuel kinds)) g
      ∙ no_row (fetch_all lib fuel kinds) last end h
  fetch_all_lem (values ∷ rows) (suc fuel) handle last end h k (next, e, same, g) =
      ap (next_row lib kinds (fetch_all lib fuel kinds)) e
      ∙ ap (before_rows lib (read_row lib kinds 0 next))
          (fetch_all_lem rows fuel next last end h (omega arith) g)
      ∙ ap (λ v. (v ∷ rows, end)) (sym same)

  -- The error flag behind the guard
  flag_closed :
      (d : Driver Db) (r : ℕ × Db)
      → d.has_error ≡ false
      → (closed lib d r).has_error ≡ not (r.0 == 0)
  unfolding set_last_error
  flag_closed d (status, h) e = elim (Bool-cases (status == 0)) [
    | inl f ↦ rw f e
    | inr f ↦ rw f refl
  ]

  guard_lem :
      (rows : List (List Field)) (d : Driver Db) (end : Db)
      → d.has_error ≡ false
      → ((guarded lib (rows, with_handle d end)).0 ≡ rows)
        × ((guarded lib (rows, with_handle d end)).1.has_error ≡ not ((lib.finalize end).0 == 0))
  guard_lem rows d end e = (refl, flag_closed (with_handle d end) (lib.finalize end) e)

  -- The loop of a query ends, and the query returns all rows that the library gives, in their order, and no
  -- other, also those before a step that fails; it has an error afterwards exactly where closing the
  -- statement reports one, whether the last step ended the rows or failed.
  pub query_s-Gives :
      (fuel : ℕ) (sql : Bytes) (args : List Field) (d : Driver Db) (handle : Db)
      (rows : List (List Field)) (last : StepResult) (end : Db)
      → lib.prepare sql d.handle ≡ (true, handle)
      → last ≢ row
      → length rows < fuel
      → Gives rows (bind_each lib args 0 handle) last end
      → ((query_s lib fuel kinds sql args d).0 ≡ rows)
        × ((query_s lib fuel kinds sql args d).1.has_error ≡ not ((lib.finalize end).0 == 0))
  unfolding query_s reset_error
  query_s-Gives fuel sql args d handle rows last end e h k g =
      subst
        (λ (result : List (List Field) × Driver Db).
          (result.0 ≡ rows) × (result.1.has_error ≡ not ((lib.finalize end).0 == 0)))
        (sym whole)
        (guard_lem rows (reset_error (with_handle d (bind_each lib args 0 handle))) end refl)
    where
      whole :
          query_s lib fuel kinds sql args d
          ≡ guarded lib
              (rows, with_handle (reset_error (with_handle d (bind_each lib args 0 handle))) end)
      whole =
          ap (prepared_with lib [] (λ f. fetched lib f (fetch_all lib fuel kinds f.handle)) args d)
            e
          ∙ ap
              (λ r.
                guarded lib
                  (fetched lib (reset_error (with_handle d (bind_each lib args 0 handle))) r))
              (fetch_all_lem rows fuel (bind_each lib args 0 handle) last end h k g)
