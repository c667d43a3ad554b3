-- ===== src/Sqlite/Tuple/Flat.antt =====
-- The rows of tuples, against the rows of a struct with all the members of their items.
use ormpp.Base.{
  ℕ, zero, suc, ◌+◌, ◌<◌, Bool, false, List, [], ◌∷◌, ◌++◌, map, length, length-append, ◌==◌,
  if◌then◌else◌, ◌≡◌, refl, sym, ap, ◌∙◌, arith,
}
use ormpp.Sqlite.{StepResult, row, done, failed, Library}
use ormpp.Sqlite.Statement.{Field}
use ormpp.Sqlite.Query.{Kind, assign, read_row, before_rows, next_row, fetch_all}
use ormpp.Sqlite.Tuple.{Item, object, value, read_items, push_row, next_tuple, fetch_tuples}

-- The members of the items, one behind the other
abbrev pub members_of : List Item → List (Bool × Kind)
members_of [] = []
members_of (object kinds ∷ items) = kinds ++ members_of items
members_of (value kind ∷ items) = kind ∷ members_of items

abbrev pub joined : List (List Field) → List Field
joined [] = []
joined (fields ∷ rest) = fields ++ joined rest

module _ {Db : Type 0} (lib : Library Db) where
  read_row-append :
      (ks ls : List (Bool × Kind)) (i : ℕ) (handle : Db)
      → read_row lib (ks ++ ls) i handle
        ≡ read_row lib ks i handle ++ read_row lib ls (i + length ks) handle
  unfolding read_row
  read_row-append [] ls i handle = ap (λ n. read_row lib ls n handle) (omega arith)
  read_row-append ((optional, kind) ∷ ks) ls i handle =
      ap (◌∷◌ (assign lib optional kind i handle)) (
        read_row-append ks ls (i + 1) handle
        ∙ ap (λ n. read_row lib ks (i + 1) handle ++ read_row lib ls n handle) (omega arith))

  items_lem :
      (items : List Item) (i : ℕ) (handle : Db)
      → (joined (read_items lib items i handle).0 ≡ read_row lib (members_of items) i handle)
        × ((read_items lib items i handle).1 ≡ i + length (members_of items))
  unfolding read_items read_row
  items_lem [] i handle = (refl, omega arith)
  items_lem (object kinds ∷ items) i handle =
      let (values, index) = items_lem items (i + length kinds) handle in
      (
        ap (λ s. read_row lib kinds i handle ++ s) values
            ∙ sym (read_row-append kinds (members_of items) i handle),
        omega (arith, index, length-append kinds (members_of items)),
      )
  items_lem (value (optional, kind) ∷ items) i handle =
      let (values, index) = items_lem items (i + 1) handle in
      (ap (◌∷◌ (assign lib optional kind i handle)) values, omega (arith, index))

  -- The rows with the values of their items joined, and where the fetching ends
  abbrev pub flat : List (List (List Field)) × Db → List (List Field) × Db
  flat (rows, handle) = (map joined rows, handle)

  flat_push :
      (values : List (List Field)) (index : ℕ) (r : List (List (List Field)) × Db)
      → 0 < index
      → flat (push_row lib (values, index) r) ≡ before_rows lib (joined values) (flat r)
  flat_push values index (rows, handle) h =
      ap (λ b. (map joined ((if b then [] else values ∷ []) ++ rows), handle)) (positive index h)
    where
      positive : (n : ℕ) → 0 < n → (n == 0) ≡ false
      positive n h = ground arith

  -- A query of tuples with a column fetches the values that a query of a struct with all the members of their items
  -- fetches, row by row, and leaves the library where that leaves it.
  pub fetch_tuples-fetch_all :
      (items : List Item) (fuel : ℕ) (handle : Db)
      → 0 < length (members_of items)
      → flat (fetch_tuples lib fuel items handle) ≡ fetch_all lib fuel (members_of items) handle
  unfolding fetch_tuples fetch_all
  fetch_tuples-fetch_all items zero handle h = refl
  fetch_tuples-fetch_all items (suc fuel) handle h =
      by_step (λ g. fetch_tuples-fetch_all items fuel g h) (lib.step handle)
    where
      by_step :
          ((g : Db)
            → flat (fetch_tuples lib fuel items g) ≡ fetch_all lib fuel (members_of items) g)
          → (r : StepResult × Db)
          → flat (next_tuple lib items (fetch_tuples lib fuel items) r)
            ≡ next_row lib (members_of items) (fetch_all lib fuel (members_of items)) r
      by_step later (row, g) =
          let (values, index) = items_lem items 0 g in
          let read : List (List Field) × ℕ = read_items lib items 0 g in
          flat_push read.0 read.1 (fetch_tuples lib fuel items g) (omega (arith, index, h))
          ∙ ap (λ v. before_rows lib v (flat (fetch_tuples lib fuel items g))) values
          ∙ ap (before_rows lib (read_row lib (members_of items) 0 g)) (later g)
      by_step later (done, g) = refl
      by_step later (failed, g) = refl
