-- ===== src/Sqlite/Tuple.antt =====
-- ormpp/sqlite.hpp, `query` of a struct, and `query_s` and `query` of a tuple.
pub mod Flat
use ormpp.Base.{
  ℕ, zero, suc, ◌+◌, Bool, true, false, List, [], ◌∷◌, ◌++◌, length, Option, none, some, ◌==◌,
  if◌then◌else◌, Bytes,
}
use ormpp.Utility.Keys.{Entity, sqlite}
use ormpp.Utility.Escape.{Value}
use ormpp.Utility.Select.{contains_select, generate_query_sql, get_sql}
use ormpp.Sqlite.{StepResult, row, done, failed, Library, Driver, with_handle}
use ormpp.Sqlite.Statement.{Field, prepared}
use ormpp.Sqlite.Query.{
  Kind, assign, read_row, bind_each, prepared_with, fetched, fetch_all, query_s,
}

-- An item of a tuple: a reflected struct with its members, or a value; the flag says that it is optional.
pub data Item : Type 0 where
  object : List (Bool × Kind) → Item
  value : Bool × Kind → Item

-- The occurrences of a byte, as `std::count` gives them
unfoldable pub count : ℕ → Bytes → ℕ
count c [] = 0
count c (d ∷ ds) = (if d == c then 1 else 0) + count c ds

module _ {Db : Type 0} (lib : Library Db) where
  -- The text of `query_s` of a struct
  unfoldable pub query_s_of :
      ℕ
      → Entity
      → List (Bool × Kind)
      → Bytes
      → List Field
      → Driver Db
      → List (List Field) × Driver Db
  unfolding query_s contains_select generate_query_sql
  query_s_of fuel t kinds str args d =
      query_s lib fuel kinds
        (if contains_select str then str else generate_query_sql sqlite t (str ∷ [])) args d

  unfoldable pub query :
      ℕ → Entity → List (Bool × Kind) → List Bytes → Driver Db → List (List Field) × Driver Db
  unfolding fetch_all generate_query_sql
  query fuel t kinds args d =
      prepared lib [] (λ e. fetched lib e (fetch_all lib fuel kinds e.handle)) d
        (lib.prepare (generate_query_sql sqlite t args) d.handle)

  -- The loop over the items, which counts the columns: the values of the items and the count
  unfoldable pub read_items : List Item → ℕ → Db → List (List Field) × ℕ
  unfolding read_row assign
  read_items [] index handle = ([], index)
  read_items (object kinds ∷ items) index handle =
      let (rest, end) = read_items items (index + length kinds) handle in
      (read_row lib kinds index handle ∷ rest, end)
  read_items (value (optional, kind) ∷ items) index handle =
      let (rest, end) = read_items items (index + 1) handle in
      ((assign lib optional kind index handle ∷ []) ∷ rest, end)

  -- `if (index > 0)`
  abbrev pub push_row :
      List (List Field) × ℕ → List (List (List Field)) × Db → List (List (List Field)) × Db
  push_row (values, index) (rows, handle) =
      ((if index == 0 then [] else values ∷ []) ++ rows, handle)

  abbrev pub next_tuple :
      List Item
      → (Db → List (List (List Field)) × Db)
      → StepResult × Db
      → List (List (List Field)) × Db
  next_tuple items more (row, handle) = push_row (read_items items 0 handle) (more handle)
  next_tuple items more (_, handle) = ([], handle)

  -- `while (true)`: the fuel bounds the rows.
  unfoldable pub fetch_tuples : ℕ → List Item → Db → List (List (List Field)) × Db
  unfolding read_items
  fetch_tuples zero items handle = ([], handle)
  fetch_tuples (suc fuel) items handle =
      next_tuple items (fetch_tuples fuel items) (lib.step handle)

  abbrev pub tuples_fetched :
      Driver Db → List (List (List Field)) × Db → List (List (List Field)) × Driver Db
  tuples_fetched d (rows, handle) = (rows, with_handle d handle)

  unfoldable pub query_tuples_s :
      ℕ → List Item → Bytes → List Field → Driver Db → List (List (List Field)) × Driver Db
  unfolding fetch_tuples bind_each
  query_tuples_s fuel items sql args d =
      prepared_with lib [] (λ e. tuples_fetched e (fetch_tuples fuel items e.handle)) args d
        (lib.prepare sql d.handle)

  -- The text with the arguments in it: `none` where an exception is thrown.
  abbrev pub text_with : Bytes → List Value → Option Bytes
  text_with sql [] = some sql
  text_with sql (arg ∷ args) = get_sql sql (arg ∷ args)

  abbrev pub run_text :
      ℕ → List Item → Driver Db → Option Bytes → Option (List (List (List Field)) × Driver Db)
  run_text fuel items d none = none
  run_text fuel items d (some sql) = some (
      prepared lib [] (λ e. tuples_fetched e (fetch_tuples fuel items e.handle)) d
        (lib.prepare sql d.handle))

  -- `query` of tuples: the arguments are counted against the question marks of the text.
  unfoldable pub query_tuples :
      ℕ → List Item → Bytes → List Value → Driver Db → Option (List (List (List Field)) × Driver Db)
  unfolding fetch_tuples count
  query_tuples fuel items sql args d =
      if (if length args == 0 then true else length args == count b'?' sql)
      then run_text fuel items d (text_with sql args)
      else some ([], d)
