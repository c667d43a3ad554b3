-- ===== src/Postgresql/Query.antt =====
-- ormpp/postgresql.hpp, `query` and `query_s` of a struct and of a tuple.
pub mod Flat
use ormpp.Base.{
  ℕ, zero, suc, ◌+◌, Bool, true, false, List, [], ◌∷◌, ◌++◌, map, length, Option, none, some, ◌==◌,
  if◌then◌else◌, Bytes,
}
use ormpp.Utility.Keys.{Entity, postgresql}
use ormpp.Utility.Escape.{Value}
use ormpp.Utility.Select.{contains_select, generate_query_sql, get_sql}
use ormpp.Postgresql.{Result, Library, Driver, is_tuples_ok, guarded, prepare}
use ormpp.Postgresql.Values.{Field, Member, assign}
use ormpp.Postgresql.Statement.{on_success, exec_values}

-- `PQgetisnull` and `PQgetvalue`: a column that the row does not have is NULL.
unfoldable pub cell : List (Option Bytes) → ℕ → Option Bytes
cell [] i = none
cell (c ∷ cells) zero = c
cell (c ∷ cells) (suc i) = cell cells i

-- An item of a tuple: a reflected struct with its members, or a value
pub data Item : Type 0 where
  object : List Member → Item
  value : Member → Item

-- The occurrences of a byte
abbrev pub count : ℕ → Bytes → ℕ
count c [] = 0
count c (d ∷ ds) = (if d == c then 1 else 0) + count c ds

module _ {Db : Type 0} (lib : Library Db) where
  -- The loop over the members of a struct, from column `i` on
  unfoldable pub assign_members : List Member → ℕ → List (Option Bytes) → List Field
  unfolding assign cell
  assign_members [] i cells = []
  assign_members (m ∷ members) i cells =
      assign lib m (cell cells i) ∷ assign_members members (i + 1) cells

  -- The loop over the items of a tuple, which counts the columns: the values of its items and the count
  unfoldable pub assign_items : List Item → ℕ → List (Option Bytes) → List (List Field) × ℕ
  unfolding assign_members assign cell
  assign_items [] index cells = ([], index)
  assign_items (object members ∷ items) index cells =
      let (rest, end) = assign_items items (index + length members) cells in
      (assign_members members index cells ∷ rest, end)
  assign_items (value m ∷ items) index cells =
      let (rest, end) = assign_items items (index + 1) cells in
      ((assign lib m (cell cells index) ∷ []) ∷ rest, end)

  -- The loop over the rows of tuples: `if (index > 0)` keeps the row.
  unfoldable pub tuple_rows : List Item → List (List (Option Bytes)) → List (List (List Field))
  unfolding assign_items
  tuple_rows items [] = []
  tuple_rows items (cells ∷ rows) =
      let (row, index) = assign_items items 0 cells in
      (if index == 0 then [] else row ∷ []) ++ tuple_rows items rows

  -- The statement: with arguments it is prepared, for a type of so many members.
  unfoldable pub run_statement :
      {A : Type 0} → A → (Result → A) → Bytes → ℕ → List Field → Driver Db → A × Driver Db
  unfolding guarded prepare
  run_statement refused answer sql members_count [] d =
      guarded (λ res e. ((if is_tuples_ok res.status then answer res else refused), e)) d
        (lib.exec sql d.con)
  run_statement refused answer sql members_count (arg ∷ args) d =
      on_success lib refused
        (λ f.
          guarded (λ res e. ((if is_tuples_ok res.status then answer res else refused), e)) f
            (exec_values lib (arg ∷ args) f))
        (prepare lib sql members_count d)

  unfoldable pub query_s :
      Entity → List Member → Bytes → List Field → Driver Db → List (List Field) × Driver Db
  unfolding run_statement assign_members
  query_s t members str args d =
      run_statement [] (λ res. map (assign_members members 0) res.tuples)
        (if contains_select str then str else generate_query_sql postgresql t (str ∷ []))
        (length members) args d

  unfoldable pub query :
      Entity → List Member → List Bytes → Driver Db → List (List Field) × Driver Db
  unfolding run_statement assign_members
  query t members args d =
      run_statement [] (λ res. map (assign_members members 0) res.tuples)
        (generate_query_sql postgresql t args) 0 [] d

  unfoldable pub query_tuples_s :
      List Item → Bytes → List Field → Driver Db → List (List (List Field)) × Driver Db
  unfolding run_statement tuple_rows
  query_tuples_s items sql args d =
      run_statement [] (λ res. tuple_rows items res.tuples) sql (length items) args d

  -- What the text becomes with the arguments: `none` where an exception is thrown.
  abbrev pub filled_text : Bytes → List Value → Option Bytes
  filled_text sql [] = some sql
  filled_text sql (arg ∷ args) = get_sql sql (arg ∷ args)

  abbrev pub run_text :
      List Item → Driver Db → Option Bytes → Option (List (List (List Field)) × Driver Db)
  run_text items d none = none
  run_text items d (some sql) =
      some (run_statement [] (λ res. tuple_rows items res.tuples) sql 0 [] d)

  -- `query` of tuples: the arguments are counted against the dollar signs of the text.
  unfoldable pub query_tuples :
      List Item → Bytes → List Value → Driver Db → Option (List (List (List Field)) × Driver Db)
  unfolding run_statement tuple_rows
  query_tuples items sql args d =
      if (if length args == 0 then true else length args == count b'$' sql)
      then run_text items d (filled_text sql args)
      else some ([], d)
