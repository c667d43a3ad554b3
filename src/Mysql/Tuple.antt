-- ===== src/Mysql/Tuple.antt =====
-- ormpp/mysql.hpp, `query_s` and `query` of a tuple.
pub mod Counted
use ormpp.Base.{
  ℕ, zero, suc, ◌+◌, Bool, true, false, List, [], ◌∷◌, ◌++◌, map, Option, none, some, ◌==◌,
  if◌then◌else◌, Bytes, codes, take, drop, length,
}
use ormpp.Utility.Escape.{Value}
use ormpp.Utility.Select.{get_sql}
use ormpp.Mysql.{
  Cell, Fetch, fetched, truncated, no_data, fetch_failed, Library, Driver, set_last_error, with_con,
}
use ormpp.Mysql.Parameters.{Field}
use ormpp.Mysql.Statement.{stmt_call, with_statement, bind_arguments, executing}
use ormpp.Mysql.Rows.{
  Member, Slot, fresh, result_column, bind_members, store_all, cleared, null_reset, reset_all,
  set_value, set_values,
}
use ormpp.Mysql.Query.{with_metadata}

-- An item of a tuple: a reflected struct with its members, or a value
pub data Item : Type 0 where
  object : List Member → Item
  value : Member → Item

-- The last loop of a row, which counts the columns, over the values of each item
unfoldable pub reset_items :
    List Item → List Cell → List (List Field) → List Slot → List (List Field) × List Slot
unfolding reset_all
reset_items [] cells values slots = ([], slots)
reset_items (item ∷ items) cells [] slots = ([], slots)
reset_items (object members ∷ items) cells (fields ∷ values) slots =
    let n = length members in
    let (first, kept) = reset_all (take n cells) fields (take n slots) in
    let (rest, others) = reset_items items (drop n cells) values (drop n slots) in
    (first ∷ rest, kept ++ others)
reset_items (value m ∷ items) cells (fields ∷ values) slots =
    let (first, kept) = reset_all (take 1 cells) fields (take 1 slots) in
    let (rest, others) = reset_items items (drop 1 cells) values (drop 1 slots) in
    (first ∷ rest, kept ++ others)

-- The occurrences of a byte, as `std::count` gives them
unfoldable pub count : ℕ → Bytes → ℕ
count c [] = 0
count c (d ∷ ds) = (if d == c then 1 else 0) + count c ds

module _ {Db : Type 0} (lib : Library Db) where
  -- The loop that binds the members of the items, from column `index` on
  unfoldable pub bind_items : List Item → ℕ → Db → List Slot
  unfolding bind_members result_column
  bind_items [] index con = []
  bind_items (object members ∷ items) index con =
      bind_members lib members index con ++ bind_items items (index + length members) con
  bind_items (value m ∷ items) index con =
      fresh m (result_column m.kind (lib.fetch_field_direct index con)) 0
      ∷ bind_items items (index + 1) con

  -- The loop that sets the values of the items, the first one from column `index` on
  unfoldable pub set_items :
      ℕ → List Item → List Slot → ℕ → Driver Db → List (List Field) × Driver Db
  unfolding set_values
  set_items indeterminate [] slots index d = ([], d)
  set_items indeterminate (object members ∷ items) slots index d =
      let n = length members in
      let (fields, e) = set_values lib indeterminate (take n slots) index d in
      let (rest, f) = set_items indeterminate items (drop n slots) (index + n) e in
      (fields ∷ rest, f)
  set_items indeterminate (value m ∷ items) slots index d =
      let (fields, e) = set_values lib indeterminate (take 1 slots) index d in
      let (rest, f) = set_items indeterminate items (drop 1 slots) (index + 1) e in
      (fields ∷ rest, f)

  -- The body of the loop, behind a fetch that has written these cells
  unfoldable pub fetch_tuple :
      ℕ
      → List Item
      → List Cell
      → List Slot
      → Driver Db
      → List (List Field) × (List Slot × Driver Db)
  unfolding store_all set_items reset_items
  fetch_tuple indeterminate items cells slots d =
      let stored = store_all cells slots in
      let (values, e) = set_items indeterminate items stored 0 d in
      let (row, rest) = reset_items items cells values (map cleared stored) in (row, (rest, e))

  abbrev next_tuple :
      ℕ
      → List Item
      → (List Slot → Driver Db → List (List (List Field)) × Driver Db)
      → List Slot
      → Driver Db
      → Fetch × Db
      → List (List (List Field)) × Driver Db
  next_tuple indeterminate items more slots d (fetched cells, con) =
      let (row, (rest, e)) = fetch_tuple indeterminate items cells slots (with_con d con) in
      let (rows, f) = more rest e in (row ∷ rows, f)
  next_tuple indeterminate items more slots d (truncated cells, con) =
      let (row, (rest, e)) = fetch_tuple indeterminate items cells slots (with_con d con) in
      let (rows, f) = more rest e in (row ∷ rows, f)
  next_tuple indeterminate items more slots d (_, con) = ([], with_con d con)

  -- The loop over the rows; the fuel bounds their number.
  unfoldable pub fetch_tuples :
      ℕ → ℕ → List Item → List Slot → Driver Db → List (List (List Field)) × Driver Db
  unfolding fetch_tuple
  fetch_tuples indeterminate zero items slots d = ([], d)
  fetch_tuples indeterminate (suc fuel) items slots d =
      next_tuple indeterminate items (fetch_tuples indeterminate fuel items) slots d
        (lib.stmt_fetch d.con)

  -- From `mysql_stmt_bind_result` on, with the members that are bound
  unfoldable pub fetch_bound_tuples :
      ℕ → ℕ → List Item → List Slot → Driver Db → List (List (List Field)) × Driver Db
  unfolding executing fetch_tuples
  fetch_bound_tuples fuel indeterminate items [] d = ([], d)
  fetch_bound_tuples fuel indeterminate items (slot ∷ slots) d =
      stmt_call lib [] (executing lib [] (fetch_tuples indeterminate fuel items (slot ∷ slots))) d
        (lib.stmt_bind_result (map (λ (s : Slot). s.column) (slot ∷ slots)) d.con)

  unfoldable pub query_tuples_s :
      ℕ → ℕ → List Item → Bytes → List Field → Driver Db → List (List (List Field)) × Driver Db
  unfolding with_statement with_metadata bind_arguments fetch_bound_tuples bind_items
  query_tuples_s fuel indeterminate items sql args d =
      with_statement lib [] sql
        (with_metadata lib [] (
          bind_arguments lib [] args
            (λ e. fetch_bound_tuples fuel indeterminate items (bind_items items 0 e.con) e)))
        d

  -- The text with the arguments in it: `none` where an exception is thrown.
  abbrev pub text_with : Bytes → List Value → Option Bytes
  text_with sql [] = some sql
  text_with sql (arg ∷ args) = get_sql sql (arg ∷ args)

  abbrev pub run_text :
      ℕ → ℕ → List Item → Driver Db → Option Bytes → Option (List (List (List Field)) × Driver Db)
  run_text fuel indeterminate items d none = none
  run_text fuel indeterminate items d (some sql) =
      some (query_tuples_s fuel indeterminate items sql [] d)

  -- `query` of tuples: the arguments are counted against the question marks of the text.
  unfoldable pub query_tuples :
      ℕ
      → ℕ
      → List Item
      → Bytes
      → List Value
      → Driver Db
      → Option (List (List (List Field)) × Driver Db)
  unfolding query_tuples_s set_last_error count
  query_tuples fuel indeterminate items sql args d =
      if (if length args == 0 then true else length args == count b'?' sql)
      then run_text fuel indeterminate items d (text_with sql args)
      else some ([], set_last_error (codes "arg size error") d)
