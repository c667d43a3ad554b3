-- ===== src/Sqlite/Examples.antt =====
-- The theorems on the SQLite driver, over a small library: a table of numbers and its transactions.
use ormpp.Base.{
  ℕ, ◌≢◌, ◌⊎◌, ◌==◌, Bool, true, false, List, [], ◌∷◌, Option, none, if◌then◌else◌, Bytes, codes,
  equal, to_string, length, ◌≡◌, refl, arith,
}
use ormpp.Utility.Keys.{Entity, Registry, is_auto_key}
use ormpp.Sqlite.{
  StepResult, row, done, failed, Bound, int, Library, Driver, begin, commit, reset_error,
  set_last_error, set_errmsg,
}
use ormpp.Sqlite.Statement.{narrow, insert, Object, stmt_execute, bound_members}
use ormpp.Sqlite.Batch.{insert_or_update_impl, rolled_back, insert_all}
use ormpp.Sqlite.Batch.Atomic.{Transactional, CommitFailed, insert_or_update_impl-atomic}
use ormpp.Sqlite.Query.{Kind, narrow_kind, signed32, query_s, bind_each, read_row}
use ormpp.Sqlite.Query.Rows.{Gives, query_s-Gives}
use ormpp.Sqlite.Query.{fetch_all}
use ormpp.Sqlite.Tuple.{Item, value, fetch_tuples}
use ormpp.Sqlite.Tuple.Flat.{members_of, flat, fetch_tuples-fetch_all}

-- A table of one column without doubles, the table that BEGIN has saved, the value bound, the result of
-- the last step, and the rows that a query has left
record Store : Type 0 where
  table : List ℕ
  kept : List ℕ
  bound : ℕ
  status : ℕ
  left : List ℕ

abbrev member : ℕ → List ℕ → Bool
member n [] = false
member n (m ∷ ms) = if n == m then true else member n ms

abbrev run_sql : Bytes → Store → Bool × Store
run_sql sql h =
    if equal sql (codes "BEGIN")
    then (true, record h { kept = h.table })
    else if equal sql (codes "ROLLBACK")
    then (true, record h { table = h.kept })
    else (true, h)

abbrev number : Bound → ℕ
number (int n) = n
number _ = 0

abbrev step_insert : Store → StepResult × Store
step_insert h =
    if member h.bound h.table
    then (failed, record h { status = 19 })
    else (done, record h { table = h.bound ∷ h.table; status = 0 })

abbrev store : Library Store
store = record {
  exec = run_sql;
  prepare = λ sql h. (true, h);
  bind = λ i value h. (true, record h { bound = number value });
  step = step_insert;
  reset = λ h. (true, h);
  finalize = λ h. (h.status, h);
  errmsg = λ h. codes "UNIQUE constraint failed";
  changes = λ h. 1;
  last_insert_rowid = λ h. length h.table;
  column_is_null = λ i h. false;
  column_int = λ i h. h.bound;
  column_int64 = λ i h. h.bound;
  column_double = λ i h. 0;
  column_text = λ i h. [];
  column_blob = λ i h. [];
}

store-Transactional : Transactional store (λ h. h.table) (λ h. h.kept) (λ h. Unit) (λ h. Unit)
unfolding equal
store-Transactional = record {
  begin_keeps = λ h. refl;
  begin_saves = λ h e. refl;
  begin_opens = λ h ready e. tt;
  rollback_restores = λ h. refl;
  commit_fails = λ h running e. refl;
  prepare_keeps = λ sql h. refl;
  bind_saved = λ i value h running. (refl, tt);
  step_saved = λ h running. step_kept h;
  step_opens = λ h running e. tt;
  reset_saved = λ h running. refl;
  reset_opens = λ h running e. tt;
  finalize_keeps = λ h. refl;
  finalize_saved = λ h. refl;
}
  where
    step_kept : (h : Store) → (step_insert h).1.kept ≡ h.kept
    step_kept h = ground arith

abbrev driver : Driver Store
driver = record {
  handle = record { table = 5 ∷ []; kept = []; bound = 0; status = 0; left = [] };
  has_error = false;
  last_error = [];
  transaction = true;
}

abbrev numbers : Entity
numbers = record { struct_name = codes "numbers"; member_names = codes "n" ∷ [] }

abbrev no_keys : Registry
no_keys = record { auto_key_map = []; conflict_map = [] }

abbrev object : ℕ → Object
object n name = narrow n

-- The third number is there already.
abbrev batch : List Object
batch = object 6 ∷ object 7 ∷ object 5 ∷ []

abbrev result : Option ℕ × Driver Store
result =
    insert_or_update_impl store no_keys numbers [] batch (codes "insert into numbers (n) values(?)")
      insert false false driver

batch_returns_none : result.0 ≡ none
unfolding insert_or_update_impl equal begin commit rolled_back stmt_execute reset_error
    set_last_error set_errmsg insert_all bound_members is_auto_key
batch_returns_none = refl

batch_fails : (result.0 ≡ none) × (result.1.last_error ≡ codes "close statment error code 19")
unfolding insert_or_update_impl equal begin commit rolled_back stmt_execute reset_error
    set_last_error set_errmsg insert_all to_string bound_members is_auto_key
batch_fails = (refl, refl)

insert_or_update_impl-atomic_example :
    let after : Store = result.1.handle in
    (after.table ≡ 5 ∷ []) ⊎ CommitFailed store (λ h. h.kept) (5 ∷ []) after
insert_or_update_impl-atomic_example =
    insert_or_update_impl-atomic store (λ h. h.table) (λ h. h.kept) (λ h. Unit) (λ h. Unit)
      store-Transactional no_keys numbers [] batch (codes "insert into numbers (n) values(?)")
      insert false false driver refl (λ e. tt) batch_returns_none

abbrev step_query : Store → StepResult × Store
step_query h = elim h.left [
  | [] ↦ (failed, record h { status = 5 })
  | n ∷ ns ↦ (row, record h { bound = n; left = ns })
]

abbrev reader : Library Store
reader = record store { step = step_query }

abbrev querying : Driver Store
querying = record driver {
  handle = record { table = []; kept = []; bound = 0; status = 0; left = 3 ∷ 4 ∷ [] };
}

abbrev kinds : List (Bool × Kind)
kinds = (false, narrow_kind signed32) ∷ []

-- Two rows, and then a step that fails
two_rows :
    Gives reader kinds
      ((narrow 3 ∷ []) ∷ (narrow 4 ∷ []) ∷ [])
      (bind_each reader [] 0 querying.handle)
      failed
      (record { table = []; kept = []; bound = 4; status = 5; left = [] })
unfolding bind_each read_row
two_rows = (_, refl, refl, (_, refl, refl, refl))

failed_is_no_row : failed ≢ row
failed_is_no_row e = cc e

query_s-Gives_example :
    ((query_s reader 10 kinds (codes "select n from numbers") [] querying).0
      ≡ (narrow 3 ∷ []) ∷ (narrow 4 ∷ []) ∷ [])
    × ((query_s reader 10 kinds (codes "select n from numbers") [] querying).1.has_error ≡ true)
query_s-Gives_example =
    query_s-Gives reader kinds 10 (codes "select n from numbers") [] querying querying.handle
      ((narrow 3 ∷ []) ∷ (narrow 4 ∷ []) ∷ []) failed
      (record { table = []; kept = []; bound = 4; status = 5; left = [] }) refl failed_is_no_row
      (omega arith) two_rows

abbrev items : List Item
items =
    Item.object ((false, narrow_kind signed32) ∷ (true, narrow_kind signed32) ∷ [])
    ∷ value (false, narrow_kind signed32)
    ∷ []

fetch_tuples-fetch_all_example :
    flat reader (fetch_tuples reader 5 items querying.handle)
    ≡ fetch_all reader 5 (members_of items) querying.handle
fetch_tuples-fetch_all_example = fetch_tuples-fetch_all reader items 5 querying.handle (omega arith)
