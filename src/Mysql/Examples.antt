-- ===== src/Mysql/Examples.antt =====
-- The theorems on the MySQL driver, over a small server: a table of numbers and its transactions.
use ormpp.Base.{
  ℕ, ◌+◌, ◌-◌, ◌==◌, ◌≢◌, not, Bool, true, false, List, [], ◌∷◌, Option, none, some, if◌then◌else◌,
  Bytes, codes, equal, ◌≡◌, refl, arith,
}
use ormpp.Utility.Keys.{Entity, Registry, is_auto_key}
use ormpp.Utility.Types.{int_type, bool_type}
use ormpp.Mysql.{
  var_string_buffer, Cell, null_cell, number_cell, bytes_cell, Fetch, fetched, fetch_failed, bits,
  Parameter, Library, Driver, begin, commit, reset_error, set_last_error, set_error, set_stmt_error,
}
use ormpp.Mysql.Parameters.{arithmetic, set_param_bind, arithmetic_bind, type_to_id}
use ormpp.Mysql.Parameters.Width.{buffer_size, never_negative, set_param_bind-size_of}
use ormpp.Mysql.Statement.{
  insert, Object, stmt_execute, bound_members, execute, delete_records_s, insert_or_update_one,
  stored_members,
}
use ormpp.Mysql.Statement.Closed.{Counted, refused_text, insert_or_update_one-live}
use ormpp.Mysql.Batch.{insert_or_update_impl, rolled_back, insert_all}
use ormpp.Mysql.Batch.Atomic.{Transactional, Restorable, insert_or_update_impl-Restorable}
use ormpp.Mysql.Rows.{Member, number_kind, text_kind, result_column}

-- A table of one column without doubles, the table that BEGIN has saved, the number bound, the open statements, and
-- the rows that a query has left
record Server : Type 0 where
  table : List ℕ
  kept : List ℕ
  bound : ℕ
  live : ℕ
  left : List (List Cell)

abbrev member : ℕ → List ℕ → Bool
member n [] = false
member n (m ∷ ms) = if n == m then true else member n ms

abbrev run_sql : Bytes → Server → Bool × Server
run_sql sql h =
    if equal sql (codes "BEGIN")
    then (true, record h { kept = h.table })
    else if equal sql (codes "ROLLBACK")
    then (true, record h { table = h.kept })
    else (true, h)

abbrev number : List Parameter → ℕ
number [] = 0
number (p ∷ ps) = elim p.buffer [ bits n ↦ n | _ ↦ 0 ]

abbrev run_insert : Server → Bool × Server
run_insert h =
    if member h.bound h.table then (false, h) else (true, record h { table = h.bound ∷ h.table })

abbrev fetch_left : Server → List (List Cell) → Fetch × Server
fetch_left h [] = (fetch_failed, h)
fetch_left h (cells ∷ rows) = (fetched cells, record h { left = rows })

abbrev server : Library Server
server = record {
  init = λ h. (true, h);
  connect_timeout = λ n h. (true, h);
  charset_name = λ name h. h;
  real_connect = λ login port h. (true, h);
  close = λ h. h;
  ping = λ h. (true, h);
  query = run_sql;
  error = λ h. codes "error";
  stmt_init = λ h. (true, record h { live = h.live + 1 });
  stmt_prepare = λ sql h. (not (equal sql (codes "insert")), h);
  stmt_bind_param = λ ps h. (true, record h { bound = number ps });
  stmt_bind_result = λ columns h. (true, h);
  stmt_execute = run_insert;
  stmt_affected_rows = λ h. 1;
  stmt_insert_id = λ h. 1;
  stmt_result_metadata = λ h. (true, h);
  fetch_field_direct = λ i h. some (var_string_buffer, 3);
  free_result = λ h. h;
  stmt_fetch = λ h. fetch_left h h.left;
  stmt_fetch_column = λ i h. some 0;
  stmt_error = λ h. codes "Duplicate entry";
  stmt_close = λ h. (0, record h { live = h.live - 1 });
}

insert_live : (h : Server) → (run_insert h).1.live ≡ h.live
insert_live h = ground arith

insert_kept : (h : Server) → (run_insert h).1.kept ≡ h.kept
insert_kept h = ground arith

fetch_live : (h : Server) (rows : List (List Cell)) → (fetch_left h rows).1.live ≡ h.live
fetch_live h [] = refl
fetch_live h (cells ∷ rows) = refl

server-Counted : Counted server (λ h. h.live)
server-Counted = record {
  init_opens = λ h e. omega arith;
  init_fails = λ h e. absurd (let f : true ≡ false = e in cc f);
  close_closes = λ h. refl;
  prepare_keeps = λ sql h. refl;
  bind_keeps = λ ps h. refl;
  result_keeps = λ columns h. refl;
  execute_keeps = insert_live;
  metadata_keeps = λ h. refl;
  free_keeps = λ h. refl;
  fetch_keeps = λ h. fetch_live h h.left;
}

server-Transactional : Transactional server (λ h. h.table) (λ h. h.kept) (λ h. Unit) (λ h. Unit)
unfolding equal
server-Transactional = record {
  begin_keeps = λ h. refl;
  begin_saves = λ h e. refl;
  begin_opens = λ h ready e. tt;
  rollback_restores = λ h e. refl;
  rollback_fails = λ h e. absurd (let f : true ≡ false = e in cc f);
  commit_fails = λ h running e. refl;
  init_keeps = λ h. refl;
  prepare_keeps = λ sql h. refl;
  bind_saved = λ ps h running. (refl, tt);
  execute_saved = λ h running. insert_kept h;
  execute_opens = λ h running e. tt;
  close_keeps = λ h. refl;
  close_saved = λ h. refl;
}

abbrev driver : Driver Server
driver = record {
  con = record { table = 5 ∷ []; kept = []; bound = 0; live = 0; left = [] };
  connected = true;
  last_affect_rows = 0;
  has_error = false;
  last_error = [];
  transaction = true;
}

abbrev numbers : Entity
numbers = record { struct_name = codes "numbers"; member_names = codes "n" ∷ [] }

abbrev no_keys : Registry
no_keys = record { auto_key_map = []; conflict_map = [] }

abbrev number_object : ℕ → Object
number_object n name = arithmetic int_type n

set_param_bind-size_of_example :
    let p = set_param_bind (arithmetic int_type 5) in
    let c = result_column (number_kind int_type) none in
    (buffer_size p.buffer_type ≡ some 4)
    × (buffer_size c.column_type ≡ some 4)
    × (int_type ≢ bool_type
        → (p.is_unsigned ≡ never_negative int_type) × (c.column_unsigned ≡ never_negative int_type))
set_param_bind-size_of_example = set_param_bind-size_of int_type 5 4 none refl

-- The text of the insert is refused: its statement stays open.
insert_or_update_one-live_example :
    ((execute server (codes "insert") driver).1.con.live ≡ 0)
    × ((delete_records_s server numbers (codes "insert") [] driver).1.con.live ≡ 0)
    × ((insert_or_update_one server no_keys numbers []
          (number_object 6)
          (codes "insert")
          insert
          false
          false
          driver).1.con.live
        ≡ refused_text server (λ h. h.live) (codes "insert") driver + 0)
insert_or_update_one-live_example =
    insert_or_update_one-live server (λ h. h.live) server-Counted no_keys numbers []
      (number_object 6) [] insert false false (codes "insert") driver

refused_insert : refused_text server (λ h. h.live) (codes "insert") driver ≡ 1
unfolding equal
refused_insert = refl

-- The third number is there already.
abbrev batch : List Object
batch = number_object 6 ∷ number_object 7 ∷ number_object 5 ∷ []

abbrev result : Option ℕ × Driver Server
result =
    insert_or_update_impl server no_keys numbers [] batch (codes "insert into numbers(n) values(?)")
      insert false false driver

-- The text of the error is lost with the rollback.
batch_returns_none : (result.0 ≡ none) × (result.1.has_error ≡ false)
unfolding insert_or_update_impl equal begin commit rolled_back stmt_execute reset_error
    set_last_error set_error set_stmt_error insert_all bound_members stored_members is_auto_key
    set_param_bind arithmetic_bind type_to_id
batch_returns_none = (refl, refl)

insert_or_update_impl-Restorable_example :
    Restorable server (λ h. h.table) (λ h. h.kept) (5 ∷ []) result.1.con
insert_or_update_impl-Restorable_example =
    insert_or_update_impl-Restorable server (λ h. h.table) (λ h. h.kept) (λ h. Unit) (λ h. Unit)
      server-Transactional no_keys numbers [] batch (codes "insert into numbers(n) values(?)")
      insert false driver refl (λ h e. tt) batch_returns_none.0

abbrev members : List Member
members =
    record { optional = false; kind = text_kind }
    ∷ record { optional = true; kind = number_kind int_type }
    ∷ []

abbrev rows : List (List Cell)
rows =
    (bytes_cell (codes "abc") ∷ number_cell 7 ∷ []) ∷ (bytes_cell (codes "d") ∷ null_cell ∷ []) ∷ []

abbrev at : List (List Cell) → Server
at left = record { table = []; kept = []; bound = 0; live = 1; left = left }

abbrev reader : Library Server
reader = record server { stmt_execute = λ h. (true, h) }

abbrev reading : Driver Server
reading = record driver { con = record (at rows) { live = 0 } }
