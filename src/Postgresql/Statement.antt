-- ===== src/Postgresql/Statement.antt =====
-- ormpp/postgresql.hpp, `stmt_execute`, `insert_or_update_impl` of one object and of a vector, the insert, update and
-- delete over them. `INT_MIN` and `nullopt` are `none`.
pub mod Atomic
use ormpp.Base.{
  ℕ, Bool, true, false, not, ◌&&◌, List, [], ◌∷◌, ◌++◌, map, Option, none, some, if◌then◌else◌,
  Bytes, codes, is_empty, length,
}
use ormpp.Utility.Keys.{
  Entity, Registry, postgresql, is_auto_key, get_auto_key, get_conflict_keys, is_conflict_key,
}
use ormpp.Utility.Insert.{generate_insert_sql}
use ormpp.Utility.Update.{generate_update_sql, generate_delete_sql}
use ormpp.Sqlite.Statement.{OptType, insert, update, is_insert, is_update, kept}
use ormpp.Postgresql.{
  Status, command_ok, tuples_ok, fatal_error, null_result, Result, Library, Driver, is_command_ok,
  strtoull, read_digits, set_last_error, with_con, guarded, begin, commit, rollback, prepare,
  execute,
}
use ormpp.Postgresql.Values.{Field, set_param_values, passed}

-- An object: the value of each of its members
abbrev pub Object : Type 0
Object = Bytes → Field

-- The members that `stmt_execute` passes, in order: those chosen, or all but an inserted automatic key
abbrev pub chosen_members : Registry → Entity → OptType → List Bytes → List Bytes
chosen_members r t type [] =
    kept (λ name. not (is_insert type && is_auto_key r t name)) t.member_names
chosen_members r t type (m ∷ ms) = m ∷ ms

unfoldable pub passed_members : Registry → Entity → List Bytes → OptType → Bool → List Bytes
unfolding kept is_conflict_key get_conflict_keys is_auto_key
passed_members r t members type has_args =
    chosen_members r t type members
    ++ (if not has_args && is_update type
        then kept (is_conflict_key (get_conflict_keys postgresql [] r t)) t.member_names
        else [])

-- The text of the first cell; without a row the pointer that the source reads is null.
abbrev first_value : List (List (Option Bytes)) → Bytes
first_value ((some s ∷ cells) ∷ rows) = s
first_value rows = []

-- What `stmt_execute` returns by the status
abbrev pub returned_of : Result → Status → Option ℕ
returned_of res tuples_ok = some (strtoull (first_value res.tuples))
returned_of res command_ok = some 1
returned_of res fatal_error = none
returned_of res null_result = none

-- The text that is prepared; the source appends a C string of the automatic key.
unfoldable pub returning : Registry → Entity → Bool → Bytes → Bytes
unfolding get_auto_key
returning r t get_insert_id sql =
    if get_insert_id then sql ++ (codes "returning " ++ get_auto_key r t) else sql

-- `sizeof...(Args) > 0`
abbrev pub has_args : List Bytes → Bool
has_args [] = false
has_args (arg ∷ args) = true

module _ {Db : Type 0} (lib : Library Db) where
  abbrev pub returned : Result → Driver Db → Option ℕ × Driver Db
  returned res d = (returned_of res res.status, d)

  -- `PQexecPrepared` with the values
  abbrev pub exec_values : List Field → Driver Db → Result × Db
  exec_values values d =
      lib.exec_prepared (map (λ value. passed lib (set_param_values lib value)) values) d.con

  unfoldable pub exec_params : List Field → Driver Db → Option ℕ × Driver Db
  unfolding guarded passed set_param_values read_digits
  exec_params [] d = (none, d)
  exec_params (value ∷ values) d = guarded returned d (exec_values (value ∷ values) d)

  unfoldable pub stmt_execute :
      Registry → Entity → List Bytes → Object → OptType → Bool → Driver Db → Option ℕ × Driver Db
  unfolding passed_members exec_params
  stmt_execute r t members object type has_args d =
      exec_params (map object (passed_members r t members type has_args)) d

  -- What follows a call that succeeds; where it fails, the function returns.
  abbrev pub on_success :
      {A : Type 0} → A → (Driver Db → A × Driver Db) → Bool × Driver Db → A × Driver Db
  on_success refused more (true, d) = more d
  on_success refused more (false, d) = (refused, d)

  unfoldable pub insert_or_update_one :
      Registry
      → Entity
      → List Bytes
      → Object
      → Bytes
      → OptType
      → Bool
      → Bool
      → Driver Db
      → Option ℕ × Driver Db
  unfolding prepare stmt_execute returning
  insert_or_update_one r t members object sql type get_insert_id has_args d =
      on_success none (stmt_execute r t members object type has_args)
        (prepare lib (returning r t get_insert_id sql) (length t.member_names) d)

  -- `if (transaction_) { rollback(); }`
  unfoldable pub rolled_back : Driver Db → Driver Db
  unfolding rollback
  rolled_back d = if d.transaction then (rollback lib d).1 else d

  abbrev pub after_item :
      (ℕ → Driver Db → Option ℕ × Driver Db) → Option ℕ × Driver Db → Option ℕ × Driver Db
  after_item more (none, d) = (none, rolled_back d)
  after_item more (some n, d) = more n d

  -- The loop over the objects, on what is done with one; `res` is the last result.
  unfoldable pub execute_all :
      (Object → Driver Db → Option ℕ × Driver Db)
      → List Object
      → ℕ
      → Driver Db
      → Option ℕ × Driver Db
  unfolding rolled_back
  execute_all run [] res d = (some res, d)
  execute_all run (object ∷ objects) res d = after_item (execute_all run objects) (run object d)

  abbrev pub and_commit : Option ℕ × Driver Db → Option ℕ × Driver Db
  and_commit (none, d) = (none, d)
  and_commit (some n, d) =
      if d.transaction then on_success none (λ e. (some n, e)) (commit lib d) else (some n, d)

  -- The value that is returned; `(int)v.size()` is the size, for less than 2 ^ 31 objects.
  abbrev pub sized : Bool → ℕ → Option ℕ × Driver Db → Option ℕ × Driver Db
  sized get_insert_id count (none, d) = (none, d)
  sized get_insert_id count (some n, d) = (some (if get_insert_id then n else count), d)

  -- From `prepare` on: where it is refused, nothing ends the transaction.
  unfoldable pub prepared_batch :
      (Object → Driver Db → Option ℕ × Driver Db)
      → List Object
      → Bytes
      → ℕ
      → Driver Db
      → Option ℕ × Driver Db
  unfolding prepare execute_all commit
  prepared_batch run objects sql count d =
      on_success none (λ e. and_commit (execute_all run objects 0 e)) (prepare lib sql count d)

  unfoldable pub insert_or_update_impl :
      Registry
      → Entity
      → List Bytes
      → List Object
      → Bytes
      → OptType
      → Bool
      → Bool
      → Driver Db
      → Option ℕ × Driver Db
  unfolding begin prepared_batch stmt_execute returning
  insert_or_update_impl r t members objects sql type get_insert_id has_args d =
      let run : Object → Driver Db → Option ℕ × Driver Db =
        λ object. stmt_execute r t members object type has_args in
      let batch : Driver Db → Option ℕ × Driver Db =
        prepared_batch run objects (returning r t get_insert_id sql) (length t.member_names) in
      sized get_insert_id (length objects)
        (if d.transaction then on_success none batch (begin lib d) else batch d)

  -- `insert` and `replace` of an object and of a vector, with the conflict keys that they are given
  unfoldable pub insert_one :
      Registry → Entity → OptType → List Bytes → Object → Driver Db → Option ℕ × Driver Db
  unfolding insert_or_update_one
  insert_one r t type args object d =
      insert_or_update_one r t [] object (generate_insert_sql postgresql (is_insert type) r t args)
        type false false d

  unfoldable pub insert_vector :
      Registry → Entity → OptType → List Bytes → List Object → Driver Db → Option ℕ × Driver Db
  unfolding insert_or_update_impl
  insert_vector r t type args objects d =
      insert_or_update_impl r t [] objects
        (generate_insert_sql postgresql (is_insert type) r t args) type false false d

  abbrev or_zero : Option ℕ × Driver Db → ℕ × Driver Db
  or_zero (none, d) = (0, d)
  or_zero (some n, d) = (n, d)

  unfoldable pub get_insert_id_after_insert : Registry → Entity → Object → Driver Db → ℕ × Driver Db
  unfolding insert_or_update_one
  get_insert_id_after_insert r t object d = or_zero (
      insert_or_update_one r t [] object (generate_insert_sql postgresql true r t []) insert true
        false d)

  unfoldable pub insert_id_after_vector :
      Registry → Entity → List Object → Driver Db → ℕ × Driver Db
  unfolding insert_or_update_impl
  insert_id_after_vector r t objects d = or_zero (
      insert_or_update_impl r t [] objects (generate_insert_sql postgresql true r t []) insert true
        false d)

  -- `update_impl` on what is done with the text
  unfoldable pub with_update :
      Registry
      → Entity
      → List Bytes
      → List Bytes
      → (Bytes → Driver Db → Option ℕ × Driver Db)
      → Driver Db
      → Option ℕ × Driver Db
  unfolding set_last_error get_conflict_keys
  with_update r t members args run d =
      let sql =
        generate_update_sql postgresql members args (get_conflict_keys postgresql [] r t) t in
      if is_empty sql
      then (none, set_last_error (codes "update requires a conflict key or where condition") d)
      else run sql d

  unfoldable pub update_one :
      Registry → Entity → List Bytes → List Bytes → Object → Driver Db → Option ℕ × Driver Db
  unfolding with_update insert_or_update_one
  update_one r t members args object d =
      with_update r t members args
        (λ sql. insert_or_update_one r t members object sql update false (has_args args)) d

  unfoldable pub update_vector :
      Registry → Entity → List Bytes → List Bytes → List Object → Driver Db → Option ℕ × Driver Db
  unfolding with_update insert_or_update_impl
  update_vector r t members args objects d =
      with_update r t members args
        (λ sql. insert_or_update_impl r t members objects sql update false (has_args args)) d

  unfoldable pub delete_records : Entity → Bytes → Driver Db → Bool × Driver Db
  unfolding execute
  delete_records t where_condition d = execute lib (generate_delete_sql where_condition t) d

  abbrev deleted : Result → Driver Db → ℕ × Driver Db
  deleted res d = ((if is_command_ok res.status then strtoull res.cmd_tuples else 0), d)

  unfoldable pub delete_records_s : Entity → Bytes → List Field → Driver Db → ℕ × Driver Db
  unfolding prepare guarded read_digits
  delete_records_s t str [] d = guarded deleted d (lib.exec (generate_delete_sql str t) d.con)
  delete_records_s t str (arg ∷ args) d =
      on_success 0 (λ e. guarded deleted e (exec_values (arg ∷ args) e))
        (prepare lib (generate_delete_sql str t) (length t.member_names) d)
