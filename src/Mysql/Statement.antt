-- ===== src/Mysql/Statement.antt =====
-- ormpp/mysql.hpp, one statement: the guard, `execute`, `delete_records`, `delete_records_s`, `stmt_execute`,
-- `insert_or_update_impl` of one object, and the insert and update over it. `INT_MIN` and `nullopt` are `none`.
pub mod Closed
use ormpp.Base.{
  ℕ, Bool, true, false, not, ◌&&◌, List, [], ◌∷◌, ◌++◌, map, Option, none, some, ◌==◌,
  if◌then◌else◌, Bytes, codes, is_empty, to_string,
}
use ormpp.Utility.Keys.{
  Entity, Registry, mysql, quoted, is_auto_key, get_conflict_keys, is_conflict_key,
}
use ormpp.Utility.Insert.{generate_insert_sql}
use ormpp.Utility.Update.{generate_update_sql, generate_delete_sql}
use ormpp.Mysql.{
  Library, Driver, reset_error, set_last_error, with_con, set_error, set_stmt_error, checked,
}
use ormpp.Mysql.Parameters.{Field, set_param_bind}

pub data OptType : Type 0 where
  insert : OptType
  update : OptType
  replace : OptType

abbrev pub is_insert : OptType → Bool
is_insert insert = true
is_insert _ = false

abbrev pub is_update : OptType → Bool
is_update update = true
is_update _ = false

-- An object: the value of each of its members
abbrev pub Object : Type 0
Object = Bytes → Field

-- The members that `stmt_execute` binds, in order: those chosen, or all but an inserted automatic key
unfoldable pub stored_members : Registry → Entity → OptType → List Bytes → List Bytes
stored_members r t type [] = []
stored_members r t type (name ∷ names) =
    (if is_insert type && is_auto_key r t name then [] else name ∷ [])
    ++ stored_members r t type names

-- The loop over the members for the conflict keys, whose names are quoted
unfoldable pub conflict_members : List Bytes → List Bytes → List Bytes
unfolding is_conflict_key
conflict_members keys [] = []
conflict_members keys (name ∷ names) =
    (if is_conflict_key keys (quoted mysql name) then name ∷ [] else [])
    ++ conflict_members keys names

abbrev pub chosen_members : Registry → Entity → OptType → List Bytes → List Bytes
chosen_members r t type [] = stored_members r t type t.member_names
chosen_members r t type (m ∷ ms) = m ∷ ms

unfoldable pub bound_members : Registry → Entity → List Bytes → OptType → Bool → List Bytes
unfolding stored_members conflict_members get_conflict_keys
bound_members r t members type has_args =
    chosen_members r t type members
    ++ (if not has_args && is_update type
        then conflict_members (get_conflict_keys mysql [] r t) t.member_names
        else [])

-- `sizeof...(Args) > 0`
abbrev pub has_args : List Bytes → Bool
has_args [] = false
has_args (arg ∷ args) = true

module _ {Db : Type 0} (lib : Library Db) where
  -- `~guard_statment`
  unfoldable pub closed : Driver Db → ℕ × Db → Driver Db
  unfolding set_last_error
  closed d (status, con) =
      if status == 0
      then with_con d con
      else set_last_error (codes "close statment error code " ++ to_string status) (with_con d con)

  unfoldable pub guarded : {A : Type 0} → A × Driver Db → A × Driver Db
  unfolding closed
  guarded (result, d) = (result, closed d (lib.stmt_close d.con))

  -- A call on the statement, the return where it fails, and what follows it
  abbrev pub stmt_call :
      {A : Type 0} → A → (Driver Db → A × Driver Db) → Driver Db → Bool × Db → A × Driver Db
  stmt_call refused more d (true, con) = more (with_con d con)
  stmt_call refused more d (false, con) = (refused, set_stmt_error lib (with_con d con))

  abbrev pub after_init :
      {A : Type 0} → A → (Driver Db → A × Driver Db) → Driver Db → Bool × Db → A × Driver Db
  after_init refused more d (true, con) = more (with_con d con)
  after_init refused more d (false, con) = (refused, set_error lib (with_con d con))

  -- The beginning of `execute`, `delete_records_s` and the queries: the guard stands in front of
  -- `mysql_stmt_prepare`.
  unfoldable pub with_statement :
      {A : Type 0} → A → Bytes → (Driver Db → A × Driver Db) → Driver Db → A × Driver Db
  unfolding guarded reset_error set_error set_stmt_error
  with_statement refused sql run d =
      after_init refused
        (λ e.
          let f = reset_error e in guarded (stmt_call refused run f (lib.stmt_prepare sql f.con)))
        d (lib.stmt_init d.con)

  -- That of `insert_or_update_impl`: the guard stands behind it.
  unfoldable pub with_prepared :
      {A : Type 0} → A → Bytes → (Driver Db → A × Driver Db) → Driver Db → A × Driver Db
  unfolding guarded reset_error set_error set_stmt_error
  with_prepared refused sql run d =
      after_init refused
        (λ e. stmt_call refused (λ f. guarded (run (reset_error f))) e (lib.stmt_prepare sql e.con))
        d (lib.stmt_init d.con)

  -- `mysql_stmt_execute`, and what follows it
  unfoldable pub executing :
      {A : Type 0} → A → (Driver Db → A × Driver Db) → Driver Db → A × Driver Db
  unfolding set_stmt_error
  executing refused more d = stmt_call refused more d (lib.stmt_execute d.con)

  abbrev pub affected : Driver Db → Bool × Driver Db
  affected d = (true, record d { last_affect_rows = lib.stmt_affected_rows d.con })

  unfoldable pub execute : Bytes → Driver Db → Bool × Driver Db
  unfolding with_statement executing
  execute sql d = with_statement false sql (executing false affected) d

  unfoldable pub delete_records : Entity → Bytes → Driver Db → Bool × Driver Db
  unfolding execute
  delete_records t where_condition d = execute (generate_delete_sql where_condition t) d

  -- `if constexpr (sizeof...(Args) > 0)`: the arguments are bound.
  unfoldable pub bind_arguments :
      {A : Type 0} → A → List Field → (Driver Db → A × Driver Db) → Driver Db → A × Driver Db
  unfolding set_stmt_error
  bind_arguments refused [] more d = more d
  bind_arguments refused (arg ∷ args) more d =
      stmt_call refused more d (lib.stmt_bind_param (map set_param_bind (arg ∷ args)) d.con)

  abbrev pub deleted : Driver Db → ℕ × Driver Db
  deleted d = (lib.stmt_affected_rows d.con, d)

  unfoldable pub delete_records_s : Entity → Bytes → List Field → Driver Db → ℕ × Driver Db
  unfolding with_statement bind_arguments executing
  delete_records_s t str args d =
      with_statement 0 (generate_delete_sql str t) (bind_arguments 0 args (executing 0 deleted)) d

  -- `mysql_stmt_affected_rows` and the result; a count from 2 ^ 31 on does not fit it.
  abbrev pub counted : OptType → ℕ → Option ℕ
  counted type count = if count == 0 then (if is_update type then some 0 else none) else some count

  abbrev pub stored : OptType → Driver Db → Option ℕ × Driver Db
  stored type d = (counted type (lib.stmt_affected_rows d.con), d)

  unfoldable pub stmt_execute :
      Registry → Entity → List Bytes → Object → OptType → Bool → Driver Db → Option ℕ × Driver Db
  unfolding bound_members set_stmt_error executing
  stmt_execute r t members object type has_args d =
      stmt_call none (executing none (stored type)) d (
        lib.stmt_bind_param
          (map (λ name. set_param_bind (object name)) (bound_members r t members type has_args))
          d.con)

  -- The value that `insert_or_update_impl` returns where nothing failed
  abbrev pub returned : Bool → Option ℕ × Driver Db → Option ℕ × Driver Db
  returned get_insert_id (none, d) = (none, d)
  returned get_insert_id (some n, d) =
      (some (if get_insert_id then lib.stmt_insert_id d.con else 1), d)

  unfoldable pub insert_or_update_one :
      Registry
      → Entity
      → List Bytes
      → Object
      → Bytes
      → OptType
      → Bool
      → Bool
      → Driver Db
      → Option ℕ × Driver Db
  unfolding with_prepared stmt_execute
  insert_or_update_one r t members object sql type get_insert_id has_args d =
      with_prepared none sql
        (λ e. returned get_insert_id (stmt_execute r t members object type has_args e)) d

  -- `insert` and `replace`, and `update`, of one object
  unfoldable pub insert_one :
      Registry → Entity → OptType → Object → Driver Db → Option ℕ × Driver Db
  unfolding insert_or_update_one
  insert_one r t type object d =
      insert_or_update_one r t [] object (generate_insert_sql mysql (is_insert type) r t []) type
        false false d

  abbrev or_zero : Option ℕ × Driver Db → ℕ × Driver Db
  or_zero (none, d) = (0, d)
  or_zero (some n, d) = (n, d)

  unfoldable pub get_insert_id_after_insert : Registry → Entity → Object → Driver Db → ℕ × Driver Db
  unfolding insert_or_update_one
  get_insert_id_after_insert r t object d = or_zero (
      insert_or_update_one r t [] object (generate_insert_sql mysql true r t []) insert true false
        d)

  -- `update_impl` on what is done with the text
  unfoldable pub with_update :
      Registry
      → Entity
      → List Bytes
      → List Bytes
      → (Bytes → Driver Db → Option ℕ × Driver Db)
      → Driver Db
      → Option ℕ × Driver Db
  unfolding set_last_error get_conflict_keys
  with_update r t members args run d =
      let sql = generate_update_sql mysql members args (get_conflict_keys mysql [] r t) t in
      if is_empty sql
      then (none, set_last_error (codes "update requires a conflict key or where condition") d)
      else run sql d

  unfoldable pub update_one :
      Registry → Entity → List Bytes → List Bytes → Object → Driver Db → Option ℕ × Driver Db
  unfolding with_update insert_or_update_one
  update_one r t members args object d =
      with_update r t members args
        (λ sql. insert_or_update_one r t members object sql update false (has_args args)) d
