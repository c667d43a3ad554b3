-- ===== src/Sqlite/Statement.antt =====
-- ormpp/sqlite.hpp, one statement: `set_param_bind`, `stmt_execute`, the guard of a statement,
-- `execute`, `delete_records_s` and `insert_or_update_impl` of one object. `INT_MIN` and `nullopt` are `none`.
use ormpp.Base.{
  ℕ, ◌+◌, Bool, true, false, not, ◌&&◌, List, [], ◌∷◌, ◌++◌, map, Option, none, some, ◌==◌,
  if◌then◌else◌, Bytes, codes, to_string,
}
use ormpp.Utility.Keys.{Entity, Registry, sqlite, is_auto_key, get_conflict_keys, is_conflict_key}
use ormpp.Sqlite.{
  StepResult, done, Bound, null, int, int64, real, text, blob, Library, Driver, reset_error,
  set_last_error, with_handle, set_errmsg,
}

-- The value of a member by its type: an optional without value, an enumerator or integer of up to 32
-- bits, one of 64, a floating-point number, a string or array of `char`, a blob
pub data Field : Type 0 where
  missing : Field
  narrow : ℕ → Field
  wide : ℕ → Field
  floating : ℕ → Field
  characters : Bytes → Field
  binary : Bytes → Field

-- The bytes that `strlen` counts
abbrev pub until_zero : Bytes → Bytes
until_zero [] = []
until_zero (c ∷ value) = if c == 0 then [] else c ∷ until_zero value

unfoldable pub bound_of : Field → Bound
bound_of missing = null
bound_of (narrow n) = int n
bound_of (wide n) = int64 n
bound_of (floating bits) = real bits
bound_of (characters s) = text (until_zero s)
bound_of (binary s) = blob s

pub data OptType : Type 0 where
  insert : OptType
  update : OptType
  replace : OptType

abbrev pub is_insert : OptType → Bool
is_insert insert = true
is_insert _ = false

abbrev pub is_update : OptType → Bool
is_update update = true
is_update _ = false

-- An object: the value of each of its members
abbrev pub Object : Type 0
Object = Bytes → Field

unfoldable pub kept : (Bytes → Bool) → List Bytes → List Bytes
kept test [] = []
kept test (name ∷ names) = (if test name then name ∷ [] else []) ++ kept test names

-- The members that `stmt_execute` binds, in order: those chosen or all but an inserted automatic key,
-- and for an update without further arguments the conflict keys
unfoldable pub bound_members : Registry → Entity → List Bytes → OptType → Bool → List Bytes
unfolding kept
bound_members r t members type has_args =
    (if is_empty_list members
      then kept (λ name. not (is_insert type && is_auto_key r t name)) t.member_names
      else members)
    ++ (if not has_args && is_update type
        then kept (is_conflict_key (get_conflict_keys sqlite [] r t)) t.member_names
        else [])
  where
    is_empty_list : List Bytes → Bool
    is_empty_list [] = true
    is_empty_list (name ∷ names) = false

module _ {Db : Type 0} (lib : Library Db) where
  unfoldable pub set_param_bind : Field → ℕ → Db → Bool × Db
  unfolding bound_of
  set_param_bind value i handle = lib.bind i (bound_of value) handle

  -- Once a value is refused, the ones behind it are not bound.
  abbrev pub bind_next : (Db → Bool × Db) → Bool × Db → Bool × Db
  bind_next more (true, handle) = more handle
  bind_next more (false, handle) = (false, handle)

  unfoldable pub bind_all : List Field → ℕ → Db → Bool × Db
  unfolding set_param_bind
  bind_all [] index handle = (true, handle)
  bind_all (value ∷ values) index handle =
      bind_next (bind_all values (index + 1)) (set_param_bind value (index + 1) handle)

  -- `sqlite3_changes` and the result
  abbrev pub counted : OptType → ℕ → Option ℕ
  counted type count = if count == 0 then (if is_update type then some 0 else none) else some 1

  abbrev pub after_step : OptType → Driver Db → StepResult × Db → Option ℕ × Driver Db
  after_step type d (done, handle) = (counted type (lib.changes handle), with_handle d handle)
  after_step type d (_, handle) = (none, set_errmsg lib (with_handle d handle))

  abbrev pub after_bind : OptType → Driver Db → Bool × Db → Option ℕ × Driver Db
  after_bind type d (false, handle) = (none, set_errmsg lib (with_handle d handle))
  after_bind type d (true, handle) = after_step type d (lib.step handle)

  unfoldable pub stmt_execute :
      Registry → Entity → List Bytes → Object → OptType → Bool → Driver Db → Option ℕ × Driver Db
  unfolding bind_all bound_members
  stmt_execute r t members object type has_args d =
      after_bind type d (bind_all (map object (bound_members r t members type has_args)) 0 d.handle)

  -- `~guard_statment`
  abbrev pub closed : Driver Db → ℕ × Db → Driver Db
  closed d (status, handle) =
      if status == 0
      then with_handle d handle
      else set_last_error (codes "close statment error code " ++ to_string status)
          (with_handle d handle)

  abbrev pub guarded : {A : Type 0} → A × Driver Db → A × Driver Db
  guarded (result, d) = (result, closed d (lib.finalize d.handle))

  -- The statement is prepared, and what is done with it stands under the guard.
  abbrev pub prepared :
      {A : Type 0} → A → (Driver Db → A × Driver Db) → Driver Db → Bool × Db → A × Driver Db
  prepared refused run d (false, handle) = (refused, set_errmsg lib (with_handle d handle))
  prepared refused run d (true, handle) = guarded (run (reset_error (with_handle d handle)))

  abbrev pub stepped : {A : Type 0} → A → (Db → A) → Driver Db → StepResult × Db → A × Driver Db
  stepped refused result d (done, handle) = (result handle, with_handle d handle)
  stepped refused result d (_, handle) = (refused, set_errmsg lib (with_handle d handle))

  unfoldable pub execute : Bytes → Driver Db → Bool × Driver Db
  execute sql d =
      prepared false (λ e. stepped false (λ handle. true) e (lib.step e.handle)) d
        (lib.prepare sql d.handle)

  -- The value that `insert_or_update_impl` returns where nothing failed
  abbrev pub returned : Bool → ℕ → Option ℕ × Driver Db → Option ℕ × Driver Db
  returned get_insert_id count (none, d) = (none, d)
  returned get_insert_id count (some n, d) =
      (some (if get_insert_id then lib.last_insert_rowid d.handle else count), d)

  unfoldable pub insert_or_update_one :
      Registry
      → Entity
      → List Bytes
      → Object
      → Bytes
      → OptType
      → Bool
      → Bool
      → Driver Db
      → Option ℕ × Driver Db
  unfolding stmt_execute
  insert_or_update_one r t members object sql type get_insert_id has_args d =
      prepared none
        (λ e. returned get_insert_id 1 (stmt_execute r t members object type has_args e)) d
        (lib.prepare sql d.handle)
