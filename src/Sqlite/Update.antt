-- ===== src/Sqlite/Update.antt =====
-- ormpp/sqlite.hpp, `update_impl`, `insert_impl` and `get_insert_id_after_insert` of one object, and `delete_records`.
use ormpp.Base.{
  ℕ, Bool, true, false, List, [], ◌∷◌, Option, none, some, if◌then◌else◌, Bytes, codes, is_empty,
}
use ormpp.Utility.Keys.{Entity, Registry, sqlite, get_conflict_keys}
use ormpp.Utility.Insert.{generate_insert_sql}
use ormpp.Utility.Update.{generate_update_sql, generate_delete_sql}
use ormpp.Sqlite.{Library, Driver, set_last_error}
use ormpp.Sqlite.Statement.{
  OptType, insert, update, is_insert, Object, insert_or_update_one, execute,
}
use ormpp.Sqlite.Batch.{insert_or_update_impl}

-- `sizeof...(Args) > 0`
abbrev has_args : List Bytes → Bool
has_args [] = false
has_args (arg ∷ args) = true

module _ {Db : Type 0} (lib : Library Db) where
  unfoldable pub insert_one :
      Registry → Entity → OptType → Object → Driver Db → Option ℕ × Driver Db
  unfolding insert_or_update_one
  insert_one r t type object d =
      insert_or_update_one lib r t [] object (generate_insert_sql sqlite (is_insert type) r t [])
        type false false d

  abbrev or_zero : Option ℕ × Driver Db → ℕ × Driver Db
  or_zero (none, d) = (0, d)
  or_zero (some n, d) = (n, d)

  unfoldable pub get_insert_id_after_insert : Registry → Entity → Object → Driver Db → ℕ × Driver Db
  unfolding insert_or_update_one
  get_insert_id_after_insert r t object d = or_zero (
      insert_or_update_one lib r t [] object (generate_insert_sql sqlite true r t []) insert true
        false d)

  -- `update_impl` on what is done with the text
  unfoldable pub with_update :
      Registry
      → Entity
      → List Bytes
      → List Bytes
      → (Bytes → Driver Db → Option ℕ × Driver Db)
      → Driver Db
      → Option ℕ × Driver Db
  unfolding set_last_error get_conflict_keys
  with_update r t members args run d =
      let sql = generate_update_sql sqlite members args (get_conflict_keys sqlite [] r t) t in
      if is_empty sql
      then (none, set_last_error (codes "update requires a conflict key or where condition") d)
      else run sql d

  unfoldable pub update_one :
      Registry → Entity → List Bytes → List Bytes → Object → Driver Db → Option ℕ × Driver Db
  unfolding with_update insert_or_update_one
  update_one r t members args object d =
      with_update r t members args
        (λ sql. insert_or_update_one lib r t members object sql update false (has_args args)) d

  unfoldable pub update_vector :
      Registry → Entity → List Bytes → List Bytes → List Object → Driver Db → Option ℕ × Driver Db
  unfolding with_update insert_or_update_impl
  update_vector r t members args objects d =
      with_update r t members args
        (λ sql. insert_or_update_impl lib r t members objects sql update false (has_args args)) d

  unfoldable pub delete_records : Entity → Bytes → Driver Db → Bool × Driver Db
  unfolding execute
  delete_records t where_condition d = execute lib (generate_delete_sql where_condition t) d
