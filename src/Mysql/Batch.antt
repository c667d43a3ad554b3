-- ===== src/Mysql/Batch.antt =====
-- ormpp/mysql.hpp, `insert_or_update_impl` of a vector, and the insert and update over it.
pub mod Atomic
use ormpp.Base.{
  ℕ, Bool, true, false, not, ◌&&◌, List, [], ◌∷◌, Option, none, some, if◌then◌else◌, Bytes, length,
}
use ormpp.Utility.Keys.{Entity, Registry, mysql}
use ormpp.Utility.Insert.{generate_insert_sql}
use ormpp.Mysql.{Library, Driver, begin, commit, rollback}
use ormpp.Mysql.Statement.{
  OptType, insert, update, is_insert, Object, stmt_execute, with_prepared, has_args, with_update,
}

module _ {Db : Type 0} (lib : Library Db) where
  -- `if (transaction_) { rollback(); }`
  unfoldable pub rolled_back : Driver Db → Driver Db
  unfolding rollback
  rolled_back d = if d.transaction then (rollback lib d).1 else d

  abbrev pub after_item : (Driver Db → Bool × Driver Db) → Option ℕ × Driver Db → Bool × Driver Db
  after_item more (none, d) = (false, rolled_back d)
  after_item more (some n, d) = more d

  -- The loop over the objects, on what is done with one
  unfoldable pub insert_all :
      (Object → Driver Db → Option ℕ × Driver Db) → List Object → Driver Db → Bool × Driver Db
  unfolding rolled_back
  insert_all run [] d = (true, d)
  insert_all run (object ∷ objects) d = after_item (insert_all run objects) (run object d)

  abbrev pub and_then : (Driver Db → Bool × Driver Db) → Bool × Driver Db → Bool × Driver Db
  and_then more (true, d) = more d
  and_then more (false, d) = (false, d)

  -- From `if (transaction_ && !get_insert_id && !begin())` to the `return` behind `commit`
  unfoldable pub transact :
      Bool
      → (Object → Driver Db → Option ℕ × Driver Db)
      → List Object
      → Driver Db
      → Bool × Driver Db
  unfolding insert_all begin commit
  transact get_insert_id run objects d =
      if d.transaction && not get_insert_id
      then and_then (commit lib) (and_then (insert_all run objects) (begin lib d))
      else insert_all run objects d

  -- `(int)v.size()` is the size, for less than 2 ^ 31 objects.
  abbrev pub sized : Bool → ℕ → Bool × Driver Db → Option ℕ × Driver Db
  sized get_insert_id count (false, d) = (none, d)
  sized get_insert_id count (true, d) =
      (some (if get_insert_id then lib.stmt_insert_id d.con else count), d)

  unfoldable pub insert_or_update_impl :
      Registry
      → Entity
      → List Bytes
      → List Object
      → Bytes
      → OptType
      → Bool
      → Bool
      → Driver Db
      → Option ℕ × Driver Db
  unfolding with_prepared transact stmt_execute
  insert_or_update_impl r t members objects sql type get_insert_id has_args d =
      with_prepared lib none sql
        (λ e. sized get_insert_id (length objects) (
          transact get_insert_id (λ object. stmt_execute lib r t members object type has_args)
            objects e))
        d

  -- `insert`, `replace` and `update` of a vector, and its `get_insert_id_after_insert`
  unfoldable pub insert_vector :
      Registry → Entity → OptType → List Object → Driver Db → Option ℕ × Driver Db
  unfolding insert_or_update_impl
  insert_vector r t type objects d =
      insert_or_update_impl r t [] objects (generate_insert_sql mysql (is_insert type) r t []) type
        false false d

  unfoldable pub update_vector :
      Registry → Entity → List Bytes → List Bytes → List Object → Driver Db → Option ℕ × Driver Db
  unfolding with_update insert_or_update_impl
  update_vector r t members args objects d =
      with_update lib r t members args
        (λ sql. insert_or_update_impl r t members objects sql update false (has_args args)) d

  abbrev or_zero : Option ℕ × Driver Db → ℕ × Driver Db
  or_zero (none, d) = (0, d)
  or_zero (some n, d) = (n, d)

  unfoldable pub insert_id_after_vector :
      Registry → Entity → List Object → Driver Db → ℕ × Driver Db
  unfolding insert_or_update_impl
  insert_id_after_vector r t objects d = or_zero (
      insert_or_update_impl r t [] objects (generate_insert_sql mysql true r t []) insert true false
        d)
