-- ===== src/Sqlite/Batch.antt =====
-- ormpp/sqlite.hpp, `insert_or_update_impl` of a vector, and `insert_impl` and `update_impl` over it.
pub mod Atomic
use ormpp.Base.{
  ℕ, ◌+◌, ◌%◌, Bool, true, false, not, ◌&&◌, List, [], ◌∷◌, Option, none, some, if◌then◌else◌,
  Bytes, codes, is_empty, length,
}
use ormpp.Utility.Keys.{Entity, Registry, sqlite}
use ormpp.Utility.Insert.{generate_insert_sql}
use ormpp.Sqlite.{Library, Driver, set_last_error, with_handle, set_errmsg, begin, commit, rollback}
use ormpp.Sqlite.Statement.{
  OptType, insert, update, replace, is_insert, Object, stmt_execute, prepared, returned,
}

module _ {Db : Type 0} (lib : Library Db) where
  -- `if (transaction_) { rollback(); }`
  unfoldable pub rolled_back : Driver Db → Driver Db
  unfolding rollback
  rolled_back d = if d.transaction then (rollback lib d).1 else d

  -- The test of `sqlite3_reset`, and what follows it in the loop
  abbrev pub after_reset : (Driver Db → Bool × Driver Db) → Driver Db → Bool × Db → Bool × Driver Db
  after_reset more d (true, handle) = more (with_handle d handle)
  after_reset more d (false, handle) = (false, set_errmsg lib (rolled_back (with_handle d handle)))

  abbrev pub after_item : (Driver Db → Bool × Driver Db) → Option ℕ × Driver Db → Bool × Driver Db
  after_item more (none, d) = (false, rolled_back d)
  after_item more (some n, d) = after_reset more d (lib.reset d.handle)

  -- The loop over the objects, on what is done with one
  unfoldable pub insert_all :
      (Object → Driver Db → Option ℕ × Driver Db) → List Object → Driver Db → Bool × Driver Db
  unfolding rolled_back
  insert_all execute_one [] d = (true, d)
  insert_all execute_one (object ∷ objects) d =
      after_item (insert_all execute_one objects) (execute_one object d)

  abbrev pub opened : (Driver Db → Bool × Driver Db) → Bool × Driver Db → Bool × Driver Db
  opened more (true, d) = more d
  opened more (false, d) = (false, d)

  -- From `if (transaction_ && !begin())` to the `return` that follows `commit`
  unfoldable pub transact :
      (Object → Driver Db → Option ℕ × Driver Db) → List Object → Driver Db → Bool × Driver Db
  unfolding insert_all begin commit
  transact execute_one objects d =
      if d.transaction
      then opened (commit lib) (opened (insert_all execute_one objects) (begin lib d))
      else insert_all execute_one objects d

  -- `(int)v.size()` is the size, for less than 2 ^ 31 objects.
  abbrev pub sized : Bool → ℕ → Bool × Driver Db → Option ℕ × Driver Db
  sized get_insert_id count (false, d) = (none, d)
  sized get_insert_id count (true, d) =
      (some (if get_insert_id then lib.last_insert_rowid d.handle else count), d)

  unfoldable pub insert_or_update_impl :
      Registry
      → Entity
      → List Bytes
      → List Object
      → Bytes
      → OptType
      → Bool
      → Bool
      → Driver Db
      → Option ℕ × Driver Db
  unfolding transact stmt_execute
  insert_or_update_impl r t members objects sql type get_insert_id has_args d =
      prepared lib none
        (λ e.
          sized get_insert_id (length objects)
            (transact (λ object. stmt_execute lib r t members object type has_args) objects e))
        d (lib.prepare sql d.handle)

  -- `insert` and `replace` of a vector; `none` is `INT_MIN`
  unfoldable pub insert_impl :
      Registry → Entity → OptType → List Object → Driver Db → Option ℕ × Driver Db
  unfolding insert_or_update_impl generate_insert_sql
  insert_impl r t type objects d =
      insert_or_update_impl r t [] objects (generate_insert_sql sqlite (is_insert type) r t []) type
        false false d
