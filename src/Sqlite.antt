-- ===== src/Sqlite.antt =====
-- ormpp/sqlite.hpp: the driver over SQLite. The library's connection is a parameter, a type `Db` with the calls
-- that the driver makes of it; the driver adds its two members. Each function gives its result and the state.
pub mod Statement
pub mod Batch
pub mod Query
pub mod Tuple
pub mod Update
mod Examples
use ormpp.Base.{ℕ, Bool, true, false, [], Bytes, codes}

-- The result of `sqlite3_step`
pub data StepResult : Type 0 where
  row : StepResult
  done : StepResult
  failed : StepResult

-- What is bound: a number is kept as its 32 or 64 bits.
pub data Bound : Type 0 where
  null : Bound
  int : ℕ → Bound
  int64 : ℕ → Bound
  real : ℕ → Bound
  text : Bytes → Bound
  blob : Bytes → Bound

-- The calls of the library, on the connection with its current statement: a `Bool` says SQLITE_OK.
pub record Library (Db : Type 0) : Type 0 where
  pub exec : Bytes → Db → Bool × Db
  pub prepare : Bytes → Db → Bool × Db
  pub bind : ℕ → Bound → Db → Bool × Db
  pub step : Db → StepResult × Db
  pub reset : Db → Bool × Db
  pub finalize : Db → ℕ × Db
  pub errmsg : Db → Bytes
  pub changes : Db → ℕ
  pub last_insert_rowid : Db → ℕ
  pub column_is_null : ℕ → Db → Bool
  pub column_int : ℕ → Db → ℕ
  pub column_int64 : ℕ → Db → ℕ
  pub column_double : ℕ → Db → ℕ
  pub column_text : ℕ → Db → Bytes
  pub column_blob : ℕ → Db → Bytes

pub record Driver (Db : Type 0) : Type 0 where
  pub handle : Db
  pub has_error : Bool
  pub last_error : Bytes
  pub transaction : Bool

module _ {Db : Type 0} where
  unfoldable pub reset_error : Driver Db → Driver Db
  reset_error d = record d { has_error = false; last_error = [] }

  unfoldable pub set_last_error : Bytes → Driver Db → Driver Db
  set_last_error last_error d = record d { has_error = true; last_error = last_error }

  unfoldable pub set_enable_transaction : Bool → Driver Db → Driver Db
  set_enable_transaction enable d = record d { transaction = enable }

  abbrev pub with_handle : Driver Db → Db → Driver Db
  with_handle d handle = record d { handle = handle }

  module _ (lib : Library Db) where
    -- `set_last_error(sqlite3_errmsg(handle_))`
    unfoldable pub set_errmsg : Driver Db → Driver Db
    unfolding set_last_error
    set_errmsg d = set_last_error (lib.errmsg d.handle) d

    -- The test of a call's result, at the end of a function
    abbrev pub checked : Driver Db → Bool × Db → Bool × Driver Db
    checked d (true, handle) = (true, with_handle d handle)
    checked d (false, handle) = (false, set_errmsg (with_handle d handle))

    unfoldable pub begin : Driver Db → Bool × Driver Db
    unfolding reset_error set_errmsg
    begin d = checked (reset_error d) (lib.exec (codes "BEGIN") d.handle)

    unfoldable pub commit : Driver Db → Bool × Driver Db
    unfolding reset_error set_errmsg
    commit d = checked (reset_error d) (lib.exec (codes "COMMIT") d.handle)

    unfoldable pub rollback : Driver Db → Bool × Driver Db
    unfolding reset_error set_errmsg
    rollback d = checked (reset_error d) (lib.exec (codes "ROLLBACK") d.handle)
