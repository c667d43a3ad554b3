-- ===== src/Mysql/Query.antt =====
-- ormpp/mysql.hpp, `query` and `query_s` of a reflected struct.
pub mod Answer
use ormpp.Base.{ℕ, Bool, true, false, List, [], ◌∷◌, map, if◌then◌else◌, Bytes}
use ormpp.Utility.Keys.{Entity, mysql}
use ormpp.Utility.Select.{contains_select, generate_query_sql}
use ormpp.Mysql.{Library, Driver, with_con}
use ormpp.Mysql.Parameters.{Field}
use ormpp.Mysql.Statement.{stmt_call, with_statement, bind_arguments, executing}
use ormpp.Mysql.Rows.{Member, Slot, bind_members, fetch_rows}

module _ {Db : Type 0} (lib : Library Db) where
  -- `~guard_result`
  unfoldable pub freed : {A : Type 0} → A × Driver Db → A × Driver Db
  freed (result, d) = (result, with_con d (lib.free_result d.con))

  -- `mysql_stmt_result_metadata` and its guard
  unfoldable pub with_metadata :
      {A : Type 0} → A → (Driver Db → A × Driver Db) → Driver Db → A × Driver Db
  unfolding freed
  with_metadata refused run d =
      stmt_call lib refused (λ e. freed (run e)) d (lib.stmt_result_metadata d.con)

  -- From `mysql_stmt_bind_result` on, with the members that are bound: `if (index == 0)` comes first.
  unfoldable pub fetch_bound : ℕ → ℕ → List Slot → Driver Db → List (List Field) × Driver Db
  unfolding executing fetch_rows
  fetch_bound fuel indeterminate [] d = ([], d)
  fetch_bound fuel indeterminate (slot ∷ slots) d =
      stmt_call lib [] (executing lib [] (fetch_rows lib indeterminate fuel (slot ∷ slots))) d
        (lib.stmt_bind_result (map (λ (s : Slot). s.column) (slot ∷ slots)) d.con)

  abbrev pub fetch_members : ℕ → ℕ → List Member → Driver Db → List (List Field) × Driver Db
  fetch_members fuel indeterminate members d =
      fetch_bound fuel indeterminate (bind_members lib members 0 d.con) d

  unfoldable pub query_text :
      ℕ → ℕ → List Member → Bytes → List Field → Driver Db → List (List Field) × Driver Db
  unfolding with_statement with_metadata bind_arguments fetch_bound bind_members
  query_text fuel indeterminate members sql args d =
      with_statement lib [] sql
        (with_metadata [] (bind_arguments lib [] args (fetch_members fuel indeterminate members))) d

  unfoldable pub query_s :
      ℕ → ℕ → Entity → List Member → Bytes → List Field → Driver Db → List (List Field) × Driver Db
  unfolding query_text
  query_s fuel indeterminate t members str args d =
      query_text fuel indeterminate members
        (if contains_select str then str else generate_query_sql mysql t (str ∷ [])) args d

  unfoldable pub query :
      ℕ → ℕ → Entity → List Member → List Bytes → Driver Db → List (List Field) × Driver Db
  unfolding query_text
  query fuel indeterminate t members args d =
      query_text fuel indeterminate members (generate_query_sql mysql t args) [] d
