-- ===== src/Mysql/Query/Answer.antt =====
-- What a query returns, and the statements that it leaves open.
use ormpp.Base.{ℕ, ◌+◌, Bool, true, List, [], ◌∷◌, map, if◌then◌else◌, Bytes}
use ormpp.Utility.Keys.{Entity, mysql}
use ormpp.Utility.Select.{contains_select, generate_query_sql}
use ormpp.Mysql.{Column, Library}
use ormpp.Mysql.Parameters.{Field, set_param_bind}
use ormpp.Mysql.Rows.{Member, result_column}

-- The members with their columns, from column `i` on
abbrev pub shapes_of : {Db : Type 0} → Library Db → List Member → ℕ → Db → List (Member × Column)
shapes_of lib [] i con = []
shapes_of lib (m ∷ members) i con =
    (m, result_column m.kind (lib.fetch_field_direct i con)) ∷ shapes_of lib members (i + 1) con

module _ {Db : Type 0} (lib : Library Db) where
  -- The parameters of the statement; without arguments none are bound.
  abbrev pub bound : List Field → Db → Bool × Db
  bound [] con = (true, con)
  bound (arg ∷ args) con = lib.stmt_bind_param (map set_param_bind (arg ∷ args)) con

  abbrev text_of : Entity → Bytes → Bytes
  text_of t str = if contains_select str then str else generate_query_sql mysql t (str ∷ [])
