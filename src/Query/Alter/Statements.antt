-- ===== src/Query/Alter/Statements.antt =====
-- What an alteration sends to the database, and in which order.
use ormpp.Base.{
  ℕ, Bool, true, false, ◌&&◌, List, [], ◌∷◌, ◌++◌, none, some, if◌then◌else◌, Bytes, codes, All,
  Option-cases, Bool-cases, inl, inr, ◌≡◌, ◌≢◌, refl, ap, arith,
}
use ormpp.Utility.Keys.{DbType, mysql, is_postgresql}
use ormpp.Query.Where.{ColInfo}
use ormpp.Query.Delete.{Database}
use ormpp.Query.Alter.{
  AlterOp, columns_text, add_index, has_prefix, at_space, index_parts, clause_sql,
  build_operation_sql, execute,
}

abbrev pub IsNoSpace : ℕ → Type 0
IsNoSpace c = c ≢ b' '

at_space_first : (a b : Bytes) → All IsNoSpace a → at_space (a ++ b' ' ∷ b) ≡ some (a, b)
unfolding at_space
at_space_first [] b h = refl
at_space_first (c ∷ a) b h = ground (arith, at_space_first a b h.1)

index_parts_lem : (a b : Bytes) → All IsNoSpace a → index_parts (a ++ b' ' ∷ b) ≡ (a, b)
unfolding index_parts
index_parts_lem a b h = rw (at_space_first a b h, index_parts)

-- The statement that creates the index, on the databases other than MySQL.
abbrev pub create_index : DbType → Bytes → Bytes → Bytes → Bytes
create_index db table_name index_name cols =
    (if is_postgresql db then codes "CREATE INDEX IF NOT EXISTS " else codes "CREATE INDEX ")
    ++ (index_name ++ (codes " ON " ++ (table_name ++ (codes "(" ++ (cols ++ codes ")")))))

clause_sql-index :
    (db : DbType) (table_name index_name cols : Bytes)
    → All IsNoSpace index_name
    → clause_sql db table_name (codes "_CREATE__INDEX__ " ++ (index_name ++ (codes " " ++ cols)))
      ≡ create_index db table_name index_name cols
unfolding clause_sql has_prefix
clause_sql-index db table_name index_name cols h = rw (index_parts_lem index_name cols h)

-- An index whose name has no space survives its way through the marked text in which the builder
-- keeps it: the statement creates the index of that name on the columns that were given.
build_operation_sql-add_index :
    (db : DbType) (table_name index_name : Bytes) (fields : List ColInfo)
    → db ≢ mysql
    → All IsNoSpace index_name
    → build_operation_sql db table_name (add_index db index_name fields)
      ≡ some (create_index db table_name index_name (columns_text fields []))
unfolding build_operation_sql add_index
build_operation_sql-add_index mysql table_name index_name fields n h = absurd (n refl)
build_operation_sql-add_index db table_name index_name fields n h =
    ap some (clause_sql-index db table_name index_name (columns_text fields []) h)

-- The statements of the operations in front of the first one that has none, and whether there is
-- none such.
unfoldable pub planned : DbType → Bytes → List AlterOp → List Bytes × Bool
planned kind table_name [] = ([], true)
planned kind table_name (op ∷ ops) = elim (build_operation_sql kind table_name op) [
  | none ↦ ([], false)
  | some sql ↦ let (sqls, whole) = planned kind table_name ops in (sql ∷ sqls, whole)
]

module _ {D : Type 0} (db : Database D) where
  -- Statements in order, up to the first that fails.
  pub run_all : List Bytes → D → D × Bool
  run_all [] d = (d, true)
  run_all (sql ∷ sqls) d =
      let (after, done) = db.execute sql d in
      let later = run_all sqls after in if done then later else (after, false)

  -- An alteration runs the statements of its operations in order up to the first that fails or the
  -- first operation that has no statement, none behind it, and reports success exactly if neither
  -- comes up.
  pub execute-planned :
      (kind : DbType) (table_name : Bytes) (ops : List AlterOp) (d : D)
      → let (sqls, whole) = planned kind table_name ops in
        execute db kind table_name ops d ≡ ((run_all sqls d).0, (run_all sqls d).1 && whole)
  unfolding execute planned run_all
  execute-planned kind table_name [] d = refl
  execute-planned kind table_name (op ∷ ops) d =
      elim (Option-cases (build_operation_sql kind table_name op)) [
        | inl e ↦ rw (e, planned, execute) refl
        | inr (sql, e) ↦
            let ih = execute-planned kind table_name ops (db.execute sql d).0 in
            rw (e, planned, execute)
              (elim (Bool-cases (db.execute sql d).1) [ inl t ↦ rw t ih | inr t ↦ rw t ])
      ]
