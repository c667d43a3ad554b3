-- ===== src/Query/Alter.antt =====
-- ormpp/query.hpp, `alter_table_builder`.
pub mod Statements
use ormpp.Base.{
  ℕ, Bool, true, false, not, ◌&&◌, ◌||◌, List, [], ◌∷◌, ◌++◌, Option, none, some, ◌==◌,
  if◌then◌else◌, Bytes, codes, is_empty, drop, length,
}
use ormpp.Utility.Keys.{DbType, mysql, sqlite, postgresql, unknown, is_postgresql}
use ormpp.Query.Where.{ColInfo}
use ormpp.Query.Partition.{
  RangePartitionDesc, is_valid_sql_identifier, is_valid_partition, partition_child_table_name,
  partition_range_predicate, mysql_partition_definition, postgresql_partition_definition_sql,
  sqlite_partition_index_sql,
}
use ormpp.Query.Delete.{Database}

-- `alter_op`; a dropped partition has no field.
pub data AlterOp : Type 0 where
  alter_clause : (sql : Bytes) → AlterOp
  clear_partition add_partition :
      (partition_field : Bytes) (partition : RangePartitionDesc) → AlterOp
  drop_partition : (partition : RangePartitionDesc) → AlterOp

abbrev pub ci_prefix : Bytes
ci_prefix = codes "_CREATE__INDEX__ "

abbrev pub di_prefix : Bytes
di_prefix = codes "_DROP_INDEX__ "

-- The operations as the builder's methods store them.
unfoldable pub add_column : Bytes → Bytes → AlterOp
add_column col_name type_and_constraints =
    alter_clause (codes "ADD COLUMN " ++ (col_name ++ (codes " " ++ type_and_constraints)))

unfoldable pub drop_column : Bytes → AlterOp
drop_column col_name = alter_clause (codes "DROP COLUMN " ++ col_name)

unfoldable pub rename_column : Bytes → Bytes → AlterOp
rename_column name new_name =
    alter_clause (codes "RENAME COLUMN " ++ (name ++ (codes " TO " ++ new_name)))

unfoldable pub modify_column : DbType → Bytes → Bytes → AlterOp
modify_column mysql name new_type =
    alter_clause (codes "MODIFY COLUMN " ++ (name ++ (codes " " ++ new_type)))
modify_column postgresql name new_type =
    alter_clause (codes "ALTER COLUMN " ++ (name ++ (codes " TYPE " ++ new_type)))
modify_column _ name new_type = alter_clause []

-- The names of the columns with commas between them
unfoldable pub columns_text : List ColInfo → Bytes → Bytes
columns_text [] cols = cols
columns_text (c ∷ cs) cols =
    columns_text cs (if is_empty cols then cols ++ c.name else cols ++ (codes "," ++ c.name))

unfoldable pub add_index : DbType → Bytes → List ColInfo → AlterOp
unfolding columns_text
add_index mysql index_name fields =
    alter_clause
      (codes "ADD INDEX " ++ (index_name ++ (codes " (" ++ (columns_text fields [] ++ codes ")"))))
add_index _ index_name fields =
    alter_clause (ci_prefix ++ (index_name ++ (codes " " ++ columns_text fields [])))

unfoldable pub drop_index : DbType → Bytes → AlterOp
drop_index mysql index_name = alter_clause (codes "DROP INDEX " ++ index_name)
drop_index _ index_name = alter_clause (di_prefix ++ index_name)

unfoldable pub add_unique : Bytes → List ColInfo → AlterOp
unfolding columns_text
add_unique constraint_name fields = alter_clause (
    codes "ADD CONSTRAINT "
    ++ (constraint_name ++ (codes " UNIQUE (" ++ (columns_text fields [] ++ codes ")"))))

unfoldable pub drop_constraint : DbType → Bytes → AlterOp
drop_constraint mysql constraint_name = alter_clause (codes "DROP INDEX " ++ constraint_name)
drop_constraint _ constraint_name = alter_clause (codes "DROP CONSTRAINT " ++ constraint_name)

unfoldable pub add_foreign_key : Bytes → ColInfo → ColInfo → AlterOp
add_foreign_key constraint_name local ref = alter_clause (
    codes "ADD CONSTRAINT "
    ++ (constraint_name
        ++ (codes " FOREIGN KEY ("
            ++ (local.name
                ++ (codes ") REFERENCES "
                    ++ (ref.class_name ++ (codes "(" ++ (ref.name ++ codes ")"))))))))

unfoldable pub add_check : Bytes → Bytes → AlterOp
add_check constraint_name expr =
    alter_clause
      (codes "ADD CONSTRAINT " ++ (constraint_name ++ (codes " CHECK (" ++ (expr ++ codes ")"))))

-- `compare(0, p.size(), p) == 0`
unfoldable pub has_prefix : Bytes → Bytes → Bool
has_prefix [] s = true
has_prefix (p ∷ ps) [] = false
has_prefix (p ∷ ps) (c ∷ cs) = c == p && has_prefix ps cs

-- `rest.find(' ')`: the text before the first space and the text behind it.
unfoldable pub at_space : Bytes → Option (Bytes × Bytes)
at_space [] = none
at_space (c ∷ cs) =
    let later : Option (Bytes × Bytes) = elim (at_space cs) [
      | none ↦ none
      | some (a, b) ↦ some (c ∷ a, b)
    ] in
    if c == b' ' then some ([], cs) else later

-- With no space, `substr(0, npos)` and `substr(npos + 1)` are both the whole text.
unfoldable pub index_parts : Bytes → Bytes × Bytes
unfolding at_space
index_parts rest = elim (at_space rest) [ none ↦ (rest, rest) | some (a, b) ↦ (a, b) ]

unfoldable pub clear_sql : DbType → Bytes → Bytes → RangePartitionDesc → Bytes
clear_sql mysql table_name field p =
    codes "ALTER TABLE " ++ (table_name ++ (codes " TRUNCATE PARTITION " ++ p.name))
clear_sql postgresql table_name field p =
    codes "TRUNCATE TABLE " ++ partition_child_table_name table_name p.name
clear_sql _ table_name field p =
    codes "DELETE FROM " ++ (table_name ++ (codes " WHERE " ++ partition_range_predicate field p))

unfoldable pub add_sql : DbType → Bytes → Bytes → RangePartitionDesc → Bytes
add_sql mysql table_name field p =
    codes "ALTER TABLE "
    ++ (table_name ++ (codes " ADD PARTITION (" ++ (mysql_partition_definition p ++ codes ")")))
add_sql postgresql table_name field p = postgresql_partition_definition_sql table_name p
add_sql _ table_name field p = sqlite_partition_index_sql table_name field

unfoldable pub drop_sql : DbType → Bytes → RangePartitionDesc → Option Bytes
drop_sql mysql table_name p =
    some (codes "ALTER TABLE " ++ (table_name ++ (codes " DROP PARTITION " ++ p.name)))
drop_sql postgresql table_name p =
    some (codes "DROP TABLE IF EXISTS " ++ partition_child_table_name table_name p.name)
drop_sql _ table_name p = none

unfoldable pub clause_sql : DbType → Bytes → Bytes → Bytes
clause_sql db table_name sql =
    if has_prefix ci_prefix sql
    then (let (idx_name, cols) = index_parts (drop (length ci_prefix) sql) in
        (if is_postgresql db then codes "CREATE INDEX IF NOT EXISTS " else codes "CREATE INDEX ")
        ++ (idx_name ++ (codes " ON " ++ (table_name ++ (codes "(" ++ (cols ++ codes ")"))))))
    else if has_prefix di_prefix sql
    then codes "DROP INDEX " ++ drop (length di_prefix) sql
    else codes "ALTER TABLE " ++ (table_name ++ (codes " " ++ sql))

-- `none` where the function returns false.
unfoldable pub build_operation_sql : DbType → Bytes → AlterOp → Option Bytes
unfolding clear_sql add_sql drop_sql clause_sql
build_operation_sql db table_name (alter_clause sql) = some (clause_sql db table_name sql)
build_operation_sql db table_name (clear_partition field p) =
    if is_valid_partition p && is_valid_sql_identifier field
    then some (clear_sql db table_name field p)
    else none
build_operation_sql db table_name (add_partition field p) =
    if is_valid_partition p && is_valid_sql_identifier field
    then some (add_sql db table_name field p)
    else none
build_operation_sql db table_name (drop_partition p) =
    if is_valid_partition p then drop_sql db table_name p else none

-- The loop of `execute`
unfoldable pub execute : {D : Type 0} → Database D → DbType → Bytes → List AlterOp → D → D × Bool
execute db kind table_name [] d = (d, true)
execute db kind table_name (op ∷ ops) d = elim (build_operation_sql kind table_name op) [
  | none ↦ (d, false)
  | some sql ↦
      let (after, done) = db.execute sql d in
      let later = execute db kind table_name ops after in if done then later else (after, false)
]
