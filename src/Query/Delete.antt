-- ===== src/Query/Delete.antt =====
-- ormpp/query.hpp, `update_context` and `delete_context` with what their builders set. The database
-- is a parameter: what its `execute` and `get_last_affect_rows` do.
pub mod Execute
use ormpp.Base.{
  ℕ, Bool, true, false, not, ◌&&◌, List, [], ◌∷◌, ◌++◌, Option, none, some, if◌then◌else◌, Bytes,
  codes, is_empty,
}
use ormpp.Utility.Keys.{Entity, DbType, mysql, sqlite, postgresql, unknown, get_short_struct_name}
use ormpp.Query.Where.{WhereCondition, to_sql}
use ormpp.Query.Partition.{
  RangePartitionDesc, is_valid_sql_identifier, is_valid_partition, partition_child_table_name,
  partition_range_predicate,
}

pub record Database (D : Type 0) : Type 0 where
  pub execute : Bytes → D → D × Bool
  pub get_last_affect_rows : D → ℕ

pub record DeleteContext : Type 0 where
  pub where_clause : Bytes
  pub partition_field : Bytes
  pub partition : Option RangePartitionDesc

-- `where`, `partition`, `partition(…).where` and `execute_all` of the builder
pub data DeleteRequest : Type 0 where
  all_rows : DeleteRequest
  matching : WhereCondition → DeleteRequest
  in_partition : Bytes → RangePartitionDesc → DeleteRequest
  matching_in_partition : Bytes → RangePartitionDesc → WhereCondition → DeleteRequest

unfoldable pub delete_context : DeleteRequest → DeleteContext
delete_context all_rows = record { where_clause = []; partition_field = []; partition = none }
delete_context (matching w) = record {
  where_clause = to_sql w;
  partition_field = [];
  partition = none;
}
delete_context (in_partition field p) = record {
  where_clause = [];
  partition_field = field;
  partition = some p;
}
delete_context (matching_in_partition field p w) = record {
  where_clause = to_sql w;
  partition_field = field;
  partition = some p;
}

-- The table, as the statement names it.
unfoldable pub delete_target : DbType → Bytes → Option RangePartitionDesc → Bytes
delete_target db table_name none = codes "DELETE FROM " ++ table_name
delete_target mysql table_name (some p) =
    codes "DELETE FROM " ++ (table_name ++ (codes " PARTITION (" ++ (p.name ++ codes ")")))
delete_target postgresql table_name (some p) =
    codes "DELETE FROM " ++ partition_child_table_name table_name p.name
delete_target _ table_name (some p) = codes "DELETE FROM " ++ table_name

-- The local `where` of `build_sql`
unfoldable pub delete_where : DbType → DeleteContext → Option RangePartitionDesc → Bytes
delete_where sqlite c (some p) =
    let partition_where = partition_range_predicate c.partition_field p in
    if is_empty c.where_clause
    then partition_where
    else codes "(" ++ (partition_where ++ (codes ") AND " ++ c.where_clause))
delete_where _ c _ = c.where_clause

unfoldable pub build_sql : DbType → Entity → DeleteContext → Bytes
unfolding delete_target delete_where
build_sql db t c =
    let target = delete_target db (get_short_struct_name t) c.partition in
    let condition = delete_where db c c.partition in
    if is_empty condition then target else target ++ (codes " WHERE " ++ condition)

unfoldable pub validate_partition_config : DeleteContext → Bool
validate_partition_config c = elim c.partition [
  | none ↦ true
  | some p ↦ is_valid_sql_identifier c.partition_field && is_valid_partition p
]

-- `none` is -1.
unfoldable pub run_statement : {D : Type 0} → Database D → Bytes → D → D × Option ℕ
run_statement db sql d =
    let (after, done) = db.execute sql d in
    (after, if done then some (db.get_last_affect_rows after) else none)

unfoldable pub execute_impl :
    {D : Type 0} → Database D → DbType → Entity → DeleteContext → D → D × Option ℕ
unfolding run_statement
execute_impl db kind t c d =
    if not (validate_partition_config c) then (d, none) else run_statement db (build_sql kind t c) d

-- `update_context::build_sql` and its `execute_impl`
pub record UpdateContext : Type 0 where
  pub set_clause : Bytes
  pub where_clause : Bytes

unfoldable pub build_update_sql : Entity → UpdateContext → Bytes
build_update_sql t c =
    let sql = codes "UPDATE " ++ (get_short_struct_name t ++ (codes " SET " ++ c.set_clause)) in
    if is_empty c.where_clause then sql else sql ++ (codes " WHERE " ++ c.where_clause)

unfoldable pub execute_update :
    {D : Type 0} → Database D → Entity → UpdateContext → D → D × Option ℕ
unfolding run_statement
execute_update db t c d = run_statement db (build_update_sql t c) d
