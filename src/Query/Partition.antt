-- ===== src/Query/Partition.antt =====
-- ormpp/query.hpp: range partitions and the identifiers that go into statements as they are.
use ormpp.Base.{
  Bool, true, false, not, ◌&&◌, ◌||◌, [], ◌∷◌, ◌++◌, ◌==◌, leb, if◌then◌else◌, ℕ, Bytes, codes,
  is_empty,
}
use ormpp.Utility.Escape.{Value, to_str}

pub record RangePartitionDesc : Type 0 where
  pub name : Bytes
  pub from : Bytes
  pub to : Bytes
  pub maxvalue : Bool

-- An argument of `partition_sql_literal`: `raw_sql(…)`, or a value.
pub data Bound : Type 0 where
  raw_sql : Bytes → Bound
  value : Value → Bound

unfoldable pub partition_sql_literal : Bound → Bytes
partition_sql_literal (raw_sql sql) = sql
partition_sql_literal (value v) = to_str v

unfoldable pub range_partition : Bytes → Bound → Bound → RangePartitionDesc
range_partition name from to = record {
  name = name;
  from = partition_sql_literal from;
  to = partition_sql_literal to;
  maxvalue = false;
}

unfoldable pub maxvalue_partition : Bytes → Bound → RangePartitionDesc
maxvalue_partition name from = record {
  name = name;
  from = partition_sql_literal from;
  to = codes "MAXVALUE";
  maxvalue = true;
}

abbrev is_letter : ℕ → Bool
is_letter c = (leb b'a' c && leb c b'z') || (leb b'A' c && leb c b'Z')

unfoldable pub is_sql_identifier_char : ℕ → Bool
is_sql_identifier_char c = is_letter c || (leb b'0' c && leb c b'9') || c == b'_'

unfoldable pub all_identifier_chars : Bytes → Bool
all_identifier_chars [] = true
all_identifier_chars (c ∷ cs) =
    if not (is_sql_identifier_char c) then false else all_identifier_chars cs

unfoldable pub is_valid_sql_identifier : Bytes → Bool
unfolding all_identifier_chars is_sql_identifier_char
is_valid_sql_identifier [] = false
is_valid_sql_identifier (c ∷ cs) =
    if not (is_letter c || c == b'_') then false else all_identifier_chars (c ∷ cs)

unfoldable pub is_valid_partition : RangePartitionDesc → Bool
is_valid_partition p =
    is_valid_sql_identifier p.name && not (is_empty p.from) && (not (is_empty p.to) || p.maxvalue)

unfoldable pub partition_child_table_name : Bytes → Bytes → Bytes
partition_child_table_name table_name partition_name = table_name ++ (codes "_" ++ partition_name)

unfoldable pub partition_range_predicate : Bytes → RangePartitionDesc → Bytes
partition_range_predicate field_name p =
    field_name
    ++ (codes ">="
        ++ (p.from
            ++ (if not p.maxvalue
                then codes " AND " ++ (field_name ++ (codes "<" ++ p.to))
                else [])))

abbrev upper_bound : RangePartitionDesc → Bytes
upper_bound p = if p.maxvalue then codes "MAXVALUE" else p.to

unfoldable pub mysql_partition_definition : RangePartitionDesc → Bytes
mysql_partition_definition p =
    codes "PARTITION " ++ (p.name ++ (codes " VALUES LESS THAN (" ++ (upper_bound p ++ codes ")")))

unfoldable pub postgresql_partition_definition_sql : Bytes → RangePartitionDesc → Bytes
postgresql_partition_definition_sql table_name p =
    codes "CREATE TABLE IF NOT EXISTS "
    ++ (partition_child_table_name table_name p.name
        ++ (codes " PARTITION OF "
            ++ (table_name
                ++ (codes " FOR VALUES FROM ("
                    ++ (p.from ++ (codes ") TO (" ++ (upper_bound p ++ codes ")")))))))

unfoldable pub sqlite_partition_index_sql : Bytes → Bytes → Bytes
sqlite_partition_index_sql table_name field_name =
    codes "CREATE INDEX IF NOT EXISTS idx_"
    ++ (table_name
        ++ (codes "_"
            ++ (field_name
                ++ (codes "_partition ON "
                    ++ (table_name ++ (codes "(" ++ (field_name ++ codes ")")))))))
