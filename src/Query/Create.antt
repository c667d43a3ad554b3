-- ===== src/Query/Create.antt =====
-- ormpp/query.hpp, `create_table_builder`. The names that `get_type_names` gives for the members are
-- an argument, one for each member.
pub mod Items
pub mod Keys
mod Examples
use ormpp.Base.{
  ℕ, Bool, true, false, not, ◌&&◌, ◌||◌, List, [], ◌∷◌, ◌++◌, Option, none, some, ◌==◌, ltb,
  if◌then◌else◌, Bytes, codes, is_empty, equal, back_or, pop_back, map,
}
use ormpp.Utility.Escape.{Value, to_str}
use ormpp.Utility.Keys.{
  Entity, Registry, find, add_auto_key_field, get_short_struct_name, DbType, mysql, sqlite,
  postgresql, unknown, is_mysql, is_postgresql,
}
use ormpp.Query.Where.{WhereCondition, to_sql, ColInfo}
use ormpp.Query.Partition.{
  RangePartitionDesc, is_valid_sql_identifier, is_valid_partition, mysql_partition_definition,
  postgresql_partition_definition_sql, sqlite_partition_index_sql,
}
use ormpp.Query.Delete.{Database}
use ormpp.Query.Alter.{columns_text}

pub record TableBuilder : Type 0 where
  pub auto_increment_field : Bytes
  pub primary_keys : List Bytes
  pub not_null_fields : List Bytes
  pub unique_constraints : List Bytes
  pub default_values : List (Bytes × Bytes)
  pub check_constraints : List Bytes
  pub foreign_keys : List (Bytes × Bytes)
  pub charset : Bytes
  pub engine : Bytes
  pub range_partition_field : Bytes
  pub range_partitions : List RangePartitionDesc

-- `operator<` of strings
unfoldable pub less : Bytes → Bytes → Bool
less s [] = false
less [] (d ∷ t) = true
less (c ∷ s) (d ∷ t) = ltb c d || (c == d && less s t)

-- `insert` of a `std::set`, in its order
unfoldable pub insert : Bytes → List Bytes → List Bytes
unfolding less
insert k [] = k ∷ []
insert k (j ∷ l) =
    let rest = insert k l in if equal k j then j ∷ l else if less k j then k ∷ j ∷ l else j ∷ rest

-- `count` of a `std::set`
unfoldable pub contains : Bytes → List Bytes → Bool
contains k [] = false
contains k (j ∷ l) = equal j k || contains k l

-- Texts with commas between them
unfoldable pub listed : List Bytes → Bytes
listed [] = []
listed (k ∷ []) = k
listed (k ∷ j ∷ ks) = k ++ b',' ∷ listed (j ∷ ks)

unfoldable pub auto_increment : ColInfo → TableBuilder → TableBuilder
auto_increment c b = record b {
  auto_increment_field = c.name;
  primary_keys = insert c.name b.primary_keys;
}

-- One field of `primary_key(fields...)`
unfoldable pub primary_key : ColInfo → TableBuilder → TableBuilder
primary_key c b = record b { primary_keys = insert c.name b.primary_keys }

-- One field of `not_null(fields...)`
unfoldable pub not_null : ColInfo → TableBuilder → TableBuilder
not_null c b = record b { not_null_fields = insert c.name b.not_null_fields }

unfoldable pub unique : List ColInfo → TableBuilder → TableBuilder
unique fields b = record b {
  unique_constraints = b.unique_constraints ++ columns_text fields [] ∷ [];
}

-- `default_values_[field.name] = …`: the entry in front is the one that counts.
unfoldable pub default_value : ColInfo → Value → TableBuilder → TableBuilder
default_value c v b = record b { default_values = (c.name, to_str v) ∷ b.default_values }

unfoldable pub foreign_key : ColInfo → ColInfo → TableBuilder → TableBuilder
foreign_key local ref b = record b {
  foreign_keys =
      b.foreign_keys ++ (local.name, ref.class_name ++ (codes "(" ++ (ref.name ++ codes ")"))) ∷ [];
}

unfoldable pub check : WhereCondition → TableBuilder → TableBuilder
check cond b = record b { check_constraints = b.check_constraints ++ to_sql cond ∷ [] }

unfoldable pub set_charset : Bytes → TableBuilder → TableBuilder
set_charset cs b = record b { charset = cs }

unfoldable pub set_engine : Bytes → TableBuilder → TableBuilder
set_engine eng b = record b { engine = eng }

unfoldable pub partition_by_range : ColInfo → TableBuilder → TableBuilder
partition_by_range c b = record b { range_partition_field = c.name }

unfoldable pub partition : RangePartitionDesc → TableBuilder → TableBuilder
partition p b = record b { range_partitions = b.range_partitions ++ p ∷ [] }

abbrev pub new_builder : TableBuilder
new_builder = record {
  auto_increment_field = [];
  primary_keys = [];
  not_null_fields = [];
  unique_constraints = [];
  default_values = [];
  check_constraints = [];
  foreign_keys = [];
  charset = [];
  engine = [];
  range_partition_field = [];
  range_partitions = [];
}

-- `is_auto` of `generate_sql`
unfoldable pub is_auto : TableBuilder → Bytes → Bool
is_auto b name = not (is_empty b.auto_increment_field) && equal name b.auto_increment_field

-- `type_str`, as PostgreSQL changes it for the auto key
unfoldable pub type_text : DbType → Bool → Bytes → Bytes
type_text postgresql true type_str =
    if equal type_str (codes "bigint") then codes "bigserial" else codes "serial"
type_text _ _ type_str = type_str

unfoldable pub auto_text : DbType → Bool → Bytes
auto_text sqlite true = codes " PRIMARY KEY AUTOINCREMENT"
auto_text mysql true = codes " AUTO_INCREMENT"
auto_text _ _ = []

unfoldable pub default_text : Option Bytes → Bytes
default_text none = []
default_text (some val) = codes " DEFAULT " ++ val

-- A column as the loop over the members appends it, without its comma
unfoldable pub column_text : DbType → TableBuilder → Bytes × Bytes → Bytes
unfolding type_text auto_text default_text contains is_auto
column_text kind b (name, type_str) =
    name
    ++ (codes " "
        ++ (type_text kind (is_auto b name) type_str
            ++ (auto_text kind (is_auto b name)
                ++ ((if contains name b.not_null_fields then codes " NOT NULL" else [])
                    ++ default_text (find name b.default_values)))))

-- A loop that appends each of some texts with a comma
unfoldable pub commas : List Bytes → Bytes
commas [] = []
commas (item ∷ items) = item ++ b',' ∷ commas items

-- `auto_inline_pk` behind the loop
unfoldable pub auto_inline_pk : DbType → TableBuilder → List (Bytes × Bytes) → Bool
unfolding is_auto
auto_inline_pk sqlite b [] = false
auto_inline_pk sqlite b ((name, type_str) ∷ columns) =
    is_auto b name || auto_inline_pk sqlite b columns
auto_inline_pk _ b columns = false

unfoldable pub primary_key_text : Bool → List Bytes → Bytes
unfolding listed
primary_key_text true ks = []
primary_key_text false [] = []
primary_key_text false (k ∷ ks) = codes "PRIMARY KEY (" ++ (listed (k ∷ ks) ++ codes "),")

abbrev pub unique_text : Bytes → Bytes
unique_text u = codes "UNIQUE (" ++ (u ++ codes ")")

abbrev pub foreign_key_text : Bytes × Bytes → Bytes
foreign_key_text (local, ref) = codes "FOREIGN KEY (" ++ (local ++ (codes ") REFERENCES " ++ ref))

abbrev pub check_text : Bytes → Bytes
check_text chk = codes "CHECK (" ++ (chk ++ codes ")")

unfoldable pub body : DbType → TableBuilder → List (Bytes × Bytes) → Bytes
body kind b columns =
    commas (map (column_text kind b) columns)
    ++ (primary_key_text (auto_inline_pk kind b columns) b.primary_keys
        ++ (commas (map unique_text b.unique_constraints)
            ++ (commas (map foreign_key_text b.foreign_keys)
                ++ commas (map check_text b.check_constraints))))

-- What stands behind the closing bracket
unfoldable pub table_options : DbType → TableBuilder → Bytes
unfolding listed
table_options mysql b =
    (if is_empty b.engine then [] else codes " ENGINE=" ++ b.engine)
    ++ ((if is_empty b.charset
          then codes " DEFAULT CHARSET=utf8mb4"
          else codes " DEFAULT CHARSET=" ++ b.charset)
        ++ (if is_empty b.range_partition_field
            then []
            else codes " PARTITION BY RANGE COLUMNS("
              ++ (b.range_partition_field
                  ++ (codes ") ("
                      ++ (listed (map mysql_partition_definition b.range_partitions)
                          ++ codes ")")))))
table_options postgresql b =
    if is_empty b.range_partition_field
    then []
    else codes " PARTITION BY RANGE (" ++ (b.range_partition_field ++ codes ")")
table_options _ b = []

-- `if (sql.back() == ',') sql.pop_back()`
abbrev pub drop_comma : Bytes → Bytes
drop_comma sql = if back_or 0 sql == b',' then pop_back sql else sql

abbrev pub create_head : Entity → Bytes
create_head t = codes "CREATE TABLE IF NOT EXISTS " ++ (get_short_struct_name t ++ codes "(")

unfoldable pub generate_sql : DbType → TableBuilder → Entity → List (Bytes × Bytes) → Bytes
unfolding body table_options
generate_sql kind b t columns =
    drop_comma (create_head t ++ body kind b columns) ++ (codes ")" ++ table_options kind b)

unfoldable pub generate_sqls : DbType → TableBuilder → Entity → List (Bytes × Bytes) → List Bytes
unfolding generate_sql
generate_sqls kind b t columns =
    generate_sql kind b t columns
    ∷ (if is_empty b.range_partition_field then [] else partition_sqls kind)
  where
    partition_sqls : DbType → List Bytes
    partition_sqls postgresql =
        map (postgresql_partition_definition_sql (get_short_struct_name t)) b.range_partitions
    partition_sqls sqlite =
        sqlite_partition_index_sql (get_short_struct_name t) b.range_partition_field ∷ []
    partition_sqls _ = []

unfoldable pub all_valid : List RangePartitionDesc → Bool
all_valid [] = true
all_valid (p ∷ ps) = is_valid_partition p && all_valid ps

unfoldable pub validate_partition_config : DbType → TableBuilder → Bool
unfolding all_valid
validate_partition_config kind b =
    if is_empty b.range_partition_field
    then none_left b.range_partitions
    else is_valid_sql_identifier b.range_partition_field
      && not (is_mysql kind && none_left b.range_partitions)
      && all_valid b.range_partitions
  where
    none_left : List RangePartitionDesc → Bool
    none_left [] = true
    none_left (p ∷ ps) = false

-- The loop over the members of `register_auto_increment_field`
unfoldable pub register_loop : Bytes → Bytes → List Bytes → Registry → Registry
register_loop table_name field [] r = r
register_loop table_name field (name ∷ names) r =
    register_loop table_name field names
      (if equal name field then add_auto_key_field table_name name r else r)

unfoldable pub register_auto_increment_field : TableBuilder → Entity → Registry → Registry
unfolding register_loop
register_auto_increment_field b t r =
    if is_empty b.auto_increment_field
    then r
    else register_loop (get_short_struct_name t) b.auto_increment_field t.member_names r

-- The loop of `execute`
unfoldable pub send : {D : Type 0} → Database D → List Bytes → D → D × Bool
send db [] d = (d, true)
send db (sql ∷ sqls) d =
    let (after, done) = db.execute sql d in
    let later = send db sqls after in if done then later else (after, false)

unfoldable pub execute :
    {D : Type 0}
    → Database D
    → DbType
    → TableBuilder
    → Entity
    → List (Bytes × Bytes)
    → Registry
    → D
    → (Registry × D) × Bool
unfolding send
execute db kind b t columns r d =
    if not (validate_partition_config kind b)
    then ((r, d), false)
    else (let (after, done) = send db (generate_sqls kind b t columns) d in
        ((register_auto_increment_field b t r, after), done))
