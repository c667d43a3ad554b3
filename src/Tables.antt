-- ===== src/Tables.antt =====
-- `generate_createtb_sql` of ormpp/mysql.hpp, ormpp/sqlite.hpp and ormpp/postgresql.hpp, and
-- `generate_create_table_sql` of ormpp/mysql_async.hpp: the table of a struct with its constraints.
pub mod Listed
pub mod Drivers
mod Examples
use ormpp.Base.{
  ℕ, Bool, true, false, not, ◌&&◌, List, [], ◌∷◌, ◌++◌, map, if◌then◌else◌, Bytes, codes, is_empty,
  equal, pop_back,
}
use ormpp.Utility.Keys.{
  Entity, Registry, mysql, sqlite, postgresql, get_auto_key, get_conflict_keys,
  get_short_struct_name, add_auto_key_field,
}
use ormpp.Query.Create.{insert, contains, commas, unique_text, create_head}

-- `ormpp_auto_key`, `ormpp_key`, `ormpp_not_null` and `ormpp_unique`, the last two with their sets of names
pub data Constraint : Type 0 where
  auto_key_of : Bytes → Constraint
  key_of : Bytes → Constraint
  not_null_of : List Bytes → Constraint
  unique_of : List Bytes → Constraint

-- The four sets that a function fills, each in its order
pub record Sets : Type 0 where
  pub not_null : List Bytes
  pub unique : List Bytes
  pub auto_primary_key : List Bytes
  pub primary_keys : List Bytes

unfoldable pub add_all : List Bytes → List Bytes → List Bytes
unfolding insert
add_all [] set = set
add_all (name ∷ names) set = add_all names (insert name set)

-- The names of a unique constraint; the synchronous drivers are not given an empty set.
abbrev pub unique_names : List Bytes → Bytes
unique_names [] = []
unique_names (name ∷ []) = name
unique_names (name ∷ next ∷ names) = pop_back (commas (name ∷ next ∷ names))

-- The automatic key and the conflict keys of the struct
unfoldable pub registered : Bytes → List Bytes → Sets
unfolding add_all
registered auto_key pks = record {
  not_null = [];
  unique = [];
  auto_primary_key = if is_empty auto_key then [] else auto_key ∷ [];
  primary_keys = add_all pks [];
}

abbrev none_registered : List Bytes → Bool
none_registered [] = true
none_registered (k ∷ ks) = false

-- The body of the loop over the arguments
unfoldable pub collect : List Bytes → Constraint → Sets → Sets
unfolding add_all insert commas
collect pks (auto_key_of field) s = record s { auto_primary_key = insert field s.auto_primary_key }
collect pks (key_of field) s =
    if none_registered pks then record s { primary_keys = insert field s.primary_keys } else s
collect pks (not_null_of names) s = record s { not_null = add_all names s.not_null }
collect pks (unique_of names) s = record s { unique = insert (unique_names names) s.unique }

unfoldable pub collect_all : List Bytes → List Constraint → Sets → Sets
unfolding collect
collect_all pks [] s = s
collect_all pks (c ∷ cs) s = collect_all pks cs (collect pks c s)

abbrev pub erase : Bytes → List Bytes → List Bytes
erase name [] = []
erase name (n ∷ names) = if equal n name then names else n ∷ erase name names

-- The locals of the loop over the members
pub record Columns : Type 0 where
  pub sql : Bytes
  pub auto_primary_key : List Bytes
  pub not_null : List Bytes
  pub auto_key : Bytes

abbrev pub plain_text : Bytes → Bytes → Bytes
plain_text name type_str = name ++ (b' ' ∷ type_str)

-- A member with its column type, by the tests for an automatic key and for NOT NULL; `auto_text` is the text of the
-- automatic key.
abbrev pub add_by : Bool → Bool → (Bytes → Bytes → Bytes) → Bytes × Bytes → Columns → Columns
add_by true is_not_null auto_text (name, type_str) c = record {
  sql = c.sql ++ (auto_text name type_str ++ codes ",");
  auto_primary_key = [];
  not_null = c.not_null;
  auto_key = name;
}
add_by false true auto_text (name, type_str) c = record c {
  sql = c.sql ++ ((plain_text name type_str ++ codes " NOT NULL") ++ codes ",");
  not_null = erase name c.not_null;
}
add_by false false auto_text (name, type_str) c = record c {
  sql = c.sql ++ (plain_text name type_str ++ codes ",");
}

unfoldable pub add_column : (Bytes → Bytes → Bytes) → Bytes × Bytes → Columns → Columns
unfolding contains
add_column auto_text (name, type_str) c =
    add_by (contains name c.auto_primary_key) (contains name c.not_null) auto_text (name, type_str)
      c

unfoldable pub columns_loop : (Bytes → Bytes → Bytes) → List (Bytes × Bytes) → Columns → Columns
unfolding add_column
columns_loop auto_text [] c = c
columns_loop auto_text (column ∷ columns) c =
    columns_loop auto_text columns (add_column auto_text column c)

abbrev pub key_text : Bytes → Bytes
key_text keys = codes "PRIMARY KEY (" ++ (keys ++ codes "),")

-- The primary key behind the columns, with an automatic key or without
unfoldable pub keys_text : List Bytes → Bytes
unfolding commas
keys_text [] = []
keys_text (k ∷ ks) = key_text (pop_back (commas (k ∷ ks)))

abbrev pub closed : Bytes → Bytes
closed sql = pop_back sql ++ codes ")"

abbrev pub mysql_auto : Bytes → Bytes → Bytes
mysql_auto name type_str = plain_text name type_str ++ codes " AUTO_INCREMENT "

abbrev pub sqlite_auto : Bytes → Bytes → Bytes
sqlite_auto name type_str = plain_text name type_str ++ codes " PRIMARY KEY AUTOINCREMENT "

-- The type is taken off again.
abbrev pub postgresql_auto : Bytes → Bytes → Bytes
postgresql_auto name type_str =
    (name ++ codes " ")
    ++ (if equal type_str (codes "bigint") then codes " bigserial " else codes " serial ")

-- What the loop makes of the columns
abbrev pub columns_of :
    (Bytes → Bytes → Bytes) → Registry → Entity → Sets → List (Bytes × Bytes) → Columns
columns_of auto_text r t s columns = columns_loop auto_text columns (record {
  sql = create_head t;
  auto_primary_key = s.auto_primary_key;
  not_null = s.not_null;
  auto_key = get_auto_key r t;
})

abbrev pub key_or_keys : Bytes → List Bytes → Bytes
key_or_keys auto_key ks = if is_empty auto_key then keys_text ks else key_text auto_key

abbrev pub sets_of : Registry → Entity → List Bytes → List Constraint → Sets
sets_of r t pks args = collect_all pks args (registered (get_auto_key r t) pks)

-- `mysql::generate_createtb_sql`; the members come with what `get_type_names` gives.
unfoldable pub mysql_createtb_sql :
    Registry → Entity → List (Bytes × Bytes) → List Constraint → Bytes
unfolding collect_all registered columns_loop keys_text commas get_conflict_keys get_auto_key
mysql_createtb_sql r t columns args =
    let s = sets_of r t (get_conflict_keys mysql [] r t) args in
    let c = columns_of mysql_auto r t s columns in
    closed (c.sql ++ (key_or_keys c.auto_key s.primary_keys ++ commas (map unique_text s.unique)))

-- `postgresql::generate_createtb_sql`
unfoldable pub postgresql_createtb_sql :
    Registry → Entity → List (Bytes × Bytes) → List Constraint → Bytes
unfolding collect_all registered columns_loop keys_text commas get_conflict_keys get_auto_key
postgresql_createtb_sql r t columns args =
    let s = sets_of r t (get_conflict_keys postgresql [] r t) args in
    let c = columns_of postgresql_auto r t s columns in
    closed (c.sql ++ (key_or_keys c.auto_key s.primary_keys ++ commas (map unique_text s.unique)))

-- `sqlite::generate_createtb_sql`: an automatic key stands with its column, and is registered where none is.
unfoldable pub sqlite_createtb_sql :
    Registry → Entity → List (Bytes × Bytes) → List Constraint → Bytes × Registry
unfolding collect_all registered columns_loop keys_text commas get_conflict_keys get_auto_key
    add_auto_key_field
sqlite_createtb_sql r t columns args =
    let s = sets_of r t (get_conflict_keys sqlite [] r t) args in
    let c = columns_of sqlite_auto r t s columns in
    (
      closed (
          c.sql
          ++ ((if is_empty c.auto_key then keys_text s.primary_keys else [])
              ++ commas (map unique_text s.unique))),
      (if is_empty (get_auto_key r t) && not (is_empty c.auto_key)
          then add_auto_key_field (get_short_struct_name t) c.auto_key r
          else r),
    )

-- `sql.back() = ')'`
abbrev pub back_closed : Bytes → Bytes
back_closed sql = pop_back sql ++ b')' ∷ []

abbrev pub async_keys_text : List Bytes → Bytes
async_keys_text [] = []
async_keys_text (k ∷ ks) = back_closed (codes "PRIMARY KEY (" ++ commas (k ∷ ks)) ++ b',' ∷ []

-- The unique constraints of the asynchronous driver: an empty set of names is passed over.
abbrev pub named : List Constraint → List Constraint
named [] = []
named (unique_of [] ∷ args) = named args
named (arg ∷ args) = arg ∷ named args

-- `generate_create_table_sql`, which is called for MySQL, with its character set
unfoldable pub async_create_table_sql :
    Registry → Entity → Bool → List (Bytes × Bytes) → List Constraint → Bytes
unfolding collect_all registered columns_loop keys_text commas get_conflict_keys get_auto_key
async_create_table_sql r t append_mysql_charset columns args =
    let s = sets_of r t (get_conflict_keys mysql [] r t) (named args) in
    let c = columns_of mysql_auto r t s columns in
    let keys =
      if is_empty c.auto_key then async_keys_text s.primary_keys else key_text c.auto_key in
    back_closed (c.sql ++ (keys ++ commas (map unique_text s.unique)))
    ++ (if append_mysql_charset then codes " DEFAULT CHARSET=utf8mb4" else [])
