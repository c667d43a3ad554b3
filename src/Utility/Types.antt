-- ===== src/Utility/Types.antt =====
-- ormpp/type_mapping.hpp and `get_type_names` of ormpp/utility.hpp: the column type of a member.
pub mod Range
use ormpp.Base.{ℕ, List, [], ◌∷◌, ◌++◌, Bytes, codes, to_string, map}
use ormpp.Utility.Keys.{DbType, mysql, sqlite, postgresql, unknown}

-- The types that `type_to_name` is defined for; `short` is `int16_t` and `int` is `int32_t`.
pub data Scalar : Type 0 where
  bool_type : Scalar
  char_type : Scalar
  short_type : Scalar
  int_type : Scalar
  float_type : Scalar
  double_type : Scalar
  int8_type : Scalar
  int64_type : Scalar
  uint8_type : Scalar
  uint16_type : Scalar
  uint32_type : Scalar
  uint64_type : Scalar
  blob_type : Scalar
  string_type : Scalar
  string_view_type : Scalar
  array_type : ℕ → Scalar

-- The type of a member: an enumeration, an optional of a type, or the type
pub data MemberType : Type 0 where
  enumeration : MemberType
  optional_of : Scalar → MemberType
  plain : Scalar → MemberType

abbrev pub varchar : ℕ → Bytes
varchar size = codes "varchar(" ++ (to_string size ++ b')' ∷ [])

-- `ormpp_mysql::type_to_name`, `ormpp_sqlite::type_to_name` and `ormpp_postgresql::type_to_name`
unfoldable pub mysql_type_to_name : Scalar → Bytes
mysql_type_to_name bool_type = codes "BOOLEAN"
mysql_type_to_name char_type = codes "TINYINT"
mysql_type_to_name short_type = codes "SMALLINT"
mysql_type_to_name int_type = codes "INTEGER"
mysql_type_to_name float_type = codes "FLOAT"
mysql_type_to_name double_type = codes "DOUBLE"
mysql_type_to_name int8_type = codes "TINYINT"
mysql_type_to_name int64_type = codes "BIGINT"
mysql_type_to_name uint8_type = codes "SMALLINT"
mysql_type_to_name uint16_type = codes "INTEGER"
mysql_type_to_name uint32_type = codes "BIGINT"
mysql_type_to_name uint64_type = codes "BIGINT UNSIGNED"
mysql_type_to_name blob_type = codes "BLOB"
mysql_type_to_name string_type = codes "TEXT"
mysql_type_to_name string_view_type = codes "TEXT"
mysql_type_to_name (array_type size) = varchar size

unfoldable pub sqlite_type_to_name : Scalar → Bytes
sqlite_type_to_name bool_type = codes "INTEGER"
sqlite_type_to_name char_type = codes "INTEGER"
sqlite_type_to_name short_type = codes "INTEGER"
sqlite_type_to_name int_type = codes "INTEGER"
sqlite_type_to_name float_type = codes "FLOAT"
sqlite_type_to_name double_type = codes "DOUBLE"
sqlite_type_to_name int8_type = codes "INTEGER"
sqlite_type_to_name int64_type = codes "INTEGER"
sqlite_type_to_name uint8_type = codes "INTEGER"
sqlite_type_to_name uint16_type = codes "INTEGER"
sqlite_type_to_name uint32_type = codes "INTEGER"
sqlite_type_to_name uint64_type = codes "INTEGER"
sqlite_type_to_name blob_type = codes "BLOB"
sqlite_type_to_name string_type = codes "TEXT"
sqlite_type_to_name string_view_type = codes "TEXT"
sqlite_type_to_name (array_type size) = varchar size

unfoldable pub postgresql_type_to_name : Scalar → Bytes
postgresql_type_to_name bool_type = codes "integer"
postgresql_type_to_name char_type = codes "char"
postgresql_type_to_name short_type = codes "smallint"
postgresql_type_to_name int_type = codes "integer"
postgresql_type_to_name float_type = codes "real"
postgresql_type_to_name double_type = codes "double precision"
postgresql_type_to_name int8_type = codes "char"
postgresql_type_to_name int64_type = codes "bigint"
postgresql_type_to_name uint8_type = codes "smallint"
postgresql_type_to_name uint16_type = codes "integer"
postgresql_type_to_name uint32_type = codes "bigint"
postgresql_type_to_name uint64_type = codes "bigint"
postgresql_type_to_name blob_type = codes "bytea"
postgresql_type_to_name string_type = codes "text"
postgresql_type_to_name string_view_type = codes "text"
postgresql_type_to_name (array_type size) = varchar size

-- `type_to_name` of the database
unfoldable pub type_to_name : DbType → Scalar → Bytes
unfolding mysql_type_to_name sqlite_type_to_name postgresql_type_to_name
type_to_name mysql t = mysql_type_to_name t
type_to_name sqlite t = sqlite_type_to_name t
type_to_name postgresql t = postgresql_type_to_name t
type_to_name unknown t = []

-- The body of the loop of `get_type_names`
unfoldable pub type_name : DbType → MemberType → Bytes
unfolding type_to_name
type_name unknown member = []
type_name db (optional_of t) = type_to_name db t
type_name db (plain t) = type_to_name db t
type_name postgresql enumeration = codes "integer"
type_name mysql enumeration = codes "INTEGER"
type_name sqlite enumeration = codes "INTEGER"

unfoldable pub get_type_names : DbType → List MemberType → List Bytes
unfolding type_name
get_type_names db members = map (type_name db) members
