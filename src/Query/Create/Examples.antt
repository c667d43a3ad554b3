-- ===== src/Query/Create/Examples.antt =====
-- The theorems at a concrete table.
use ormpp.Base.{true, List, [], ◌∷◌, ◌++◌, Bytes, codes, equal, ◌≡◌, refl, to_string}
use ormpp.Utility.Escape.{plus, to_str}
use ormpp.Utility.Keys.{Entity, Registry, find, mysql, sqlite, get_short_struct_name}
use ormpp.Query.Where.{ColInfo}
use ormpp.Query.Delete.{Database}
use ormpp.Query.Alter.{columns_text}
use ormpp.Query.Create.{
  TableBuilder, commas, column_text, primary_key_text, auto_increment, not_null, default_value,
  unique, new_builder, insert, listed, auto_inline_pk, table_options, create_head, generate_sql,
}
use ormpp.Query.Create.Items.{items, generate_sql-items}

abbrev person : Entity
person = record { struct_name = codes "app::person"; member_names = codes "id" ∷ codes "age" ∷ [] }

abbrev id : ColInfo
id = record { name = codes "id"; class_name = codes "person"; sort_order = [] }

abbrev age : ColInfo
age = record { name = codes "age"; class_name = codes "person"; sort_order = [] }

abbrev columns : List (Bytes × Bytes)
columns = (codes "id", codes "integer") ∷ (codes "age", codes "integer") ∷ []

abbrev table : TableBuilder
table = default_value age (plus 7) (not_null age (auto_increment id new_builder))

created :
    generate_sql sqlite (unique (id ∷ age ∷ []) table) person columns
    ≡ codes
        "CREATE TABLE IF NOT EXISTS person(id integer PRIMARY KEY AUTOINCREMENT,age integer NOT NULL DEFAULT 7,UNIQUE (id,age))"
unfolding generate_sql default_value not_null auto_increment unique columns_text
    get_short_struct_name commas column_text equal insert find to_str to_string primary_key_text
    auto_inline_pk
created = refl

generate_sql-items_example :
    generate_sql mysql table person columns
    ≡ (create_head person ++ listed (items mysql table columns))
      ++ (codes ")" ++ table_options mysql table)
generate_sql-items_example = generate_sql-items mysql table person columns

-- A database that keeps the statements it is sent.
abbrev log : Database (List Bytes)
log = record { execute = λ sql sent. (sql ∷ sent, true); get_last_affect_rows = λ sent. 0 }

abbrev no_keys : Registry
no_keys = record { auto_key_map = []; conflict_map = [] }
