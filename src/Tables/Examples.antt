-- ===== src/Tables/Examples.antt =====
-- The statements of a struct, with an automatic key and without.
use ormpp.Base.{List, [], ◌∷◌, Bytes, codes, equal, ◌≡◌, refl}
use ormpp.Utility.Keys.{
  Entity, Registry, get_conflict_keys, get_short_struct_name, split, get_auto_key,
}
use ormpp.Query.Create.{contains}
use ormpp.Tables.{Constraint, not_null_of, unique_of, mysql_createtb_sql, columns_loop}

abbrev person : Entity
person = record { struct_name = codes "person"; member_names = codes "id" ∷ codes "name" ∷ [] }

abbrev columns : List (Bytes × Bytes)
columns = (codes "id", codes "INTEGER") ∷ (codes "name", codes "TEXT") ∷ []

abbrev automatic : Registry
automatic = record { auto_key_map = (codes "person", codes "id") ∷ []; conflict_map = [] }

abbrev composite : Registry
composite = record {
  auto_key_map = (codes "person", codes "id") ∷ [];
  conflict_map = (codes "person", codes "name,id") ∷ [];
}

abbrev args : List Constraint
args = not_null_of (codes "name" ∷ []) ∷ unique_of (codes "name" ∷ []) ∷ []

table_text :
    mysql_createtb_sql automatic person columns args
    ≡ codes
        "CREATE TABLE IF NOT EXISTS person(id INTEGER AUTO_INCREMENT ,name TEXT NOT NULL,PRIMARY KEY (id),UNIQUE (name))"
unfolding mysql_createtb_sql equal get_short_struct_name contains get_auto_key columns_loop
table_text = refl

-- The conflict keys are a primary key only where no automatic key is registered.
composite_lost :
    mysql_createtb_sql composite person columns args
    ≡ mysql_createtb_sql automatic person columns args
unfolding mysql_createtb_sql equal get_short_struct_name contains get_auto_key columns_loop
    get_conflict_keys split
composite_lost = refl
