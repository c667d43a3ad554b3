-- ===== src/Utility/Examples.antt =====
-- The theorems at concrete texts and structs.
use ormpp.Base.{
  true, false, List, [], ◌∷◌, ◌++◌, some, Bytes, codes, equal, to_string, ◌≡◌, ◌≢◌, ◌⊎◌, ◌↔◌,
  if◌then◌else◌, ℕ, refl, arith,
}
use ormpp.Utility.Keys.{
  Entity, Registry, DbType, mysql, sqlite, postgresql, unknown, get_short_struct_name, is_auto_key,
  split, is_word,
}
use ormpp.Utility.Escape.{Value, plus, text, escape_sql_string}
use ormpp.Utility.Escape.Literal.{read_literal, read_literal-escape_sql_string}
use ormpp.Utility.Insert.{columns_loop, generate_insert_sql, statement}
use ormpp.Utility.Insert.Shape.{field_list, value_list, generate_insert_sql-statement}
use ormpp.Utility.Select.{
  skip_space, contains_select, get_fields, before, generate_query_sql, get_sql,
}
use ormpp.Utility.Select.Word.{first_word, ProperPrefix, contains_select-first_word}
use ormpp.Utility.Select.Ordering.{select_head, described, generate_query_sql-described}
use ormpp.Utility.Types.{plain, optional_of, type_name, uint8_type}
use ormpp.Utility.Types.Range.{InRange, Manuals, type_name-Holds}

abbrev person : Entity
person = record {
  struct_name = codes "person";
  member_names = codes "id" ∷ codes "name" ∷ codes "age" ∷ [];
}

abbrev scoped_person : Entity
scoped_person = record { struct_name = codes "app::person"; member_names = person.member_names }

abbrev counter : Entity
counter = record { struct_name = codes "counter"; member_names = codes "id" ∷ [] }

abbrev no_keys : Registry
no_keys = record { auto_key_map = []; conflict_map = [] }

abbrev keys : Registry
keys = record {
  auto_key_map = (codes "person", codes "id") ∷ (codes "counter", codes "id") ∷ [];
  conflict_map = [];
}

insert_person :
    generate_insert_sql postgresql true keys person []
    ≡ codes "insert into person (name,age) values($1,$2) "
unfolding generate_insert_sql columns_loop is_auto_key equal get_short_struct_name to_string
insert_person = refl

read_literal-escape_sql_string_example :
    read_literal (escape_sql_string (codes "o'hara") ++ b'\'' ∷ codes ", 2")
    ≡ some (codes "o'hara", codes ", 2")
read_literal-escape_sql_string_example =
    read_literal-escape_sql_string (codes "o'hara") (codes ", 2") refl

space_before_comma : split (codes "id ,name") ≡ codes "d " ∷ codes "name" ∷ []
unfolding split is_word
space_before_comma = refl

generate_insert_sql-statement_example :
    generate_insert_sql postgresql true keys person []
    ≡ statement true
        (get_short_struct_name person)
        (field_list postgresql (codes "name") (codes "age" ∷ []))
        (value_list postgresql (codes "name") (codes "age" ∷ []))
unfolding is_auto_key equal get_short_struct_name
generate_insert_sql-statement_example =
    generate_insert_sql-statement postgresql true keys person [] (codes "name") (codes "age" ∷ [])
      refl refl

brackets_lost :
    generate_insert_sql sqlite true keys counter []
    ≡ statement true (get_short_struct_name counter) (codes ")") (codes "values)")
unfolding generate_insert_sql columns_loop is_auto_key equal get_short_struct_name
brackets_lost = refl

abbrev no_args : List Bytes
no_args = []

contains_select-first_word_example : (contains_select (codes " SELECT 1") ≡ true) ↔ (
    (skip_space (codes " SELECT 1") ≢ [])
    × ((first_word (skip_space (codes " SELECT 1")) ≡ codes "select")
        ⊎ ProperPrefix (skip_space (codes " SELECT 1")) (codes "select")))
contains_select-first_word_example = contains_select-first_word (codes " SELECT 1")

-- Words and beginnings of the keyword
select_or_not :
    (contains_select (codes " SELECT 1") ≡ true)
    × (contains_select (codes "sel") ≡ true)
    × (contains_select (codes "selection=1") ≡ false)
unfolding contains_select
select_or_not = (refl, refl, refl)

no_where : before (codes "where") (select_head mysql person) ≡ select_head mysql person
unfolding before select_head get_fields get_short_struct_name
no_where = refl

generate_query_sql-described_example :
    generate_query_sql mysql person (codes "ORDER BY id" ∷ [])
    ≡ described (select_head mysql person) (codes "ORDER BY id")
generate_query_sql-described_example =
    generate_query_sql-described mysql person b'O' (codes "RDER BY id") no_where

ordered_query :
    generate_query_sql sqlite person (codes "ORDER BY id" ∷ [])
    ≡ codes "select id,name,age  from person ORDER BY id "
unfolding generate_query_sql get_fields get_short_struct_name before contains_select
ordered_query = refl

abbrev posted : Entity
posted = record {
  struct_name = codes "posted";
  member_names = codes "id" ∷ codes "whereabouts" ∷ [];
}

-- A column with `where` in its name is where the text is cut.
cut_column :
    generate_query_sql sqlite posted (codes "order by id" ∷ []) ≡ codes "select id,order by id "
unfolding generate_query_sql get_fields get_short_struct_name before contains_select
cut_column = refl

-- A question mark in a value is taken for the next placeholder.
value_with_mark :
    get_sql (codes "a=? and b=?") (text (codes "x?") ∷ plus 1 ∷ [])
    ≡ some (codes "a='x1 '  and b=?")
unfolding get_sql escape_sql_string to_string
value_with_mark = refl

-- What the manuals state, as a table
abbrev column_range : DbType → Bytes → ℕ × ℕ
column_range mysql name =
    if equal name (codes "TINYINT")
    then (128, 127)
    else if equal name (codes "BOOLEAN")
    then (128, 127)
    else if equal name (codes "SMALLINT")
    then (32768, 32767)
    else if equal name (codes "INTEGER")
    then (2147483648, 2147483647)
    else if equal name (codes "BIGINT")
    then (9223372036854775808, 9223372036854775807)
    else if equal name (codes "BIGINT UNSIGNED")
    then (0, 18446744073709551615)
    else (0, 0)
column_range sqlite name = (9223372036854775808, 9223372036854775807)
column_range postgresql name =
    if equal name (codes "smallint")
    then (32768, 32767)
    else if equal name (codes "integer")
    then (2147483648, 2147483647)
    else if equal name (codes "bigint")
    then (9223372036854775808, 9223372036854775807)
    else (0, 0)
column_range unknown name = (0, 0)

abbrev Stored : DbType → Bytes → Value → Type 0
Stored db name v = InRange (column_range db name) v

Stored-Manuals : Manuals Stored
unfolding equal
Stored-Manuals = record {
  mysql_boolean = λ v h. h;
  mysql_tinyint = λ v h. h;
  mysql_smallint = λ v h. h;
  mysql_integer = λ v h. h;
  mysql_bigint = λ v h. h;
  mysql_bigint_unsigned = λ v h. h;
  sqlite_integer = λ v h. h;
  postgresql_smallint = λ v h. h;
  postgresql_integer = λ v h. h;
  postgresql_bigint = λ v h. h;
}

type_name-Holds_example :
    Stored mysql (type_name mysql (plain uint8_type)) (plus 200)
    × Stored mysql (type_name mysql (optional_of uint8_type)) (plus 200)
type_name-Holds_example =
    type_name-Holds Stored Stored-Manuals mysql uint8_type (0, 255) (plus 200) refl refl
      (omega arith)
