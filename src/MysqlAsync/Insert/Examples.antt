-- ===== src/MysqlAsync/Insert/Examples.antt =====
-- A batch of two objects, at a database that notes its statements.
use ormpp.Base.{
  ℕ, Bool, true, false, List, [], ◌∷◌, ◌++◌, some, Bytes, codes, equal, if◌then◌else◌, to_string,
  ◌≡◌, refl, ap,
}
use ormpp.Utility.Keys.{Entity, Registry, mysql, is_auto_key, get_short_struct_name}
use ormpp.Utility.Insert.{generate_insert_sql, columns_loop}
use ormpp.MysqlAsync.Arguments.{plus, text, plain, step}
use ormpp.MysqlAsync.Arguments.Substitution.{fill}
use ormpp.MysqlAsync.Insert.{insert, Object, struct_values, insert_vector}
use ormpp.MysqlAsync.Insert.Sent.{run_all, Formats, insert_vector-run_all}

abbrev note : Bytes → List Bytes → Bool × List Bytes
note sql log = (true, log ++ sql ∷ [])

abbrev one : List Bytes → ℕ
one log = 1

abbrev escaping : List Bytes → Bool
escaping log = false

abbrev person : Entity
person = record { struct_name = codes "person"; member_names = codes "name" ∷ codes "age" ∷ [] }

abbrev no_keys : Registry
no_keys = record { auto_key_map = []; conflict_map = [] }

abbrev tom : Object
tom name = if equal name (codes "name") then text (codes "Tom?") else plus 20

abbrev may : Object
may name = if equal name (codes "name") then text (codes "May") else plus 30

two_inserted : insert_vector note one escaping no_keys person insert true (tom ∷ may ∷ []) [] ≡ (
  some 2,
  codes "BEGIN"
      ∷ codes "insert into person (`name`,`age`) values('Tom?',20) "
      ∷ codes "insert into person (`name`,`age`) values('May',30) "
      ∷ codes "COMMIT"
      ∷ [],
)
unfolding insert_vector step to_string equal is_auto_key generate_insert_sql columns_loop
    get_short_struct_name
two_inserted = refl

insert_vector-run_all_example :
    (sqls : List Bytes) × Formats note one escaping
      (λ o escapes_off.
        fill escapes_off plain
          (generate_insert_sql mysql true no_keys person [])
          (struct_values no_keys person o insert escapes_off))
      (codes "BEGIN" ∷ [])
      (tom ∷ may ∷ [])
      sqls
    × (run_all note one escaping (codes "BEGIN" ∷ (sqls ++ codes "COMMIT" ∷ [])) [] ≡ (
      true,
      (insert_vector note one escaping no_keys person insert true (tom ∷ may ∷ []) []).1,
    ))
insert_vector-run_all_example =
    insert_vector-run_all note one escaping no_keys person insert tom (may ∷ []) [] 2
      (ap (λ r. r.0) two_inserted)
