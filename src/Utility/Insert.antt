-- ===== src/Utility/Insert.antt =====
-- ormpp/utility.hpp, `append` and `generate_insert_sql`.
pub mod Shape
use ormpp.Base.{
  ℕ, suc, ◌+◌, Bool, true, false, not, ◌&&◌, List, [], ◌∷◌, ◌++◌, ◌==◌, if◌then◌else◌, Bytes, codes,
  is_empty, to_string, pop_back, back_or,
}
use ormpp.Utility.Keys.{
  Entity, Registry, DbType, mysql, sqlite, postgresql, unknown, is_postgresql, quoted,
  get_short_struct_name, is_auto_key, get_conflict_key,
}

-- `append_impl` and `append`
unfoldable pub append : Bytes → List Bytes → Bytes
append sql [] = sql
append sql (str ∷ strs) = append (if is_empty str then sql else sql ++ (str ++ b' ' ∷ [])) strs

-- The locals of the loops over the members.
pub record Columns : Type 0 where
  pub index : ℕ
  pub fields : Bytes
  pub values : Bytes

-- The placeholder of the statement's next parameter.
abbrev pub placeholder : DbType → ℕ → Bytes
placeholder db index = if is_postgresql db then b'$' ∷ to_string (index + 1) else b'?' ∷ []

abbrev pub separator : List Bytes → Bytes
separator [] = b')' ∷ []
separator (n ∷ rest) = b',' ∷ []

-- The body of the loop of the plain statement, for a member with `rest` behind it.
unfoldable pub add_column : DbType → Bytes → List Bytes → Columns → Columns
add_column db name rest a = record {
  index = if is_postgresql db then a.index + 1 else a.index;
  fields = a.fields ++ (quoted db name ++ separator rest);
  values = a.values ++ (placeholder db a.index ++ separator rest);
}

-- That loop; `skip` is the test for `continue`.
unfoldable pub columns_loop : DbType → (Bytes → Bool) → List Bytes → Columns → Columns
unfolding add_column
columns_loop db skip [] a = a
columns_loop db skip (name ∷ rest) a =
    columns_loop db skip rest (if skip name then a else add_column db name rest a)

-- `if (s.back() != ')') s.back() = ')'`
abbrev pub close : Bytes → Bytes
close s = if back_or 0 s == b')' then s else pop_back s ++ b')' ∷ []

abbrev pub opened : Columns
opened = record { index = 0; fields = codes "("; values = codes "values(" }

-- The loop of the `on conflict` statement, with the text of its assignments.
unfoldable pub upsert_loop : List Bytes → Columns → Bytes → Columns × Bytes
unfolding append
upsert_loop [] a set = (a, set)
upsert_loop (name ∷ rest) a set =
    let value = b'$' ∷ to_string (a.index + 1) in
    upsert_loop rest
      (record {
        index = a.index + 1;
        fields = a.fields ++ (name ++ separator rest);
        values = a.values ++ (value ++ separator rest);
      })
      (append set (name ∷ codes "=" ∷ value ∷ []) ++ (if is_nil rest then codes ";" else codes ","))
  where
    is_nil : List Bytes → Bool
    is_nil [] = true
    is_nil (n ∷ ns) = false

unfoldable pub generate_upsert_sql : Registry → Entity → List Bytes → Bytes
unfolding upsert_loop append
generate_upsert_sql r t args =
    let (a, set) = upsert_loop t.member_names opened [] in
    let conflict = conflict_target args ++ codes ")" in
    append (append (codes "insert into ") (get_short_struct_name t ∷ []))
      (a.fields ∷ a.values ∷ conflict ∷ codes "do update set" ∷ set ∷ [])
  where
    conflict_target : List Bytes → Bytes
    conflict_target [] = codes "on conflict(" ++ get_conflict_key r t
    conflict_target (arg ∷ more) = append (codes "on conflict(") (arg ∷ more)

-- `append(sql, name)` and `append(sql, fields, values)`
abbrev pub statement : Bool → Bytes → Bytes → Bytes → Bytes
statement insert name fields values =
    append (append (if insert then codes "insert into " else codes "replace into ") (name ∷ []))
      (fields ∷ values ∷ [])

-- The statement of `insert`, and of `replace` but on PostgreSQL.
unfoldable pub generate_plain_sql : DbType → Bool → Registry → Entity → Bytes
generate_plain_sql db insert r t =
    let a = columns_loop db (λ name. insert && is_auto_key r t name) t.member_names opened in
    statement insert (get_short_struct_name t) (close a.fields) (close a.values)

unfoldable pub generate_insert_sql : DbType → Bool → Registry → Entity → List Bytes → Bytes
unfolding generate_upsert_sql generate_plain_sql
generate_insert_sql db insert r t args =
    if is_postgresql db && not insert
    then generate_upsert_sql r t args
    else generate_plain_sql db insert r t
