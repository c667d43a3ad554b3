-- ===== src/Utility/Update.antt =====
-- ormpp/utility.hpp, `generate_update_sql` and `generate_delete_sql`.
pub mod Guarded
use ormpp.Base.{
  ℕ, suc, ◌+◌, Bool, true, false, not, ◌&&◌, List, [], ◌∷◌, ◌++◌, ◌==◌, if◌then◌else◌, Bytes, codes,
  is_empty, to_string, pop_back,
}
use ormpp.Utility.Keys.{Entity, DbType, is_mysql, is_postgresql, quoted, get_short_struct_name}
use ormpp.Utility.Insert.{append}

-- What follows a name in an assignment or a condition, at the index before its `++index`.
abbrev pub parameter : DbType → ℕ → Bytes
parameter db index = if is_postgresql db then b'=' ∷ b'$' ∷ to_string (index + 1) else codes "=?"

abbrev pub next_index : DbType → ℕ → ℕ
next_index db index = if is_postgresql db then index + 1 else index

-- The assignments, each with a comma behind it; the flag is whether MySQL names are quoted.
unfoldable pub assignments : DbType → Bool → ℕ → List Bytes → Bytes
assignments db quotes index [] = []
assignments db quotes index (name ∷ rest) =
    (if quotes then quoted db name else name)
    ++ (parameter db index ++ (b',' ∷ assignments db quotes (next_index db index) rest))

unfoldable pub index_behind : DbType → ℕ → List Bytes → ℕ
index_behind db index [] = index
index_behind db index (name ∷ rest) = index_behind db (next_index db index) rest

-- The loop over the conflict keys
unfoldable pub conditions : DbType → ℕ → List Bytes → Bytes → Bytes
conditions db index [] conflict = conflict
conditions db index (key ∷ keys) conflict =
    conditions db (next_index db index) keys
      (append conflict (codes " and" ∷ (key ++ parameter db index) ∷ []))

abbrev keep_or_drop : ℕ → Bytes → Bytes
keep_or_drop c [] = if c == b' ' then [] else c ∷ []
keep_or_drop c (d ∷ ds) = c ∷ d ∷ ds

-- `while (!sql.empty() && sql.back() == ' ') sql.pop_back();`
unfoldable pub strip : Bytes → Bytes
strip [] = []
strip (c ∷ cs) = keep_or_drop c (strip cs)

-- `members` are the template's, and `keys` what `get_conflict_keys` gives.
unfoldable pub update_fields : DbType → List Bytes → Entity → Bytes × ℕ
unfolding assignments index_behind
update_fields db [] t =
    (pop_back (assignments db true 0 t.member_names), index_behind db 0 t.member_names)
update_fields db (m ∷ ms) t =
    (pop_back (assignments db false 0 (m ∷ ms)), index_behind db 0 (m ∷ ms))

unfoldable pub update_conflict : DbType → List Bytes → List Bytes → ℕ → Bytes
unfolding conditions
update_conflict db [] keys index = conditions db index keys (codes "where 1=1")
update_conflict db (arg ∷ args) keys index = append (codes "where 1=1") (codes " and" ∷ arg ∷ args)

abbrev pub has_condition : List Bytes → List Bytes → Bool
has_condition [] [] = false
has_condition _ _ = true

unfoldable pub generate_update_sql : DbType → List Bytes → List Bytes → List Bytes → Entity → Bytes
unfolding update_fields update_conflict
generate_update_sql db members args keys t =
    let sql = append [] (codes "update" ∷ get_short_struct_name t ∷ codes "set" ∷ []) in
    let (fields, index) = update_fields db members t in
    let conflict = update_conflict db args keys index in
    if has_condition args keys then strip (append sql (fields ∷ conflict ∷ [])) else []

-- One condition, as the callers pass it; no argument and an empty one are alike.
unfoldable pub generate_delete_sql : Bytes → Entity → Bytes
unfolding append
generate_delete_sql where_condition t =
    let sql = append (codes "delete from ") (get_short_struct_name t ∷ []) in
    if is_empty where_condition then sql else append sql (codes "where" ∷ where_condition ∷ [])
