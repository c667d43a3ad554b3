-- ===== src/Utility/Keys.antt =====
-- ormpp/utility.hpp: the names of a struct, the registered keys, and `split`. A reflected struct is
-- the name and the member names that the reflection library gives for it.
pub mod Split
pub mod Names
use ormpp.Base.{
  ℕ, suc, ◌+◌, ◌-◌, Bool, true, false, ◌&&◌, ◌||◌, List, [], ◌∷◌, ◌++◌, Option, none, some, ◌==◌,
  leb, if◌then◌else◌, Bytes, is_empty, equal, drop, length, map,
}

pub record Entity : Type 0 where
  pub struct_name : Bytes
  pub member_names : List Bytes

-- The text behind the last byte `c`; `none` where `rfind` gives `npos`.
unfoldable pub behind_last : ℕ → Bytes → Option Bytes
behind_last c [] = none
behind_last c (x ∷ xs) = elim (behind_last c xs) [
  | some rest ↦ some rest
  | none ↦ if x == c then some xs else none
]

unfoldable pub get_short_struct_name : Entity → Bytes
unfolding behind_last
get_short_struct_name t = elim (behind_last b':' t.struct_name) [
  | none ↦ t.struct_name
  | some rest ↦ rest
]

-- The two static maps
pub record Registry : Type 0 where
  pub auto_key_map : List (Bytes × Bytes)
  pub conflict_map : List (Bytes × Bytes)

unfoldable pub find : Bytes → List (Bytes × Bytes) → Option Bytes
find k [] = none
find k ((j, v) ∷ m) = if equal j k then some v else find k m

-- `emplace`: a key that is there keeps its value.
unfoldable pub emplace : Bytes → Bytes → List (Bytes × Bytes) → List (Bytes × Bytes)
emplace k v [] = (k, v) ∷ []
emplace k v ((j, w) ∷ m) = if equal j k then (j, w) ∷ m else (j, w) ∷ emplace k v m

unfoldable pub add_auto_key_field : Bytes → Bytes → Registry → Registry
unfolding emplace
add_auto_key_field key value r = record r { auto_key_map = emplace key value r.auto_key_map }

unfoldable pub add_conflict_key_field : Bytes → Bytes → Registry → Registry
unfolding emplace
add_conflict_key_field key value r = record r { conflict_map = emplace key value r.conflict_map }

abbrev or_empty : Option Bytes → Bytes
or_empty none = []
or_empty (some v) = v

unfoldable pub get_auto_key : Registry → Entity → Bytes
unfolding find
get_auto_key r t = or_empty (find (get_short_struct_name t) r.auto_key_map)

unfoldable pub is_auto_key : Registry → Entity → Bytes → Bool
unfolding find
is_auto_key r t field_name = elim (find (get_short_struct_name t) r.auto_key_map) [
  | none ↦ false
  | some v ↦ equal v field_name
]

unfoldable pub get_conflict_key : Registry → Entity → Bytes
unfolding find
get_conflict_key r t = elim (find t.struct_name r.conflict_map) [
  | none ↦ or_empty (find t.struct_name r.auto_key_map)
  | some v ↦ v
]

-- `REGISTER_AUTO_KEY` and `REGISTER_CONFLICT_KEY`
unfoldable pub register_auto_key : Entity → Bytes → Registry → Registry
unfolding add_auto_key_field
register_auto_key t key r = add_auto_key_field t.struct_name key r

unfoldable pub register_conflict_key : Entity → Bytes → Registry → Registry
unfolding add_conflict_key_field
register_conflict_key t keys r = add_conflict_key_field t.struct_name keys r

-- `isalpha(c) || isdigit(c) || c == '_'`, in the C locale
unfoldable pub is_word : ℕ → Bool
is_word c =
    (leb b'a' c && leb c b'z')
    || (leb b'A' c && leb c b'Z')
    || (leb b'0' c && leb c b'9')
    || c == b'_'

-- `str.substr(i - start, start)`, where `seen` is the text before `i`
abbrev pub last_bytes : ℕ → Bytes → Bytes
last_bytes start seen = drop (length seen - start) seen

abbrev keep_counting : ℕ → Bool
keep_counting c = c == b' ' || is_word c

-- The loop of `split` at a byte, with the text before it.
unfoldable pub split_loop : Bytes → ℕ → Bytes → List Bytes
split_loop seen start [] = if start == 0 then [] else last_bytes start seen ∷ []
split_loop seen start (c ∷ cs) =
    let later =
      split_loop (seen ++ c ∷ []) (if c == b' ' then start else if is_word c then start + 1 else 0)
        cs in
    if keep_counting c then later else last_bytes start seen ∷ later

unfoldable pub split : Bytes → List Bytes
unfolding split_loop is_word
split str = if is_empty str then [] else split_loop [] 0 str

pub data DbType : Type 0 where
  mysql sqlite postgresql unknown : DbType

abbrev pub is_mysql : DbType → Bool
is_mysql mysql = true
is_mysql _ = false

abbrev pub is_postgresql : DbType → Bool
is_postgresql postgresql = true
is_postgresql _ = false

-- A field name as the statements for the database spell it.
abbrev pub quoted : DbType → Bytes → Bytes
quoted db n = if is_mysql db then b'`' ∷ (n ++ b'`' ∷ []) else n

-- `get_conflict_keys`, with the keys that it has cached for the database; its result is also what
-- it caches.
unfoldable pub get_conflict_keys : DbType → List Bytes → Registry → Entity → List Bytes
unfolding split get_conflict_key
get_conflict_keys db [] r t = map (quoted db) (split (get_conflict_key r t))
get_conflict_keys db (k ∷ ks) r t = k ∷ ks

unfoldable pub is_conflict_key : List Bytes → Bytes → Bool
is_conflict_key [] field_name = false
is_conflict_key (k ∷ ks) field_name =
    if equal k field_name then true else is_conflict_key ks field_name
