-- ===== src/Utility/Select.antt =====
-- ormpp/utility.hpp: `contains_select`, `get_fields`, `get_sql_conditions`, `generate_query_sql`,
-- `get_str` and `get_sql`.
pub mod Word
pub mod Ordering
pub mod Filled
use ormpp.Base.{
  ℕ, ◌+◌, Bool, true, false, ◌&&◌, ◌||◌, not, List, [], ◌∷◌, ◌++◌, Option, none, some, ◌==◌, leb,
  if◌then◌else◌, Bytes, codes, is_empty, pop_back, map,
}
use ormpp.Utility.Keys.{Entity, DbType, quoted, get_short_struct_name}
use ormpp.Utility.Insert.{append}
use ormpp.Utility.Escape.{Value, to_str}

-- `std::isspace` and `std::tolower` in the C locale
abbrev pub isspace : ℕ → Bool
isspace c = (leb 9 c && leb c 13) || c == 32

abbrev pub tolower : ℕ → ℕ
tolower c = if leb b'A' c && leb c b'Z' then c + 32 else c

-- The loop that skips leading white space
unfoldable pub skip_space : Bytes → Bytes
skip_space [] = []
skip_space (c ∷ cs) = if isspace c then skip_space cs else c ∷ cs

abbrev pub at_break : Bytes → Bool
at_break [] = true
at_break (c ∷ cs) = isspace c

-- The loop over the keyword, and the test behind it
unfoldable pub matches : Bytes → Bytes → Bool
matches [] sql = at_break sql
matches (k ∷ ks) [] = true
matches (k ∷ ks) (c ∷ cs) = let rest = matches ks cs in if tolower c == k then rest else false

unfoldable pub contains_select : Bytes → Bool
unfolding skip_space matches
contains_select sql =
    let text = skip_space sql in if is_empty text then false else matches (codes "select") text

-- The loop of `get_fields` over the names
unfoldable pub fields_loop : DbType → List Bytes → Bytes
fields_loop db [] = []
fields_loop db (name ∷ names) = quoted db name ++ (b',' ∷ fields_loop db names)

-- `get_fields`; the text that it caches for a database is this one.
unfoldable pub get_fields : DbType → Entity → Bytes
unfolding fields_loop
get_fields db t =
    let fields = fields_loop db t.member_names in
    if is_empty fields then [] else pop_back fields ++ b' ' ∷ []

abbrev pub has_prefix : Bytes → Bytes → Bool
has_prefix [] s = true
has_prefix (p ∷ ps) [] = false
has_prefix (p ∷ ps) (c ∷ cs) = p == c && has_prefix ps cs

-- `s.substr(0, s.find(word))`: the text before the first occurrence of the word, all of it where there is none
unfoldable pub before : Bytes → Bytes → Bytes
before word [] = []
before word (c ∷ cs) =
    let rest = before word cs in if has_prefix word (c ∷ cs) then [] else c ∷ rest

-- `temp.find(word) == 0`, where `temp` is the argument in lower case
abbrev pub opens_with : Bytes → Bytes → Bool
opens_with word arg = has_prefix word (map tolower arg)

-- `get_sql_conditions`: only the first argument is looked at.
unfoldable pub get_sql_conditions : Bytes → List Bytes → Bytes
unfolding contains_select before append
get_sql_conditions sql [] = sql
get_sql_conditions sql (arg ∷ args) =
    let ordered = if opens_with (codes "order by") arg then before (codes "where") sql else sql in
    let limited =
      if opens_with (codes "limit") arg then before (codes "where") ordered else ordered in
    if contains_select arg then arg else append limited (arg ∷ args)

-- The flag `where`: some argument is not empty.
unfoldable pub any_nonempty : List Bytes → Bool
any_nonempty [] = false
any_nonempty (arg ∷ args) = not (is_empty arg) || any_nonempty args

unfoldable pub generate_query_sql : DbType → Entity → List Bytes → Bytes
unfolding get_fields get_sql_conditions any_nonempty append
generate_query_sql db t args =
    let sql =
      append (codes "select ") (get_fields db t ∷ codes "from" ∷ get_short_struct_name t ∷ []) in
    let sql = if any_nonempty args then append sql (codes "where 1=1 and " ∷ []) else sql in
    get_sql_conditions sql args

abbrev pub put_front : ℕ → Option Bytes → Option Bytes
put_front c none = none
put_front c (some s) = some (c ∷ s)

-- The first placeholder becomes the literal and a space; without one `replace` throws.
unfoldable pub get_str : Bytes → Bytes → Option Bytes
get_str [] s = none
get_str (c ∷ sql) s =
    let later = put_front c (get_str sql s) in if c == b'?' then some (s ++ b' ' ∷ sql) else later

abbrev pub or_thrown : (Bytes → Option Bytes) → Option Bytes → Option Bytes
or_thrown more none = none
or_thrown more (some sql) = more sql

unfoldable pub get_sql : Bytes → List Value → Option Bytes
unfolding get_str to_str
get_sql sql [] = some sql
get_sql sql (arg ∷ args) = or_thrown (λ s. get_sql s args) (get_str sql (to_str arg))
