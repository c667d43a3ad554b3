-- ===== src/Query/Where.antt =====
-- ormpp/query.hpp, `where_condition`, `col_info` and the operators that build conditions.
pub mod Brackets
use ormpp.Base.{
  ℕ, Bool, true, false, List, [], ◌∷◌, ◌++◌, if◌then◌else◌, Bytes, codes, is_empty, equal, pop_back,
}
use ormpp.Utility.Escape.{Value, plus, minus, text, escape_sql_string, to_str}

pub record WhereCondition : Type 0 where
  pub left : Bytes
  pub op : Bytes
  pub right : Bytes
  pub need_quote : Bool

abbrev pub format_string : Bytes → Bytes
format_string s = b'\'' ∷ (escape_sql_string s ++ b'\'' ∷ [])

unfoldable pub to_sql : WhereCondition → Bytes
to_sql w =
    codes "("
    ++ (w.left
        ++ (w.op ++ ((if w.need_quote then format_string w.right else w.right) ++ codes ")")))

unfoldable pub qualified_field_name : Bytes → Bytes → Bytes
qualified_field_name class_name name =
    if is_empty class_name then name else class_name ++ (codes "." ++ name)

pub record ColInfo : Type 0 where
  pub name : Bytes
  pub class_name : Bytes
  pub sort_order : Bytes

unfoldable pub desc : ColInfo → ColInfo
desc c = record c { sort_order = codes " DESC " }

unfoldable pub asc : ColInfo → ColInfo
asc c = record c { sort_order = codes " ASC " }

abbrev plain : Bytes → Bytes → Bytes → WhereCondition
plain left op right = record { left = left; op = op; right = right; need_quote = false }

unfoldable pub param : ColInfo → WhereCondition
param c = plain (c.class_name ++ (codes "." ++ c.name)) (codes " = ") (codes "?  ")

abbrev pub qualified_name : ColInfo → Bytes
qualified_name c = qualified_field_name c.class_name c.name

unfoldable pub null : ColInfo → WhereCondition
null c = plain (qualified_name c) (codes " IS ") (codes "NULL")

unfoldable pub not_null : ColInfo → WhereCondition
not_null c = plain (qualified_name c) (codes " IS ") (codes "NOT NULL")

unfoldable pub between : ColInfo → Value → Value → WhereCondition
between c left right =
    plain (qualified_name c ++ (codes " between " ++ to_str left)) (codes " and ") (to_str right)

unfoldable pub like : ColInfo → Bytes → WhereCondition
like c str = plain (qualified_name c) (codes " like ") (format_string str)

-- `append_in_value` for each value
unfoldable pub in_values : List Value → Bytes
in_values [] = []
in_values (v ∷ vs) = to_str v ++ (codes "," ++ in_values vs)

unfoldable pub empty_in_condition : Bytes → WhereCondition
empty_in_condition s = plain (codes "1") (codes "=") (if is_empty s then codes "0" else codes "1")

unfoldable pub make_in_condition : ColInfo → Bytes → Bytes → WhereCondition
make_in_condition c s mid =
    plain
      ((if is_empty s then qualified_name c else qualified_name c ++ (codes " " ++ s))
        ++ codes " in(")
      mid (codes ")")

unfoldable pub in_impl : ColInfo → Bytes → List Value → WhereCondition
unfolding empty_in_condition make_in_condition
in_impl c s values =
    let mid = in_values values in
    if is_empty mid then empty_in_condition s else make_in_condition c s (pop_back mid)

-- `in` and `not_in`
abbrev pub is_in : ColInfo → List Value → WhereCondition
is_in c = in_impl c []

abbrev pub not_in : ColInfo → List Value → WhereCondition
not_in c = in_impl c (codes "not")

unfoldable pub build_where : ColInfo → Value → Bytes → WhereCondition
build_where c (plus n) op = plain (qualified_name c) op (to_str (plus n))
build_where c (minus n) op = plain (qualified_name c) op (to_str (minus n))
build_where c (text val) op =
    if equal val (codes "?  ")
    then plain (qualified_name c) op val
    else record { left = qualified_name c; op = op; right = val; need_quote = true }

-- `operator||` and `operator&&`
unfoldable pub either : WhereCondition → WhereCondition → WhereCondition
either lhs rhs = plain (to_sql lhs) (codes " OR ") (to_sql rhs)

unfoldable pub both : WhereCondition → WhereCondition → WhereCondition
both lhs rhs = plain (to_sql lhs) (codes " AND ") (to_sql rhs)
