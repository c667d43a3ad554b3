-- ===== src/Query/Update.antt =====
-- ormpp/query.hpp, `update_builder` and its stages: how the clauses of an `update_context` are set.
pub mod Values
mod Examples
use ormpp.Base.{List, [], ◌∷◌, ◌++◌, Option, none, some, Bytes, codes}
use ormpp.Utility.Escape.{to_str}
use ormpp.Query.Where.{WhereCondition, to_sql, ColInfo}
use ormpp.Query.Partition.{Bound, raw_sql, value}
use ormpp.Query.Delete.{UpdateContext}

-- A call of `set`, whose value is raw SQL or a value, or of `set_null`.
pub data Assignment : Type 0 where
  set : ColInfo → Bound → Assignment
  set_null : ColInfo → Assignment

-- `append_set`, and the text of `set_null`
unfoldable pub append_set : Bytes → Assignment → Bytes
append_set sql (set field (raw_sql raw)) = sql ++ (field.name ++ (codes "=" ++ raw))
append_set sql (set field (value v)) = sql ++ (field.name ++ (codes "=" ++ to_str v))
append_set sql (set_null field) = sql ++ (field.name ++ codes "=NULL")

-- The calls on `stage_update_set`
unfoldable pub set_more : Bytes → List Assignment → Bytes
unfolding append_set
set_more sql [] = sql
set_more sql (a ∷ more) = set_more (append_set (sql ++ codes ",") a) more

-- A first call on the builder, further ones, and `where` or `execute_all`
unfoldable pub update_context : Assignment → List Assignment → Option WhereCondition → UpdateContext
unfolding set_more
update_context a more none = record {
  set_clause = set_more (append_set [] a) more;
  where_clause = [];
}
update_context a more (some w) = record {
  set_clause = set_more (append_set [] a) more;
  where_clause = to_sql w;
}
