-- ===== src/Query/Builder.antt =====
-- ormpp/query.hpp, `query_builder`: the clauses of a query, the stages that set them, and the query's
-- text. All stages of one builder share one context, through a `shared_ptr`, so a call on an earlier
-- stage changes the same query.
pub mod Stages
use ormpp.Base.{
  ℕ, List, [], ◌∷◌, ◌++◌, ◌||◌, Option, none, some, if◌then◌else◌, Bytes, codes, is_empty, equal,
  pop_back, to_string,
}
use ormpp.Utility.Keys.{Entity, DbType, mysql, sqlite, postgresql, unknown, get_short_struct_name}
use ormpp.Query.Where.{WhereCondition, to_sql, ColInfo, qualified_field_name}
use ormpp.Query.Placeholder.{replace_postgresql_placeholders}

pub record Context : Type 0 where
  pub sql : Bytes
  pub select_clause : Bytes
  pub from_clause : Bytes
  pub group_by_clause : Bytes
  pub join_clause : Bytes
  pub where_clause : Bytes
  pub order_by_clause : Bytes
  pub having_clause : Bytes
  pub desc_clause : Bytes
  pub limit_clause : Bytes
  pub offset_clause : Bytes

unfoldable pub clauses : Context → Bytes
clauses c =
    let selected = codes "select " ++ (c.select_clause ++ c.from_clause) in
    let filtered = codes " where " ++ c.where_clause in
    let where_clause =
      if is_empty c.select_clause || is_empty c.where_clause then c.where_clause else filtered in
    c.sql
    ++ ((if is_empty c.select_clause then [] else selected)
        ++ (c.join_clause
            ++ (where_clause
                ++ (c.group_by_clause
                    ++ (c.having_clause
                        ++ (c.order_by_clause
                            ++ (c.desc_clause ++ (c.limit_clause ++ c.offset_clause))))))))

-- `none` would be a numbering that does not end.
unfoldable pub build_sql : DbType → Context → Option Bytes
unfolding clauses
build_sql postgresql c = replace_postgresql_placeholders (clauses c)
build_sql _ c = some (clauses c)

-- `append_select` for each field
unfoldable pub select_fields : List ColInfo → Bytes
select_fields [] = []
select_fields (a ∷ fields) =
    (if is_empty a.class_name then a.name else a.class_name ++ (codes "." ++ a.name))
    ++ b',' ∷ select_fields fields

-- `create_stage_select`
unfoldable pub create_stage_select : List ColInfo → Bytes
create_stage_select fields = pop_back (select_fields fields)

unfoldable pub all_fields : Bytes → List Bytes → Bytes
all_fields table_name [] = []
all_fields table_name (name ∷ names) =
    table_name ++ (codes "." ++ (name ++ b',' ∷ all_fields table_name names))

unfoldable pub select_all_fields_sql : Entity → Bytes
unfolding all_fields
select_all_fields_sql t = pop_back (all_fields (get_short_struct_name t) t.member_names)

-- `stage_select::from`
unfoldable pub from : Bytes → Entity → Context
from select_clause t = record {
  sql = [];
  select_clause = if is_empty select_clause then select_all_fields_sql t else select_clause;
  from_clause = codes " from " ++ get_short_struct_name t;
  group_by_clause = [];
  join_clause = [];
  where_clause = [];
  order_by_clause = [];
  having_clause = [];
  desc_clause = [];
  limit_clause = [];
  offset_clause = [];
}

unfoldable pub join_impl : Bytes → Entity → ColInfo → ColInfo → Bytes
join_impl prefix t a b =
    prefix
    ++ (codes "join "
        ++ ((if equal (get_short_struct_name t) a.class_name then b.class_name else a.class_name)
            ++ (codes " ON "
                ++ (a.class_name
                    ++ (codes "."
                        ++ (a.name
                            ++ (codes "="
                                ++ (b.class_name ++ (codes "." ++ (b.name ++ codes " "))))))))))

unfoldable pub order_fields : List ColInfo → Bytes
order_fields [] = []
order_fields (c ∷ fields) =
    qualified_field_name c.class_name c.name ++ (c.sort_order ++ b',' ∷ order_fields fields)

unfoldable pub order_by_sql : List ColInfo → Bytes
unfolding order_fields
order_by_sql fields = pop_back (codes " ORDER BY " ++ order_fields fields)

-- `append_group_by_field` for each field
unfoldable pub group_by_fields : List ColInfo → Bytes
group_by_fields [] = []
group_by_fields (c ∷ fields) =
    qualified_field_name c.class_name c.name ++ b',' ∷ group_by_fields fields

-- The text that `group_by` sets.
unfoldable pub group_by_sql : List ColInfo → Bytes
unfolding group_by_fields
group_by_sql fields = pop_back (codes " GROUP BY " ++ group_by_fields fields)

-- The argument of `limit` and `offset`
pub data Amount : Type 0 where
  rows : ℕ → Amount
  token : Amount

unfoldable pub limit_sql : Amount → Bytes
limit_sql (rows n) = codes " LIMIT " ++ to_string n
limit_sql token = codes " LIMIT ?  "

unfoldable pub offset_sql : Amount → Bytes
offset_sql (rows n) = codes " offset " ++ to_string n
offset_sql token = codes " offset ?  "
