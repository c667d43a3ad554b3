-- ===== src/Query/Builder/Stages.antt =====
-- ormpp/query.hpp, the stages of `query_builder`: which methods each offers, what a call does to the
-- shared context, and the histories of calls.
pub mod Refinement
pub mod Paired
use ormpp.Base.{ℕ, Bool, true, false, List, [], ◌∷◌, ◌++◌, if◌then◌else◌, Bytes, codes, ◌≡◌}
use ormpp.Utility.Keys.{Entity}
use ormpp.Query.Where.{WhereCondition, to_sql, ColInfo}
use ormpp.Query.Builder.{
  Context, join_impl, order_by_sql, group_by_sql, Amount, limit_sql, offset_sql,
}

pub data Stage : Type 0 where
  query_builder : Stage
  stage_inner_join : Stage
  stage_where : Stage
  stage_group_by : Stage
  stage_having : Stage
  stage_order : Stage
  stage_limit : Stage
  stage_offset : Stage

pub data JoinKind : Type 0 where
  inner : JoinKind
  left : JoinKind
  right : JoinKind
  full : JoinKind
  full_outer : JoinKind

unfoldable pub join_prefix : JoinKind → Bytes
join_prefix inner = codes " inner "
join_prefix left = codes " left "
join_prefix right = codes " right "
join_prefix full = codes " full "
join_prefix full_outer = codes " full outer "

pub data Call : Type 0 where
  join : JoinKind → ColInfo → ColInfo → Call
  filter : WhereCondition → Call
  group_by : List ColInfo → Call
  having : WhereCondition → Call
  order_by : List ColInfo → Call
  limit : Amount → Call
  offset : Amount → Call

-- The stages with a `where`
unfoldable pub has_where : Stage → Bool
has_where query_builder = true
has_where stage_inner_join = true
has_where _ = false

-- The stages with a `group_by`
unfoldable pub has_group_by : Stage → Bool
has_group_by query_builder = true
has_group_by stage_inner_join = true
has_group_by stage_where = true
has_group_by _ = false

-- The stages with an `order_by`
unfoldable pub has_order_by : Stage → Bool
has_order_by stage_order = false
has_order_by stage_limit = false
has_order_by stage_offset = false
has_order_by _ = true

-- The stages with a `limit`
unfoldable pub has_limit : Stage → Bool
has_limit query_builder = true
has_limit stage_inner_join = true
has_limit stage_where = true
has_limit stage_order = true
has_limit _ = false

-- A stage offers a call, and the call gives a stage.
pub data Offers : Stage → Call → Stage → Type 0 where
  first_join : {k : JoinKind} {a b : ColInfo} → Offers query_builder (join k a b) stage_inner_join
  next_join : {a b : ColInfo} → Offers stage_inner_join (join inner a b) stage_inner_join
  filters : {s : Stage} {w : WhereCondition} → has_where s ≡ true → Offers s (filter w) stage_where
  groups :
      {s : Stage} {fields : List ColInfo}
      → has_group_by s ≡ true
      → Offers s (group_by fields) stage_group_by
  havings : {w : WhereCondition} → Offers stage_group_by (having w) stage_having
  orders :
      {s : Stage} {fields : List ColInfo}
      → has_order_by s ≡ true
      → Offers s (order_by fields) stage_order
  limits : {s : Stage} {n : Amount} → has_limit s ≡ true → Offers s (limit n) stage_limit
  offsets : {n : Amount} → Offers stage_limit (offset n) stage_offset

-- The builder's join assigns the clause, the later ones append to it.
unfoldable pub join_onto : Stage → Bytes → Bytes → Bytes
join_onto query_builder joined sql = sql
join_onto _ joined sql = joined ++ sql

-- `offset` appends, all others but the later joins assign.
unfoldable pub apply : Entity → Stage → Call → Context → Context
apply t s (join k a b) c = record c {
  join_clause = join_onto s c.join_clause (join_impl (join_prefix k) t a b);
}
apply t s (filter w) c = record c { where_clause = to_sql w }
apply t s (group_by fields) c = record c { group_by_clause = group_by_sql fields }
apply t s (having w) c = record c { having_clause = codes " HAVING " ++ to_sql w }
apply t s (order_by fields) c = record c { order_by_clause = order_by_sql fields }
apply t s (limit n) c = record c { limit_clause = limit_sql n }
apply t s (offset n) c = record c { offset_clause = c.offset_clause ++ offset_sql n }

-- The stage is one of those that a client holds.
pub data Held (s : Stage) : List Stage → Type 0 where
  here : {stages : List Stage} → Held s (s ∷ stages)
  there : {r : Stage} {stages : List Stage} → Held s stages → Held s (r ∷ stages)

-- A client may call any stage that it holds, also an earlier one, and then holds one more.
pub data Reached (t : Entity) (start : Context) : List Stage → Context → Type 0 where
  begun : Reached t start (query_builder ∷ []) start
  called :
      {stages : List Stage} {c : Context} {s r : Stage} {call : Call}
      → Reached t start stages c
      → Held s stages
      → Offers s call r
      → Reached t start (r ∷ stages) (apply t s call c)
