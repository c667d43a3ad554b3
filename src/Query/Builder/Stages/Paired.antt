-- ===== src/Query/Builder/Stages/Paired.antt =====
-- Which clauses of a query stand only beside others.
use ormpp.Base.{List, [], Bytes, ◌≢◌, refl}
use ormpp.Utility.Keys.{Entity}
use ormpp.Query.Where.{ColInfo}
use ormpp.Query.Builder.{Context, from, group_by_sql, Amount, rows, token, limit_sql}
use ormpp.Query.Builder.Stages.{
  Stage, query_builder, stage_inner_join, stage_where, stage_group_by, stage_having, stage_order,
  stage_limit, stage_offset, Call, join, filter, group_by, having, order_by, limit, offset, Offers,
  first_join, next_join, filters, groups, havings, orders, limits, offsets, apply, Held, here,
  there, Reached, begun, called,
}

-- What a client that holds the stage knows of the context.
Supports : Stage → Context → Type 0
Supports stage_group_by c = c.group_by_clause ≢ []
Supports stage_having c = c.group_by_clause ≢ []
Supports stage_limit c = c.limit_clause ≢ []
Supports stage_offset c = c.limit_clause ≢ []
Supports _ c = Unit

limit_sql-ne-nil : (n : Amount) → limit_sql n ≢ []
unfolding limit_sql
limit_sql-ne-nil (rows n) e = cc
limit_sql-ne-nil token e = cc

group_by_sql-ne-nil : (fields : List ColInfo) → group_by_sql fields ≢ []
unfolding group_by_sql
group_by_sql-ne-nil fields e = cc

grouped-apply :
    (t : Entity) (s : Stage) (call : Call) (c : Context)
    → c.group_by_clause ≢ []
    → (apply t s call c).group_by_clause ≢ []
unfolding apply
grouped-apply t s (join k a b) c h = h
grouped-apply t s (filter w) c h = h
grouped-apply t s (group_by fields) c h = group_by_sql-ne-nil fields
grouped-apply t s (having w) c h = h
grouped-apply t s (order_by fields) c h = h
grouped-apply t s (limit n) c h = h
grouped-apply t s (offset n) c h = h

limited-apply :
    (t : Entity) (s : Stage) (call : Call) (c : Context)
    → c.limit_clause ≢ []
    → (apply t s call c).limit_clause ≢ []
unfolding apply
limited-apply t s (join k a b) c h = h
limited-apply t s (filter w) c h = h
limited-apply t s (group_by fields) c h = h
limited-apply t s (having w) c h = h
limited-apply t s (order_by fields) c h = h
limited-apply t s (limit n) c h = limit_sql-ne-nil n
limited-apply t s (offset n) c h = h

-- A call keeps what is known of a stage.
Supports-apply :
    (t : Entity) (r s : Stage) (call : Call) (c : Context)
    → Supports r c
    → Supports r (apply t s call c)
unfolding Supports
Supports-apply t query_builder s call c h = tt
Supports-apply t stage_inner_join s call c h = tt
Supports-apply t stage_where s call c h = tt
Supports-apply t stage_group_by s call c h = grouped-apply t s call c h
Supports-apply t stage_having s call c h = grouped-apply t s call c h
Supports-apply t stage_order s call c h = tt
Supports-apply t stage_limit s call c h = limited-apply t s call c h
Supports-apply t stage_offset s call c h = limited-apply t s call c h

-- A call brings about what its stage needs.
Supports-offered :
    (t : Entity) (s r : Stage) (call : Call) (c : Context)
    → Offers s call r
    → Supports s c
    → Supports r (apply t s call c)
unfolding Supports apply
Supports-offered t _ _ _ c first_join h = tt
Supports-offered t _ _ _ c next_join h = tt
Supports-offered t _ _ _ c (filters e) h = tt
Supports-offered t _ _ (group_by fields) c (groups e) h = group_by_sql-ne-nil fields
Supports-offered t _ _ _ c havings h = h
Supports-offered t _ _ _ c (orders e) h = tt
Supports-offered t _ _ (limit n) c (limits e) h = limit_sql-ne-nil n
Supports-offered t _ _ _ c offsets h = h

Held-Supports :
    {t : Entity} {start : Context} {stages : List Stage} {c : Context} (s : Stage)
    → Reached t start stages c
    → Held s stages
    → Supports s c
unfolding Supports
Held-Supports _ begun here = tt
Held-Supports s begun (there h) = elim h [ ]
Held-Supports s (called past held offered) here =
    Supports-offered _ _ s _ _ offered (Held-Supports _ past held)
Held-Supports s (called past held offered) (there h) =
    Supports-apply _ s _ _ _ (Held-Supports s past h)

abbrev Paired : Context → Type 0
Paired c =
    (c.having_clause ≢ [] → c.group_by_clause ≢ []) × (c.offset_clause ≢ [] → c.limit_clause ≢ [])

Paired-apply :
    (t : Entity) (s r : Stage) (call : Call) (c : Context)
    → Offers s call r
    → Supports s c
    → Paired c
    → Paired (apply t s call c)
unfolding Supports apply
Paired-apply t _ _ _ c first_join h p = p
Paired-apply t _ _ _ c next_join h p = p
Paired-apply t _ _ _ c (filters e) h p = p
Paired-apply t _ _ (group_by fields) c (groups e) h (p, q) = ((λ k. group_by_sql-ne-nil fields), q)
Paired-apply t _ _ _ c havings h (p, q) = ((λ k. h), q)
Paired-apply t _ _ _ c (orders e) h p = p
Paired-apply t _ _ (limit n) c (limits e) h (p, q) = (p, (λ k. limit_sql-ne-nil n))
Paired-apply t _ _ _ c offsets h (p, q) = (p, (λ k. h))

-- Whatever stages a client keeps and calls again, in any order, a query from `from` has a `HAVING` only
-- beside a `GROUP BY`, and an `offset` only beside a `LIMIT`.
pub reached-paired :
    (t : Entity) (select_clause : Bytes) {stages : List Stage} {c : Context}
    → Reached t (from select_clause t) stages c
    → (c.having_clause ≢ [] → c.group_by_clause ≢ []) × (c.offset_clause ≢ [] → c.limit_clause ≢ [])
unfolding from
reached-paired t select_clause begun = ((λ k e. k refl), (λ k e. k refl))
reached-paired t select_clause (called past held offered) =
    Paired-apply _ _ _ _ _ offered (Held-Supports _ past held) (reached-paired t select_clause past)
