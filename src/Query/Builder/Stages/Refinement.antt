-- ===== src/Query/Builder/Stages/Refinement.antt =====
-- A query as the client means it, and its text, against the clauses of the context.
use ormpp.Base.{
  false, List, [], ◌∷◌, ◌++◌, Option, none, some, Bytes, codes, ◌≡◌, ◌≢◌, refl, ap, ◌∙◌, sym,
  append_assoc, append-nil, is_empty, if◌then◌else◌,
}
use ormpp.Utility.Keys.{Entity, get_short_struct_name, DbType, mysql, sqlite, postgresql, unknown}
use ormpp.Query.Where.{WhereCondition, to_sql, ColInfo}
use ormpp.Query.Builder.{
  Context, from, join_impl, order_by_sql, group_by_sql, Amount, limit_sql, offset_sql, clauses,
  build_sql,
}
use ormpp.Query.Placeholder.{plain}
use ormpp.Query.Placeholder.OnePass.{number, replace_postgresql_placeholders-number}
use ormpp.Query.Builder.Stages.{
  Stage, query_builder, JoinKind, join_prefix, Call, join, filter, group_by, having, order_by,
  limit, offset, inner, Offers, first_join, next_join, filters, groups, havings, orders, limits,
  offsets, apply, join_onto, Reached, begun, called,
}

-- The query that the calls describe: the joins since the builder's last one, and of each other clause
-- what the last call gave, but of the offsets all.
pub record Query : Type 0 where
  pub joins : List (JoinKind × ColInfo × ColInfo)
  pub condition : Option WhereCondition
  pub grouping : Option (List ColInfo)
  pub group_condition : Option WhereCondition
  pub ordering : Option (List ColInfo)
  pub limited : Option Amount
  pub skipped : List Amount

abbrev pub everything : Query
everything = record {
  joins = [];
  condition = none;
  grouping = none;
  group_condition = none;
  ordering = none;
  limited = none;
  skipped = [];
}

unfoldable pub describe : Stage → Call → Query → Query
describe query_builder (join k a b) q = record q { joins = (k, a, b) ∷ [] }
describe _ (join k a b) q = record q { joins = q.joins ++ (k, a, b) ∷ [] }
describe _ (filter w) q = record q { condition = some w }
describe _ (group_by fields) q = record q { grouping = some fields }
describe _ (having w) q = record q { group_condition = some w }
describe _ (order_by fields) q = record q { ordering = some fields }
describe _ (limit n) q = record q { limited = some n }
describe _ (offset n) q = record q { skipped = q.skipped ++ n ∷ [] }

unfoldable pub described :
    {t : Entity} {start : Context} {stages : List Stage} {c : Context}
    → Reached t start stages c
    → Query
described begun = everything
described (called {s = s} {call = call} past held offered) = describe s call (described past)

unfoldable pub optional {ℓ} : {A : Type ℓ} → Bytes → (A → Bytes) → Option A → Bytes
optional word print none = []
optional word print (some a) = word ++ print a

unfoldable pub each {ℓ} : {A : Type ℓ} → (A → Bytes) → List A → Bytes
each print [] = []
each print (a ∷ l) = print a ++ each print l

abbrev pub join_text : Entity → JoinKind × ColInfo × ColInfo → Bytes
join_text t (k, a, b) = join_impl (join_prefix k) t a b

-- The clauses in the order of SQL, each where the query has it.
unfoldable pub render : Entity → Bytes → Query → Bytes
render t fields q =
    codes "select "
    ++ ((fields ++ (codes " from " ++ get_short_struct_name t))
        ++ (each (join_text t) q.joins
            ++ (optional (codes " where ") to_sql q.condition
                ++ (optional [] group_by_sql q.grouping
                    ++ (optional (codes " HAVING ") to_sql q.group_condition
                        ++ (optional [] order_by_sql q.ordering
                            ++ (optional [] limit_sql q.limited ++ each offset_sql q.skipped)))))))

-- The text as the database takes it.
unfoldable pub final_text : DbType → Bytes → Bytes
final_text postgresql text = number plain text 1
final_text _ text = text

-- The context that holds the query.
context_of : Entity → Bytes → Query → Context
context_of t select_clause q = record (from select_clause t) {
  join_clause = each (join_text t) q.joins;
  where_clause = optional [] to_sql q.condition;
  group_by_clause = optional [] group_by_sql q.grouping;
  having_clause = optional (codes " HAVING ") to_sql q.group_condition;
  order_by_clause = optional [] order_by_sql q.ordering;
  limit_clause = optional [] limit_sql q.limited;
  offset_clause = each offset_sql q.skipped;
}

each-concat {ℓ} :
    {A : Type ℓ} (print : A → Bytes) (l : List A) (a : A)
    → each print l ++ print a ≡ each print (l ++ a ∷ [])
unfolding each
each-concat print [] a = sym (append-nil (print a))
each-concat print (b ∷ l) a =
    append_assoc (print b) (each print l) (print a) ∙ ap (print b ++◌) (each-concat print l a)

-- A call does to the context what it does to the query.
apply-context_of :
    (t : Entity) (sel : Bytes) (q : Query) {s r : Stage} {call : Call}
    → Offers s call r
    → apply t s call (context_of t sel q) ≡ context_of t sel (describe s call q)
unfolding apply describe each join_onto optional context_of from
apply-context_of t sel q (first_join {k = k} {a = a} {b = b}) =
    ap (λ (sql : Bytes). record (context_of t sel q) { join_clause = sql })
      (sym (append-nil (join_impl (join_prefix k) t a b)))
apply-context_of t sel q (next_join {a = a} {b = b}) =
    ap (λ (sql : Bytes). record (context_of t sel q) { join_clause = sql })
      (each-concat (join_text t) q.joins (inner, a, b))
apply-context_of t sel q (filters e) = refl
apply-context_of t sel q (groups e) = refl
apply-context_of t sel q havings = refl
apply-context_of t sel q (orders e) = refl
apply-context_of t sel q (limits e) = refl
apply-context_of t sel q (offsets {n = n}) =
    ap (λ (sql : Bytes). record (context_of t sel q) { offset_clause = sql })
      (each-concat offset_sql q.skipped n)

reached-context_of :
    (t : Entity) (sel : Bytes) {stages : List Stage} {c : Context}
    (past : Reached t (from sel t) stages c)
    → c ≡ context_of t sel (described past)
unfolding described
reached-context_of t sel begun = unfold context_of from each optional in refl
reached-context_of t sel (called {s = s} {call = call} past held offered) =
    ap (apply t s call) (reached-context_of t sel past)
    ∙ apply-context_of t sel (described past) offered

-- The `where` that is set in front of a condition that is there.
where_text :
    (condition : Option WhereCondition)
    → let text = optional [] to_sql condition in
      (if is_empty text then text else codes " where " ++ text)
      ≡ optional (codes " where ") to_sql condition
unfolding optional to_sql
where_text none = refl
where_text (some w) = refl

ne-nil-is_empty : (s : Bytes) → s ≢ [] → is_empty s ≡ false
ne-nil-is_empty [] h = elim (h refl) [ ]
ne-nil-is_empty (c ∷ s) h = refl

-- The text of the clauses of a query that selects something.
clauses-context_of :
    (t : Entity) (sel : Bytes) (q : Query)
    → (from sel t).select_clause ≢ []
    → clauses (context_of t sel q) ≡ render t (from sel t).select_clause q
unfolding clauses context_of render from
clauses-context_of t sel q h =
    rw (ne-nil-is_empty (from sel t).select_clause h, where_text q.condition)

reached-clauses :
    (t : Entity) (sel : Bytes) {stages : List Stage} {c : Context}
    (past : Reached t (from sel t) stages c)
    → (from sel t).select_clause ≢ []
    → clauses c ≡ render t (from sel t).select_clause (described past)
reached-clauses t sel past h =
    ap clauses (reached-context_of t sel past) ∙ clauses-context_of t sel (described past) h

-- The query's text is that of the query which its calls describe: whatever stages a client keeps and
-- calls again, in any order, the clauses stand in the order of SQL, and each says what its last call
-- said, but offsets and the joins behind the builder's add up. On PostgreSQL its markers are numbered.
-- The query is one that selects something.
pub build_sql-described :
    (kind : DbType) (t : Entity) (sel : Bytes) {stages : List Stage} {c : Context}
    (past : Reached t (from sel t) stages c)
    → (from sel t).select_clause ≢ []
    → let text = render t (from sel t).select_clause (described past) in
      build_sql kind c ≡ some (final_text kind text)
unfolding build_sql final_text
build_sql-described postgresql t sel past h =
    replace_postgresql_placeholders-number _
    ∙ ap (λ (s : Bytes). some (number plain s 1)) (reached-clauses t sel past h)
build_sql-described mysql t sel past h = ap some (reached-clauses t sel past h)
build_sql-described sqlite t sel past h = ap some (reached-clauses t sel past h)
build_sql-described unknown t sel past h = ap some (reached-clauses t sel past h)
