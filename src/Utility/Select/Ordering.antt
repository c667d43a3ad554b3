-- ===== src/Utility/Select/Ordering.antt =====
-- The text of a query by its condition: where `order by` and `limit` take the place of the `where`.
use ormpp.Base.{
  ℕ, Bool, true, false, ◌||◌, [], ◌∷◌, ◌++◌, if◌then◌else◌, Bytes, codes, ◌≡◌, refl, sym, ap, ◌∙◌,
  Bool-cases, inl, inr,
}
use ormpp.Utility.Keys.{Entity, DbType, get_short_struct_name}
use ormpp.Utility.Insert.{append}
use ormpp.Utility.Select.{
  contains_select, get_fields, has_prefix, before, opens_with, get_sql_conditions, any_nonempty,
  generate_query_sql,
}

abbrev keyword : Bytes
keyword = codes "where"

-- The word does not occur in the text.
abbrev pub Lacks : Bytes → Bytes → Type 0
Lacks word s = before word s ≡ s

Lacks-head : (c : ℕ) (s : Bytes) → Lacks keyword (c ∷ s) → has_prefix keyword (c ∷ s) ≡ false
unfolding before
Lacks-head c s h = elim (Bool-cases (has_prefix keyword (c ∷ s))) [
  | inr e ↦ e
  | inl e ↦ absurd (let f : [] ≡ c ∷ s = sym (found e) ∙ h in cc f)
]
  where
    found : has_prefix keyword (c ∷ s) ≡ true → before keyword (c ∷ s) ≡ []
    found e = ap (λ b. if b then [] else c ∷ before keyword s) e

before_step :
    (c : ℕ) (s : Bytes)
    → has_prefix keyword (c ∷ s) ≡ false
    → before keyword (c ∷ s) ≡ c ∷ before keyword s
unfolding before
before_step c s e = ap (λ b. if b then [] else c ∷ before keyword s) e

tail_of : {c d : ℕ} {s t : Bytes} → c ∷ s ≡ d ∷ t → s ≡ t
tail_of e = cc e

-- The word cannot begin in the text and end behind it, as its first byte does not occur again.
no_overlap :
    (c : ℕ) (s rest : Bytes)
    → has_prefix keyword (c ∷ s ++ (keyword ++ rest)) ≡ has_prefix keyword (c ∷ s)
no_overlap c [] rest = refl
no_overlap c (d ∷ []) rest = refl
no_overlap c (d ∷ e ∷ []) rest = refl
no_overlap c (d ∷ e ∷ f ∷ []) rest = refl
no_overlap c (d ∷ e ∷ f ∷ g ∷ s) rest = refl

before-append : (s rest : Bytes) → Lacks keyword s → before keyword (s ++ (keyword ++ rest)) ≡ s
unfolding before
before-append [] rest h = refl
before-append (c ∷ s) rest h =
    let first = Lacks-head c s h in
    before_step c (s ++ (keyword ++ rest)) (no_overlap c s rest ∙ first)
    ∙ ap (◌∷◌ c) (before-append s rest (tail_of (sym (before_step c s first) ∙ h)))

unfoldable pub select_head : DbType → Entity → Bytes
unfolding append get_fields
select_head db t =
    append (codes "select ") (get_fields db t ∷ codes "from" ∷ get_short_struct_name t ∷ [])

-- The condition is an ordering or a limit.
abbrev pub is_ordering : Bytes → Bool
is_ordering arg = opens_with (codes "order by") arg || opens_with (codes "limit") arg

-- The text by the condition, without the cut
abbrev pub described : Bytes → Bytes → Bytes
described head arg =
    if contains_select arg
    then arg
    else if is_ordering arg
    then append head (arg ∷ [])
    else append head (codes "where 1=1 and " ∷ arg ∷ [])

-- The three tests on a text that is cut at most once
module _ (arg full head : Bytes) (put : Bytes → Bytes) (h : before keyword full ≡ head)
    (k : before keyword head ≡ head) where
  cut_lem :
      (query ordered limited : Bool)
      → let once = if ordered then before keyword full else full in
        (if query then arg else put (if limited then before keyword once else once))
        ≡ (if query then arg else if ordered || limited then put head else put full)
  cut_lem true ordered limited = refl
  cut_lem false true true = ap put (ap (before keyword) h ∙ k)
  cut_lem false true false = ap put h
  cut_lem false false true = ap put h
  cut_lem false false false = refl

cut_twice :
    (head arg : Bytes)
    → Lacks keyword head
    → get_sql_conditions (append head (codes "where 1=1 and " ∷ [])) (arg ∷ []) ≡ described head arg
unfolding get_sql_conditions append
cut_twice head arg h =
    let full = append head (codes "where 1=1 and " ∷ []) in
    cut_lem arg full head (λ s. append s (arg ∷ [])) (before-append head (codes " 1=1 and  ") h) h
      (contains_select arg) (opens_with (codes "order by") arg) (opens_with (codes "limit") arg)

-- The query of one condition that is not empty: a condition that is itself a query is taken as it is, an
-- ordering or a limit stands directly behind the table, and any other condition stands behind the `where`. The
-- names of the columns and of the table must not have `where` in them, since the text is cut there.
pub generate_query_sql-described :
    (db : DbType) (t : Entity) (c : ℕ) (arg : Bytes)
    → Lacks (codes "where") (select_head db t)
    → generate_query_sql db t ((c ∷ arg) ∷ []) ≡ described (select_head db t) (c ∷ arg)
unfolding generate_query_sql any_nonempty select_head
generate_query_sql-described db t c arg h = cut_twice (select_head db t) (c ∷ arg) h
