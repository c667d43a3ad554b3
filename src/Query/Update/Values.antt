-- ===== src/Query/Update/Values.antt =====
-- What the values of an update can do to its text.
use ormpp.Base.{List, [], ◌∷◌, ◌++◌, some, Bytes, codes, All, refl, arith}
use ormpp.Utility.Escape.{to_str}
use ormpp.Utility.Keys.{Entity, get_short_struct_name}
use ormpp.Query.Where.{to_sql}
use ormpp.Query.Where.Brackets.{
  Balanced, IsHarmless, harmless-Balanced, append-Balanced, to_str-Balanced, Filter, to_condition,
  HasPlainNames, to_condition-Balanced,
}
use ormpp.Query.Partition.{raw_sql, value}
use ormpp.Query.Delete.{build_update_sql}
use ormpp.Query.Update.{Assignment, set, set_null, append_set, set_more, update_context}

-- The column's name has no bracket and no quote, and raw SQL is balanced.
abbrev pub IsPlainSet : Assignment → Type 0
IsPlainSet (set field (raw_sql raw)) = All IsHarmless field.name × Balanced raw
IsPlainSet (set field (value v)) = All IsHarmless field.name
IsPlainSet (set_null field) = All IsHarmless field.name

assigned-Balanced :
    (sql name text : Bytes)
    → Balanced sql
    → All IsHarmless name
    → Balanced text
    → Balanced (sql ++ (name ++ text))
assigned-Balanced sql name text h k l =
    append-Balanced sql (name ++ text) h (append-Balanced name text (harmless-Balanced name k) l)

append_set-Balanced :
    (sql : Bytes) (a : Assignment) → Balanced sql → IsPlainSet a → Balanced (append_set sql a)
unfolding append_set
append_set-Balanced sql (set field (raw_sql raw)) h p =
    assigned-Balanced sql field.name (codes "=" ++ raw) h p.0
      (append-Balanced (codes "=") raw (harmless-Balanced (codes "=") (omega arith)) p.1)
append_set-Balanced sql (set field (value v)) h p =
    assigned-Balanced sql field.name (codes "=" ++ to_str v) h p (
      append-Balanced (codes "=") (to_str v) (harmless-Balanced (codes "=") (omega arith))
        (to_str-Balanced v))
append_set-Balanced sql (set_null field) h p =
    assigned-Balanced sql field.name (codes "=NULL") h p
      (harmless-Balanced (codes "=NULL") (omega arith))

set_more-Balanced :
    (sql : Bytes) (more : List Assignment)
    → Balanced sql
    → All IsPlainSet more
    → Balanced (set_more sql more)
unfolding set_more
set_more-Balanced sql [] h p = h
set_more-Balanced sql (a ∷ more) h p =
    set_more-Balanced (append_set (sql ++ codes ",") a) more
      (append_set-Balanced (sql ++ codes ",") a
        (append-Balanced sql (codes ",") h (harmless-Balanced (codes ",") (omega arith))) p.0)
      p.1

update_head-Balanced :
    (t : Entity) (clause : Bytes)
    → All IsHarmless (get_short_struct_name t)
    → Balanced clause
    → Balanced (codes "UPDATE " ++ (get_short_struct_name t ++ (codes " SET " ++ clause)))
update_head-Balanced t clause h k =
    assigned-Balanced (codes "UPDATE ") (get_short_struct_name t) (codes " SET " ++ clause)
      (harmless-Balanced (codes "UPDATE ") (omega arith)) h
      (append-Balanced (codes " SET ") clause (harmless-Balanced (codes " SET ") (omega arith)) k)

-- The brackets of an update match outside literals, and every literal in it is closed, whatever values
-- it sets and compares with, text of any bytes included: the table and the columns have plain names,
-- and raw SQL that is set is balanced itself.
build_update_sql-Balanced :
    (t : Entity) (a : Assignment) (more : List Assignment) (f : Filter)
    → All IsHarmless (get_short_struct_name t)
    → IsPlainSet a
    → All IsPlainSet more
    → HasPlainNames f
    → Balanced (build_update_sql t (update_context a more (some (to_condition f))))
unfolding build_update_sql update_context to_sql
build_update_sql-Balanced t a more f table first later plain =
    let clause : Bytes = set_more (append_set [] a) more in
    append-Balanced (codes "UPDATE " ++ (get_short_struct_name t ++ (codes " SET " ++ clause)))
      (codes " WHERE " ++ to_sql (to_condition f))
      (update_head-Balanced t clause table (
        set_more-Balanced (append_set [] a) more (append_set-Balanced [] a (λ d rest. refl) first)
          later))
      (append-Balanced (codes " WHERE ") (to_sql (to_condition f))
        (harmless-Balanced (codes " WHERE ") (omega arith)) (to_condition-Balanced f plain))
