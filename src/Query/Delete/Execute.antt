-- ===== src/Query/Delete/Execute.antt =====
-- What a delete with a partition may do.
use ormpp.Base.{
  ℕ, suc, ◌-◌, Bool, true, false, not, [], ◌∷◌, ◌++◌, Option, none, some, ◌==◌, if◌then◌else◌,
  Bytes, codes, All, Bool-cases, inl, inr, ◌≡◌, refl, ap, arith,
}
use ormpp.Utility.Keys.{Entity, sqlite, get_short_struct_name}
use ormpp.Query.Where.{WhereCondition, to_sql}
use ormpp.Utility.Escape.{Value, to_str}
use ormpp.Query.Where.Brackets.{
  depth, Balanced, IsHarmless, harmless-Balanced, append-Balanced, to_str-Balanced, inside,
  to_sql-inside, Filter, to_condition, HasPlainNames, to_condition-inside,
}
use ormpp.Query.Partition.{
  value, range_partition, RangePartitionDesc, partition_sql_literal, is_sql_identifier_char,
  all_identifier_chars, is_valid_sql_identifier, partition_range_predicate,
}
use ormpp.Query.Delete.{matching_in_partition, delete_context, build_sql}

abbrev then_read : ℕ → Option (Bytes × Bytes) → Option (Bytes × Bytes)
then_read c none = none
then_read c (some (inner, rest)) = some (c ∷ inner, rest)

-- The text up to the bracket that closes the one before it, and what follows: `d` brackets are open in it. A bracket
-- in a literal does not count.
unfoldable read_group : ℕ → Bool → Bytes → Option (Bytes × Bytes)
read_group d in_literal [] = none
read_group d in_literal (c ∷ cs) =
    let toggled = read_group d (not in_literal) cs in
    let deeper = read_group (suc d) in_literal cs in
    let higher = read_group (d - 1) in_literal cs in
    let same = read_group d in_literal cs in
    if c == b'\''
    then then_read c toggled
    else if in_literal
    then then_read c same
    else if c == b'('
    then then_read c deeper
    else if c == b')'
    then (if d == 0 then some ([], cs) else then_read c higher)
    else then_read c same

-- What the brackets at the beginning of a text enclose, and what follows them
unfoldable pub bracketed : Bytes → Option (Bytes × Bytes)
unfolding read_group
bracketed [] = none
bracketed (c ∷ cs) = if c == b'(' then read_group 0 false cs else none

no_depth :
    (k : ℕ) (in_literal : Bool) → depth k in_literal [] ≡ some 0 → (k ≡ 0) × (in_literal ≡ false)
unfolding depth
no_depth k in_literal e = ground arith

-- What leaves the depth as it was is read up to the bracket behind it.
read_group_lem :
    (s : Bytes) (k : ℕ) (in_literal : Bool) (rest : Bytes)
    → ((t : Bytes) → depth k in_literal (s ++ t) ≡ depth 0 false t)
    → read_group k in_literal (s ++ b')' ∷ rest) ≡ some (s, rest)
unfolding read_group depth
read_group_lem [] k in_literal rest h =
    let (none_open, outside) = no_depth k in_literal (h []) in rw (none_open, outside) refl
read_group_lem (c ∷ s) k true rest h = elim (Bool-cases (c == b'\'')) [
  | inl e ↦ rw e (ap (then_read c) (read_group_lem s k false rest (λ t. rw e at (h t))))
  | inr e ↦ rw e (ap (then_read c) (read_group_lem s k true rest (λ t. rw e at (h t))))
]
read_group_lem (c ∷ s) k false rest h = elim (Bool-cases (c == b'\'')) [
  | inl e ↦ rw e (ap (then_read c) (read_group_lem s k true rest (λ t. rw e at (h t))))
  | inr e ↦ elim (Bool-cases (c == b'(')) [
    | inl f ↦
        rw (e, f) (ap (then_read c) (read_group_lem s (suc k) false rest (λ t. rw (e, f) at (h t))))
    | inr f ↦ elim (Bool-cases (c == b')')) [
      | inl g ↦ elim (Bool-cases (k == 0)) [
        | inl z ↦ absurd (let no : none ≡ some 0 = rw (e, f, g, z) at (h []) in cc no)
        | inr z ↦
            rw (e, f, g, z)
              (ap (then_read c)
                (read_group_lem s (k - 1) false rest (λ t. rw (e, f, g, z) at (h t))))
      ]
      | inr g ↦
          rw (e, f, g)
            (ap (then_read c) (read_group_lem s k false rest (λ t. rw (e, f, g) at (h t))))
    ]
  ]
]

bracketed_lem :
    (s rest : Bytes) → Balanced s → bracketed (codes "(" ++ (s ++ b')' ∷ rest)) ≡ some (s, rest)
unfolding bracketed
bracketed_lem s rest h = read_group_lem s 0 false rest (h 0)

identifier_char-IsHarmless : (c : ℕ) → is_sql_identifier_char c ≡ true → IsHarmless c
unfolding is_sql_identifier_char
identifier_char-IsHarmless c h = ground arith

identifier_chars-IsHarmless : (s : Bytes) → all_identifier_chars s ≡ true → All IsHarmless s
unfolding all_identifier_chars
identifier_chars-IsHarmless [] h = tt
identifier_chars-IsHarmless (c ∷ s) h = elim (Bool-cases (is_sql_identifier_char c)) [
  | inl e ↦ (identifier_char-IsHarmless c e, identifier_chars-IsHarmless s (rw e at h))
  | inr e ↦ cc (rw e at h)
]

identifier-IsHarmless : (s : Bytes) → is_valid_sql_identifier s ≡ true → All IsHarmless s
unfolding is_valid_sql_identifier
identifier-IsHarmless [] h = tt
identifier-IsHarmless (c ∷ s) h = identifier_chars-IsHarmless (c ∷ s) (ground arith)

-- The range of a partition whose bounds are values.
range-Balanced :
    (field name : Bytes) (a b : Value)
    → is_valid_sql_identifier field ≡ true
    → Balanced (partition_range_predicate field (range_partition name (value a) (value b)))
unfolding partition_range_predicate range_partition partition_sql_literal
range-Balanced field name a b h =
    let named = harmless-Balanced field (identifier-IsHarmless field h) in
    append-Balanced field _ named (
      append-Balanced (codes ">=") _ (harmless-Balanced (codes ">=") (omega arith)) (
        append-Balanced (to_str a) _ (to_str-Balanced a) (
          append-Balanced (codes " AND ") _ (harmless-Balanced (codes " AND ") (omega arith)) (
            append-Balanced field _ named (
              append-Balanced (codes "<") _ (harmless-Balanced (codes "<") (omega arith))
                (to_str-Balanced b))))))

-- A delete with a partition on SQLite, which has no partitions, is confined to the partition's range also under a
-- filter, for any values as bounds and in the filter: its `WHERE` is two groups of brackets with an `AND` between them
-- and nothing behind. The first holds the range, and the second is the filter, so that no bracket, literal or `OR` of
-- the filter reaches out of it. A bracket in a literal does not count, and literals are those of the SQL standard; the
-- names of columns and operators hold no quote and no bracket.
pub build_sql-confined :
    (t : Entity) (field name : Bytes) (a b : Value) (f : Filter)
    → is_valid_sql_identifier field ≡ true
    → HasPlainNames f
    → let p = range_partition name (value a) (value b) in
      let request = matching_in_partition field p (to_condition f) in
      (condition : Bytes) × (build_sql sqlite t (delete_context request)
        ≡ (codes "DELETE FROM " ++ get_short_struct_name t) ++ (codes " WHERE " ++ condition))
      × (bracketed condition
          ≡ some (partition_range_predicate field p, codes " AND " ++ to_sql (to_condition f)))
      × (bracketed (to_sql (to_condition f)) ≡ some (inside (to_condition f), []))
unfolding build_sql delete_context
build_sql-confined t field name a b f h k =
    let p = range_partition name (value a) (value b) in
    let filter : Bytes = to_sql (to_condition f) in
    (
      codes "(" ++ (partition_range_predicate field p ++ (codes ") AND " ++ filter)),
      where_text t field p (to_condition f),
      bracketed_lem (partition_range_predicate field p) (codes " AND " ++ filter)
          (range-Balanced field name a b h),
      rw (to_sql-inside (to_condition f))
          (bracketed_lem (inside (to_condition f)) [] (to_condition-inside f k)),
    )
  where
    where_text :
        (t : Entity) (field : Bytes) (p : RangePartitionDesc) (w : WhereCondition)
        → build_sql sqlite t (delete_context (matching_in_partition field p w))
          ≡ (codes "DELETE FROM " ++ get_short_struct_name t)
            ++ (codes " WHERE "
                ++ (codes "("
                    ++ (partition_range_predicate field p ++ (codes ") AND " ++ to_sql w))))
    where_text t field p w = unfold to_sql in refl
