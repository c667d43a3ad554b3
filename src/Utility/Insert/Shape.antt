-- ===== src/Utility/Insert/Shape.antt =====
-- The text of an insert statement, piece by piece.
use ormpp.Base.{
  ℕ, suc, Bool, true, false, not, ◌&&◌, List, [], ◌∷◌, ◌++◌, ◌==◌, if◌then◌else◌, Bytes, codes,
  pop_back, back_or, pop_back-concat, back_or-concat, append_assoc, append-nil, Bool-cases, inl,
  inr, ◌≡◌, refl, sym, ap, ◌∙◌, arith,
}
use mathlib.Core.Path.{ap₂}
use ormpp.Utility.Keys.{
  Entity, Registry, DbType, is_postgresql, quoted, get_short_struct_name, is_auto_key,
}
use ormpp.Utility.Insert.{
  Columns, placeholder, separator, add_column, columns_loop, close, opened, statement,
  generate_plain_sql, generate_insert_sql,
}

-- The members that the loop does not skip.
abbrev pub kept : (Bytes → Bool) → List Bytes → List Bytes
kept skip [] = []
kept skip (n ∷ ns) = if skip n then kept skip ns else n ∷ kept skip ns

-- Each item with a comma behind it; an item is made from its index and its member.
abbrev commas : (ℕ → Bytes → Bytes) → ℕ → List Bytes → Bytes
commas item i [] = []
commas item i (n ∷ ns) = item i n ++ (b',' ∷ commas item (suc i) ns)

-- One of the two texts of the loop.
abbrev text_loop : (ℕ → Bytes → Bytes) → (Bytes → Bool) → ℕ → List Bytes → Bytes → Bytes
text_loop item skip i [] s = s
text_loop item skip i (n ∷ ns) s =
    text_loop item skip (if skip n then i else suc i) ns
      (if skip n then s else s ++ (item i n ++ separator ns))

close_comma : (s : Bytes) → close (s ++ b',' ∷ []) ≡ s ++ b')' ∷ []
close_comma s = rw (back_or-concat 0 s b',', pop_back-concat s b',')

abbrev NotClosed : Bytes → Type 0
NotClosed s = (back_or 0 s == b')') ≡ false

close-concat_paren : (s : Bytes) → close (s ++ b')' ∷ []) ≡ s ++ b')' ∷ []
close-concat_paren s = rw (back_or-concat 0 s b')')

comma-NotClosed : (s item : Bytes) → NotClosed (s ++ (item ++ b',' ∷ []))
comma-NotClosed s item = rw (← append_assoc s item) (rw (back_or-concat 0 (s ++ item) b','))

module _ (item : ℕ → Bytes → Bytes) (skip : Bytes → Bool) where
  close-text_loop :
      (i : ℕ) (ns : List Bytes) (s : Bytes)
      → NotClosed s
      → close (text_loop item skip i ns s)
        ≡ pop_back (s ++ commas item i (kept skip ns)) ++ b')' ∷ []
  close-text_loop i [] s h = rw (h, append-nil)
  close-text_loop i (n ∷ ns) s h = elim (Bool-cases (skip n)) [
    | inl e ↦ rw e (close-text_loop i ns s h)
    | inr e ↦ rw e (
        item_kept i n ns s (
          close-text_loop (suc i) ns (s ++ (item i n ++ b',' ∷ [])) (comma-NotClosed s (item i n))))
  ]
    where
      item_kept :
          (i : ℕ) (n : Bytes) (ns : List Bytes) (s : Bytes)
          → close (text_loop item skip (suc i) ns (s ++ (item i n ++ b',' ∷ [])))
            ≡ pop_back ((s ++ (item i n ++ b',' ∷ [])) ++ commas item (suc i) (kept skip ns))
              ++ b')' ∷ []
          → close (text_loop item skip (suc i) ns (s ++ (item i n ++ separator ns)))
            ≡ pop_back (s ++ (item i n ++ (b',' ∷ commas item (suc i) (kept skip ns)))) ++ b')' ∷ []
      item_kept i n [] s ih =
          rw (← append_assoc s (item i n), ← append_assoc s (item i n))
            (rw (close-concat_paren (s ++ item i n), pop_back-concat (s ++ item i n) b','))
      item_kept i n (m ∷ ms) s ih = ih ∙ rw (append_assoc s, append_assoc (item i n))

-- The items with a comma between two of them.
abbrev pub joined : (ℕ → Bytes → Bytes) → ℕ → Bytes → List Bytes → Bytes
joined item i n [] = item i n
joined item i n (m ∷ ms) = item i n ++ (b',' ∷ joined item (suc i) m ms)

pop_back-commas :
    (item : ℕ → Bytes → Bytes) (i : ℕ) (n : Bytes) (ns : List Bytes) (s : Bytes)
    → pop_back (s ++ commas item i (n ∷ ns)) ≡ s ++ joined item i n ns
pop_back-commas item i n [] s =
    rw (← append_assoc s (item i n)) (pop_back-concat (s ++ item i n) b',')
pop_back-commas item i n (m ∷ ms) s =
    ap pop_back (sym (regroup (commas item (suc i) (m ∷ ms))))
    ∙ pop_back-commas item (suc i) m ms ((s ++ item i n) ++ b',' ∷ [])
    ∙ regroup (joined item (suc i) m ms)
  where
    regroup :
        (rest : Bytes) → ((s ++ item i n) ++ b',' ∷ []) ++ rest ≡ s ++ (item i n ++ (b',' ∷ rest))
    regroup rest = rw (append_assoc (s ++ item i n), append_assoc s)

abbrev pub field_item : DbType → ℕ → Bytes → Bytes
field_item db i n = quoted db n

abbrev pub value_item : DbType → ℕ → Bytes → Bytes
value_item db i n = placeholder db i

module _ (db : DbType) (skip : Bytes → Bool) where
  loop_skipped :
      (n : Bytes) (ns : List Bytes) (a : Columns)
      → skip n ≡ true
      → columns_loop db skip (n ∷ ns) a ≡ columns_loop db skip ns a
  unfolding columns_loop
  loop_skipped n ns a e =
      ap (λ (b : Bool). columns_loop db skip ns (if b then a else add_column db n ns a)) e

  loop_kept :
      (n : Bytes) (ns : List Bytes) (a : Columns)
      → skip n ≡ false
      → columns_loop db skip (n ∷ ns) a ≡ columns_loop db skip ns (add_column db n ns a)
  unfolding columns_loop
  loop_kept n ns a e =
      ap (λ (b : Bool). columns_loop db skip ns (if b then a else add_column db n ns a)) e

  columns_loop-fields :
      (i : ℕ) (ns : List Bytes) (a : Columns)
      → (columns_loop db skip ns a).fields ≡ text_loop (field_item db) skip i ns a.fields
  columns_loop-fields i [] a = unfold columns_loop in refl
  columns_loop-fields i (n ∷ ns) a = elim (Bool-cases (skip n)) [
    | inl e ↦ rw (loop_skipped n ns a e, e) (columns_loop-fields i ns a)
    | inr e ↦
        rw (loop_kept n ns a e, e)
          (columns_loop-fields (suc i) ns (add_column db n ns a) ∙ unfold add_column in refl)
  ]

  add_column-values :
      (i : ℕ) (n : Bytes) (ns : List Bytes) (a : Columns)
      → (is_postgresql db ≡ true → a.index ≡ i)
      → (is_postgresql db ≡ true → (add_column db n ns a).index ≡ suc i)
        × ((add_column db n ns a).values ≡ a.values ++ (value_item db i n ++ separator ns))
  unfolding add_column
  add_column-values i n ns a h = elim (Bool-cases (is_postgresql db)) [
    | inl e ↦ (λ _. rw e (omega (arith, h e)), rw (h e))
    | inr e ↦ (λ t. cc (e, t), rw e)
  ]

  columns_loop-values :
      (i : ℕ) (ns : List Bytes) (a : Columns)
      → (is_postgresql db ≡ true → a.index ≡ i)
      → (columns_loop db skip ns a).values ≡ text_loop (value_item db) skip i ns a.values
  columns_loop-values i [] a h = unfold columns_loop in refl
  columns_loop-values i (n ∷ ns) a h = elim (Bool-cases (skip n)) [
    | inl e ↦ rw (loop_skipped n ns a e, e) (columns_loop-values i ns a h)
    | inr e ↦
        let (next, text) = add_column-values i n ns a h in
        rw (loop_kept n ns a e, e)
          (columns_loop-values (suc i) ns (add_column db n ns a) next
            ∙ ap (text_loop (value_item db) skip (suc i) ns) text)
  ]

-- The columns and the values of an insert statement, with their brackets.
abbrev pub field_list : DbType → Bytes → List Bytes → Bytes
field_list db n ns = codes "(" ++ (joined (field_item db) 0 n ns ++ codes ")")

abbrev pub value_list : DbType → Bytes → List Bytes → Bytes
value_list db n ns = codes "values(" ++ (joined (value_item db) 0 n ns ++ codes ")")

module _ (db : DbType) (skip : Bytes → Bool) (names : List Bytes) where
  close_items :
      (item : ℕ → Bytes → Bytes) (n : Bytes) (ns : List Bytes) (s : Bytes)
      → kept skip names ≡ n ∷ ns
      → NotClosed s
      → close (text_loop item skip 0 names s) ≡ s ++ (joined item 0 n ns ++ codes ")")
  close_items item n ns s e h =
      close-text_loop item skip 0 names s h
      ∙ ap (λ (l : List Bytes). pop_back (s ++ commas item 0 l) ++ codes ")") e
      ∙ rw (pop_back-commas item 0 n ns s) (append_assoc s _ _)

  close_no_items :
      (item : ℕ → Bytes → Bytes) (s : Bytes)
      → kept skip names ≡ []
      → NotClosed s
      → close (text_loop item skip 0 names s) ≡ pop_back s ++ codes ")"
  close_no_items item s e h =
      close-text_loop item skip 0 names s h
      ∙ ap (λ (l : List Bytes). pop_back (s ++ commas item 0 l) ++ codes ")") e
      ∙ rw append-nil

module _ (db : DbType) (insert : Bool) (r : Registry) (t : Entity) where
  -- The members that the statement gives a value: on `insert`, all but the auto key.
  abbrev pub columns_of : List Bytes
  columns_of = kept (λ name. insert && is_auto_key r t name) t.member_names

  -- Where a struct has a member that gets a value, the statement names these members in order, each
  -- once, with commas between them, quoted as the database wants it, and has one placeholder for
  -- each, numbered from 1 on PostgreSQL. An auto key may stand first, last or between the others.
  pub generate_plain_sql-statement :
      (n : Bytes) (ns : List Bytes)
      → columns_of ≡ n ∷ ns
      → generate_plain_sql db insert r t
        ≡ statement insert (get_short_struct_name t) (field_list db n ns) (value_list db n ns)
  unfolding generate_plain_sql
  generate_plain_sql-statement n ns e =
      ap₂ (statement insert (get_short_struct_name t))
        (ap close (columns_loop-fields db _ 0 t.member_names opened)
          ∙ close_items db _ t.member_names (field_item db) n ns (codes "(") e refl)
        (ap close (columns_loop-values db _ 0 t.member_names opened (λ _. refl))
          ∙ close_items db _ t.member_names (value_item db) n ns (codes "values(") e refl)

  -- Where it has none, because its only member is the auto key, both lists lose their opening
  -- bracket: the statement is no SQL.
  pub generate_plain_sql_no_columns :
      columns_of ≡ []
      → generate_plain_sql db insert r t
        ≡ statement insert (get_short_struct_name t) (codes ")") (codes "values)")
  unfolding generate_plain_sql
  generate_plain_sql_no_columns e =
      ap₂ (statement insert (get_short_struct_name t))
        (ap close (columns_loop-fields db _ 0 t.member_names opened)
          ∙ close_no_items db _ t.member_names (field_item db) (codes "(") e refl)
        (ap close (columns_loop-values db _ 0 t.member_names opened (λ _. refl))
          ∙ close_no_items db _ t.member_names (value_item db) (codes "values(") e refl)

-- The same of `generate_insert_sql`, but for `replace` on PostgreSQL.
module _ (db : DbType) (insert : Bool) (r : Registry) (t : Entity) (args : List Bytes) where
  -- Where a struct has a member that gets a value, an insert (or, but on PostgreSQL, a replace) names
  -- these members in order, each once, with commas between them, quoted as the database wants it, and
  -- has one placeholder for each, numbered from 1 on PostgreSQL, wherever the auto key stands.
  pub generate_insert_sql-statement :
      (n : Bytes) (ns : List Bytes)
      → (is_postgresql db && not insert) ≡ false
      → columns_of db insert r t ≡ n ∷ ns
      → generate_insert_sql db insert r t args
        ≡ statement insert (get_short_struct_name t) (field_list db n ns) (value_list db n ns)
  unfolding generate_insert_sql
  generate_insert_sql-statement n ns h e = rw h (generate_plain_sql-statement db insert r t n ns e)

  -- Where it has none, because its only member is the auto key, both lists lose their opening
  -- bracket: the statement is no SQL.
  generate_insert_sql_no_columns :
      (is_postgresql db && not insert) ≡ false
      → columns_of db insert r t ≡ []
      → generate_insert_sql db insert r t args
        ≡ statement insert (get_short_struct_name t) (codes ")") (codes "values)")
  unfolding generate_insert_sql
  generate_insert_sql_no_columns h e = rw h (generate_plain_sql_no_columns db insert r t e)
