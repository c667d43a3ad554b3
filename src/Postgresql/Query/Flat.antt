-- ===== src/Postgresql/Query/Flat.antt =====
-- Queries of tuples: against the query of all their members in a row, and with arguments.
use ormpp.Base.{
  ℕ, suc, ◌+◌, ◌<◌, true, false, List, [], ◌∷◌, ◌++◌, map, length, Option, none, some, ◌==◌,
  if◌then◌else◌, Bytes, All, length-append, ◌≡◌, refl, sym, ap, ◌∙◌, arith,
}
use ormpp.Utility.Escape.{Value, to_str}
use ormpp.Utility.Select.{get_str, or_thrown, get_sql}
use ormpp.Postgresql.{Library, Driver}
use ormpp.Postgresql.Values.{Field, Member, assign}
use ormpp.Postgresql.Query.{
  cell, Item, object, value, count, assign_members, assign_items, tuple_rows, filled_text, run_text,
  query_tuples,
}

-- The members of the items, one behind the other
abbrev pub members_of : List Item → List Member
members_of [] = []
members_of (object members ∷ items) = members ++ members_of items
members_of (value m ∷ items) = m ∷ members_of items

abbrev pub joined : List (List Field) → List Field
joined [] = []
joined (fields ∷ rest) = fields ++ joined rest

module _ {Db : Type 0} (lib : Library Db) where
  assign_members-append :
      (ms ns : List Member) (i : ℕ) (cells : List (Option Bytes))
      → assign_members lib (ms ++ ns) i cells
        ≡ assign_members lib ms i cells ++ assign_members lib ns (i + length ms) cells
  unfolding assign_members
  assign_members-append [] ns i cells = ap (λ n. assign_members lib ns n cells) (omega arith)
  assign_members-append (m ∷ ms) ns i cells = ap (◌∷◌ (assign lib m (cell cells i))) (
      assign_members-append ms ns (i + 1) cells
      ∙ ap (λ n. assign_members lib ms (i + 1) cells ++ assign_members lib ns n cells)
          (omega arith))

  items_lem :
      (items : List Item) (i : ℕ) (cells : List (Option Bytes))
      → (joined (assign_items lib items i cells).0 ≡ assign_members lib (members_of items) i cells)
        × ((assign_items lib items i cells).1 ≡ i + length (members_of items))
  unfolding assign_items assign_members
  items_lem [] i cells = (refl, omega arith)
  items_lem (object members ∷ items) i cells =
      let (values, index) = items_lem items (i + length members) cells in
      (
        ap (λ s. assign_members lib members i cells ++ s) values
            ∙ sym (assign_members-append members (members_of items) i cells),
        omega (arith, index, length-append members (members_of items)),
      )
  items_lem (value m ∷ items) i cells =
      let (values, index) = items_lem items (i + 1) cells in
      (ap (◌∷◌ (assign lib m (cell cells i))) values, omega (arith, index))

  kept_row :
      (row : List (List Field)) (n : ℕ) → 0 < n → (if n == 0 then [] else row ∷ []) ≡ row ∷ []
  kept_row row n h = rw (positive n h) refl
    where
      positive : (n : ℕ) → 0 < n → (n == 0) ≡ false
      positive n h = ground arith

  -- A row of tuples has the values that a row of a struct with all the members of their items has, in order; each row
  -- is kept, since the tuple has a column.
  pub tuple_rows-assign_members :
      (items : List Item) (rows : List (List (Option Bytes)))
      → 0 < length (members_of items)
      → map joined (tuple_rows lib items rows) ≡ map (assign_members lib (members_of items) 0) rows
  unfolding tuple_rows
  tuple_rows-assign_members items [] h = refl
  tuple_rows-assign_members items (cells ∷ rows) h =
      let (values, index) = items_lem items 0 cells in
      let (row, count) = assign_items lib items 0 cells in
      ap (λ s. map joined (s ++ tuple_rows lib items rows))
        (kept_row row count (omega (arith, index, h)))
      ∙ ap (λ s. s ∷ map joined (tuple_rows lib items rows)) values
      ∙ ap (◌∷◌ (assign_members lib (members_of items) 0 cells))
          (tuple_rows-assign_members items rows h)

  abbrev pub NoQuestionMark : Bytes → Type 0
  NoQuestionMark s = All (λ c. (c == b'?') ≡ false) s

  get_str_missing : (sql s : Bytes) → NoQuestionMark sql → get_str sql s ≡ none
  unfolding get_str
  get_str_missing [] s h = refl
  get_str_missing (c ∷ sql) s h = rw (h.0, get_str_missing sql s h.1) refl

  counted : (n k : ℕ) → suc n ≡ k → (if suc n == 0 then true else suc n == k) ≡ true
  counted n k e = ground arith

  -- A query of tuples with arguments that is written with the placeholders of PostgreSQL throws: as many dollar signs
  -- as arguments are asked for, but the arguments replace question marks, and there is none.
  pub query_tuples-none :
      (items : List Item) (sql : Bytes) (arg : Value) (args : List Value) (d : Driver Db)
      → length (arg ∷ args) ≡ count b'$' sql
      → NoQuestionMark sql
      → query_tuples lib items sql (arg ∷ args) d ≡ none
  unfolding query_tuples get_sql
  query_tuples-none items sql arg args d same h =
      let text : Option Bytes = filled_text lib sql (arg ∷ args) in
      ap (λ b. if b then run_text lib items d text else some ([], d))
        (counted (length args) (count b'$' sql) same)
      ∙ ap (λ o. run_text lib items d (or_thrown (λ s. get_sql s args) o))
          (get_str_missing sql (to_str arg) h)
