-- ===== src/Query/Create/Items.antt =====
-- The text of `CREATE TABLE` as its items.
use ormpp.Base.{
  Bool, true, false, List, [], ◌∷◌, ◌++◌, Bytes, codes, map, append-nil, append_assoc,
  back_or-concat, pop_back-concat, ◌||◌, ◌≡◌, refl, sym, ap, ◌∙◌,
}
use ormpp.Utility.Keys.{Entity, DbType, sqlite, get_short_struct_name}
use ormpp.Query.Where.{ColInfo}
use ormpp.Query.Create.{
  TableBuilder, is_auto, primary_key, column_text, commas, listed, auto_inline_pk, primary_key_text,
  unique_text, foreign_key_text, check_text, body, table_options, drop_comma, create_head,
  generate_sql,
}

primary_key_items : Bool → List Bytes → List Bytes
primary_key_items false (k ∷ ks) = (codes "PRIMARY KEY (" ++ (listed (k ∷ ks) ++ codes ")")) ∷ []
primary_key_items _ _ = []

-- The columns, the primary key where it does not stand with its column, and the constraints.
unfoldable pub items : DbType → TableBuilder → List (Bytes × Bytes) → List Bytes
unfolding primary_key_items
items kind b columns =
    map (column_text kind b) columns
    ++ (primary_key_items (auto_inline_pk kind b columns) b.primary_keys
        ++ (map unique_text b.unique_constraints
            ++ (map foreign_key_text b.foreign_keys ++ map check_text b.check_constraints)))

pub commas-append : (l m : List Bytes) → commas (l ++ m) ≡ commas l ++ commas m
unfolding commas
commas-append [] m = refl
commas-append (i ∷ l) m = rw (commas-append l m, append_assoc i) refl

primary_key_text-commas :
    (inline : Bool) (ks : List Bytes)
    → primary_key_text inline ks ≡ commas (primary_key_items inline ks)
unfolding primary_key_text primary_key_items commas
primary_key_text-commas true ks = refl
primary_key_text-commas false [] = refl
primary_key_text-commas false (k ∷ ks) =
    ap (codes "PRIMARY KEY (" ++◌) (sym (append_assoc (listed (k ∷ ks)) (codes ")") (codes ",")))

pub commas-listed : (i : Bytes) (l : List Bytes) → commas (i ∷ l) ≡ listed (i ∷ l) ++ b',' ∷ []
unfolding commas listed
commas-listed i [] = refl
commas-listed i (j ∷ l) =
    ap (λ (s : Bytes). i ++ b',' ∷ s) (commas-listed j l)
    ∙ sym (append_assoc i (b',' ∷ listed (j ∷ l)) (b',' ∷ []))

body-items :
    (kind : DbType) (b : TableBuilder) (columns : List (Bytes × Bytes))
    → body kind b columns ≡ commas (items kind b columns)
unfolding body items
body-items kind b columns =
    rw (commas-append, commas-append, commas-append, commas-append, primary_key_text-commas) refl

drop_comma-comma : (s : Bytes) → drop_comma (s ++ b',' ∷ []) ≡ s
drop_comma-comma s = rw (back_or-concat 0 s b',', pop_back-concat s b',')

drop_comma-head : (s : Bytes) → drop_comma (s ++ b'(' ∷ []) ≡ s ++ b'(' ∷ []
drop_comma-head s = rw (back_or-concat 0 s b'(')

drop_comma-listed :
    (s : Bytes) (l : List Bytes)
    → drop_comma ((s ++ b'(' ∷ []) ++ commas l) ≡ (s ++ b'(' ∷ []) ++ listed l
drop_comma-listed s [] =
    unfold commas listed in rw (append-nil (s ++ b'(' ∷ [])) (drop_comma-head s)
drop_comma-listed s (i ∷ l) =
    let head : Bytes = s ++ b'(' ∷ [] in
    ap (λ (e : Bytes). drop_comma (head ++ e)) (commas-listed i l)
    ∙ ap drop_comma (sym (append_assoc head (listed (i ∷ l)) (b',' ∷ [])))
    ∙ drop_comma-comma (head ++ listed (i ∷ l))

-- A table is created with its columns, a primary key, and its constraints, in this order, with commas
-- between them and none behind the last, in one pair of brackets, and then the database's options,
-- whatever has been set on the builder.
pub generate_sql-items :
    (kind : DbType) (b : TableBuilder) (t : Entity) (columns : List (Bytes × Bytes))
    → generate_sql kind b t columns
      ≡ (create_head t ++ listed (items kind b columns)) ++ (codes ")" ++ table_options kind b)
unfolding generate_sql
generate_sql-items kind b t columns =
    ap (λ (sql : Bytes). drop_comma sql ++ (codes ")" ++ table_options kind b))
      (ap (create_head t ++◌) (body-items kind b columns))
    ∙ ap (◌++ (codes ")" ++ table_options kind b)) (
        drop_comma-listed (codes "CREATE TABLE IF NOT EXISTS " ++ get_short_struct_name t)
          (items kind b columns))

module _ (b : TableBuilder) (c : ColInfo) where
  column_texts-primary_key :
      (columns : List (Bytes × Bytes))
      → map (column_text sqlite (primary_key c b)) columns ≡ map (column_text sqlite b) columns
  unfolding column_text primary_key
  column_texts-primary_key [] = refl
  column_texts-primary_key ((name, type_str) ∷ columns) =
      ap (column_text sqlite b (name, type_str) ∷◌) (column_texts-primary_key columns)

  auto_inline_pk-primary_key :
      (columns : List (Bytes × Bytes))
      → auto_inline_pk sqlite (primary_key c b) columns ≡ auto_inline_pk sqlite b columns
  unfolding auto_inline_pk primary_key
  auto_inline_pk-primary_key [] = refl
  auto_inline_pk-primary_key ((name, type_str) ∷ columns) =
      ap (is_auto b name ||◌) (auto_inline_pk-primary_key columns)

  body-primary_key :
      (columns : List (Bytes × Bytes))
      → auto_inline_pk sqlite b columns ≡ true
      → body sqlite (primary_key c b) columns ≡ body sqlite b columns
  unfolding body primary_key_text
  body-primary_key columns h =
      rw (column_texts-primary_key columns, auto_inline_pk-primary_key columns, h)
        (unfold primary_key in refl)

-- On SQLite, where the auto key is a member, a further primary key is lost: the statement is the same
-- with it as without it, for any column.
generate_sql-primary_key :
    (b : TableBuilder) (c : ColInfo) (t : Entity) (columns : List (Bytes × Bytes))
    → auto_inline_pk sqlite b columns ≡ true
    → generate_sql sqlite (primary_key c b) t columns ≡ generate_sql sqlite b t columns
unfolding generate_sql table_options
generate_sql-primary_key b c t columns h =
    ap (λ (text : Bytes). drop_comma (create_head t ++ text) ++ (codes ")" ++ []))
      (body-primary_key b c columns h)
