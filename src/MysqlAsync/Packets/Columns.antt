-- ===== src/MysqlAsync/Packets/Columns.antt =====
-- A column definition as the protocol lays it out, and what the driver reads of it.
use ormpp.Base.{
  ◌<◌, ◌≤◌, [], ◌∷◌, ◌++◌, some, leb, Bytes, length, drop, length-append, append_assoc, Bool-cases,
  inl, inr, ◌≡◌, refl, arith,
}
use ormpp.MysqlAsync.Reader.{
  ◌>>=◌, ◌>>◌, le_bytes, skip, read_lenenc_int, append_lenenc_int, append_lenenc_string,
}
use ormpp.MysqlAsync.Reader.RoundTrip.{
  uint64_mod, read_lenenc_int-append, read_lenenc_string-append, read_le_enough, read_byte_enough,
}
use ormpp.MysqlAsync.Packets.{
  ColumnDefinition, skip_filler, read_column_tail, read_column_definition, parse_column_definition,
}

column_tail : ColumnDefinition → Bytes
column_tail c =
    0x0c
    ∷ (le_bytes 2 c.character_set
        ++ (le_bytes 4 c.column_length
            ++ (c.column_type ∷ (le_bytes 2 c.flags ++ (c.decimals ∷ 0 ∷ 0 ∷ [])))))

-- A column definition as the protocol lays it out: the catalog comes first.
unfoldable pub column_payload : Bytes → ColumnDefinition → Bytes
unfolding column_tail
column_payload catalog c =
    append_lenenc_string catalog
    ++ (append_lenenc_string c.schema
        ++ (append_lenenc_string c.table
            ++ (append_lenenc_string c.org_table
                ++ (append_lenenc_string c.name
                    ++ (append_lenenc_string c.org_name ++ column_tail c)))))

length-column_tail : (c : ColumnDefinition) → length (column_tail c) ≡ 13
unfolding column_tail le_bytes
length-column_tail c = refl

skip_filler_total : (s : Bytes) → (rest : Bytes) × (skip_filler s ≡ some (tt, rest))
unfolding skip_filler skip
skip_filler_total s = elim (Bool-cases (leb 2 (length s))) [
  | inl e ↦ (drop 2 s, rw e)
  | inr e ↦ (s, rw e)
]

-- The texts of a column definition
abbrev pub HasTexts : Bytes → Bytes → Bytes → Bytes → Bytes → ColumnDefinition → Type 0
HasTexts schema table org_table name org_name c =
    (c.schema ≡ schema)
    × (c.table ≡ table)
    × (c.org_table ≡ org_table)
    × (c.name ≡ name)
    × (c.org_name ≡ org_name)

module _ (schema table org_table name org_name : Bytes) where
  column_tail_read :
      (s : Bytes)
      → 10 ≤ length s
      → (c : ColumnDefinition) × (rest : Bytes) × (read_column_tail schema table org_table name
            org_name s
          ≡ some (c, rest))
        × HasTexts schema table org_table name org_name c
  unfolding read_column_tail
  column_tail_read s h =
      let (v1, s1, e1, l1) = read_le_enough 2 s (omega arith) in
      let (v2, s2, e2, l2) = read_le_enough 4 s1 (omega (arith, l1)) in
      let (v3, s3, e3, l3) = read_byte_enough s2 (omega (arith, l1, l2)) in
      let (v4, s4, e4, l4) = read_le_enough 2 s3 (omega (arith, l1, l2, l3)) in
      let (v5, s5, e5, l5) = read_byte_enough s4 (omega (arith, l1, l2, l3, l4)) in
      let (s6, e6) = skip_filler_total s5 in
      (
        record {
          schema = schema;
          table = table;
          org_table = org_table;
          name = name;
          org_name = org_name;
          character_set = v1;
          column_length = v2;
          column_type = v3;
          flags = v4;
          decimals = v5;
        },
        s6,
        rw (e1, e2, e3, e4, e5, e6, ◌>>=◌, ◌>>◌) refl,
        (refl, refl, refl, refl, refl),
      )

-- The texts of the definition have lengths of eight bytes.
pub record IsShortDefinition (catalog : Bytes) (c : ColumnDefinition) : Type 0 where
  pub catalog_short : length catalog < uint64_mod
  pub schema_short : length c.schema < uint64_mod
  pub table_short : length c.table < uint64_mod
  pub org_table_short : length c.org_table < uint64_mod
  pub name_short : length c.name < uint64_mod
  pub org_name_short : length c.org_name < uint64_mod

-- The last text is read as the number of its length, and left in front of the tail.
last_text_read :
    (c : ColumnDefinition)
    → length c.org_name < uint64_mod
    → read_lenenc_int (append_lenenc_string c.org_name ++ column_tail c)
      ≡ some (length c.org_name, c.org_name ++ column_tail c)
unfolding append_lenenc_string
last_text_read c h =
    rw (append_assoc (append_lenenc_int (length c.org_name)) c.org_name (column_tail c))
      (read_lenenc_int-append (length c.org_name) (c.org_name ++ column_tail c) h)

-- A column definition of the protocol is always read, but each text lands one field too late, since
-- the protocol begins with the catalog: the catalog is taken for the schema, the schema for the table,
-- and so on, and the original name is lost.
pub parse_column_definition-column_payload :
    (catalog : Bytes) (c : ColumnDefinition)
    → IsShortDefinition catalog c
    → (read : ColumnDefinition) × (parse_column_definition (column_payload catalog c) ≡ some read)
      × HasTexts catalog c.schema c.table c.org_table c.name read
unfolding parse_column_definition column_payload read_column_definition
parse_column_definition-column_payload catalog c f =
    let r5 : Bytes = append_lenenc_string c.org_name ++ column_tail c in
    let r4 : Bytes = append_lenenc_string c.name ++ r5 in
    let r3 : Bytes = append_lenenc_string c.org_table ++ r4 in
    let r2 : Bytes = append_lenenc_string c.table ++ r3 in
    let r1 : Bytes = append_lenenc_string c.schema ++ r2 in
    let (read, rest, e, texts) =
      column_tail_read catalog c.schema c.table c.org_table c.name (c.org_name ++ column_tail c)
        (omega (arith, length-append c.org_name (column_tail c), length-column_tail c)) in
    (
      read,
      rw
          (
            read_lenenc_string-append catalog r1 f.catalog_short,
            read_lenenc_string-append c.schema r2 f.schema_short,
            read_lenenc_string-append c.table r3 f.table_short,
            read_lenenc_string-append c.org_table r4 f.org_table_short,
            read_lenenc_string-append c.name r5 f.name_short,
            last_text_read c f.org_name_short,
            e,
            ◌>>=◌,
            ◌>>◌,
          )
          refl,
      texts,
    )
