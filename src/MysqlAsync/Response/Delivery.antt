-- ===== src/MysqlAsync/Response/Delivery.antt =====
-- The packets on the socket, and how the columns and the rows are read from them.
use ormpp.Base.{
  ℕ, zero, suc, ◌<◌, ◌%◌, true, false, List, [], ◌∷◌, ◌++◌, map, Option, none, some, Bytes, length,
  append_assoc, All, ◌≡◌, refl, sym, ap, ◌∙◌, arith,
}
use ormpp.MysqlAsync.Reader.{append_lenenc_int, append_lenenc_string, le_bytes}
use ormpp.MysqlAsync.Packets.{
  OkPacket, ColumnDefinition, is_err_packet, looks_like_eof_packet, parse_ok_packet,
  parse_column_definition, parse_text_row,
}
use ormpp.MysqlAsync.Packets.RoundTrip.{
  Fits, ok_payload, parse_ok_packet-ok_payload, row_payload, IsShort, parse_text_row-row_payload,
}
use ormpp.MysqlAsync.Packets.Columns.{
  HasTexts, column_payload, IsShortDefinition, parse_column_definition-column_payload,
}
use ormpp.MysqlAsync.Frames.{read_packet}
use ormpp.MysqlAsync.Response.{
  Link, gives, go_on, ◌>>=◌, ◌>>◌, receive, escapes_backslash, apply_ok, read_columns, read_rows,
}

-- The packets stand at the beginning of the bytes, each in its frames: `rest` is behind them, and `last`
-- is the id behind the last frame.
abbrev pub Delivered : List Bytes → Bytes → ℕ → Bytes → ℕ → Type 0
Delivered [] s id rest last = (s ≡ rest) × (id ≡ last)
Delivered (p ∷ ps) s id rest last =
    (behind : Bytes) × (next : ℕ) × (read_packet s ≡ some ((p, next), behind))
    × (length behind < length s)
    × Delivered ps behind next rest last

abbrev pub at : Link → Bytes → ℕ → Link
at link s id = record link { incoming = s; sequence_id = id }

pub Delivered-split :
    (ps qs : List Bytes) (s : Bytes) (id : ℕ) (rest : Bytes) (last : ℕ)
    → Delivered (ps ++ qs) s id rest last
    → (middle : Bytes) × (between : ℕ) × Delivered ps s id middle between
      × Delivered qs middle between rest last
Delivered-split [] qs s id rest last d = (s, id, (refl, refl), d)
Delivered-split (p ∷ ps) qs s id rest last (behind, next, e, h, d) =
    let (middle, between, c, f) = Delivered-split ps qs behind next rest last d in
    (middle, between, (behind, next, e, h, c), f)

pub receive_lem :
    (link : Link) (s behind p : Bytes) (id next : ℕ)
    → read_packet s ≡ some ((p, next), behind)
    → receive (at link s id) ≡ (gives p, at link behind next)
unfolding receive
receive_lem link s behind p id next e = rw (receive, e) refl

-- The columns
abbrev pub Described : List (Bytes × ColumnDefinition) → List ColumnDefinition → Type 0
Described [] [] = Unit
Described [] (c ∷ cs) = ⊥
Described (d ∷ ds) [] = ⊥
Described ((catalog, d) ∷ ds) (c ∷ cs) =
    HasTexts catalog d.schema d.table d.org_table d.name c × Described ds cs

abbrev pub column_payloads : List (Bytes × ColumnDefinition) → List Bytes
column_payloads [] = []
column_payloads ((catalog, d) ∷ ds) = column_payload catalog d ∷ column_payloads ds

abbrev pub AreShort : List (Bytes × ColumnDefinition) → Type 0
AreShort [] = Unit
AreShort ((catalog, d) ∷ ds) = IsShortDefinition catalog d × AreShort ds

read_columns_step :
    (n : ℕ) (link after end : Link) (p : Bytes) (c : ColumnDefinition) (cs : List ColumnDefinition)
    → receive link ≡ (gives p, after)
    → parse_column_definition p ≡ some c
    → read_columns n after ≡ (gives cs, end)
    → read_columns (suc n) link ≡ (gives (c ∷ cs), end)
unfolding read_columns
read_columns_step n link after end p c cs e f g = rw (e, f, g, ◌>>=◌, go_on) refl

pub read_columns_lem :
    (link : Link) (ds : List (Bytes × ColumnDefinition)) (s : Bytes) (id : ℕ) (rest : Bytes)
    (last : ℕ)
    → AreShort ds
    → Delivered (column_payloads ds) s id rest last
    → (columns : List ColumnDefinition) × (read_columns (length ds) (at link s id)
        ≡ (gives columns, at link rest last))
      × Described ds columns
unfolding read_columns
read_columns_lem link [] s id rest last h (e, f) = ([], rw (e, f), tt)
read_columns_lem link ((catalog, d) ∷ ds) s id rest last h (behind, next, e, l, delivered) =
    let (columns, g, texts) = read_columns_lem link ds behind next rest last h.1 delivered in
    let (c, f, text) = parse_column_definition-column_payload catalog d h.0 in
    (
      c ∷ columns,
      read_columns_step (length ds) (at link s id) (at link behind next) (at link rest last)
          (column_payload catalog d) c columns
          (receive_lem link s behind (column_payload catalog d) id next e) f g,
      (text, texts),
    )

-- The first byte of a length
first_of_length :
    (n : ℕ) (rest : Bytes)
    → (is_err_packet (append_lenenc_int n ++ rest) ≡ false)
      × (looks_like_eof_packet (append_lenenc_int n ++ rest) ≡ false)
unfolding is_err_packet looks_like_eof_packet append_lenenc_int le_bytes
first_of_length n rest = (ground arith, ground arith)

-- A row is no error packet and no end of the rows.
row_is_row :
    (values : List (Option Bytes))
    → (is_err_packet (row_payload values) ≡ false)
      × (looks_like_eof_packet (row_payload values) ≡ false)
unfolding is_err_packet looks_like_eof_packet append_lenenc_string
row_is_row [] = (refl, refl)
row_is_row (none ∷ values) = (refl, ground arith)
row_is_row (some text ∷ values) =
    let (e, f) = first_of_length (length text) (text ++ row_payload values) in
    let same = append_assoc (append_lenenc_int (length text)) text (row_payload values) in
    (ap is_err_packet same ∙ e, ap looks_like_eof_packet same ∙ f)

-- The rows
abbrev pub IsRow : ℕ → List (Option Bytes) → Type 0
IsRow columns values = (length values ≡ columns) × All IsShort values

read_row_step :
    (fuel columns : ℕ) (link after end : Link) (p : Bytes) (row : List (Option Bytes))
    (rows : List (List (Option Bytes)))
    → receive link ≡ (gives p, after)
    → is_err_packet p ≡ false
    → looks_like_eof_packet p ≡ false
    → parse_text_row p columns ≡ some row
    → read_rows fuel columns after ≡ (gives rows, end)
    → read_rows (suc fuel) columns link ≡ (gives (row ∷ rows), end)
unfolding read_rows
read_row_step fuel columns link after end p row rows e is_no_err is_no_eof f g =
    rw (e, is_no_err, is_no_eof, f, g, ◌>>=◌, go_on) refl

-- The members behind an ok packet
abbrev pub settled : Link → OkPacket → Link
settled link ok = record link {
  last_affect_rows = ok.affected_rows % 4294967296;
  last_insert_id = ok.last_insert_id;
  status_flags = ok.status_flags;
  backslash_escapes = escapes_backslash ok.status_flags;
}

read_end_step :
    (fuel columns : ℕ) (link after : Link) (p : Bytes) (ok : OkPacket)
    → receive link ≡ (gives p, after)
    → is_err_packet p ≡ false
    → looks_like_eof_packet p ≡ true
    → parse_ok_packet p ≡ some ok
    → read_rows (suc fuel) columns link ≡ (gives [], settled after ok)
unfolding read_rows apply_ok
read_end_step fuel columns link after p ok e is_no_err is_eof f =
    rw (e, is_no_err, is_eof, f, ◌>>=◌, ◌>>◌, go_on) refl

pub read_rows_lem :
    (link : Link) (columns fuel : ℕ) (rows : List (List (Option Bytes))) (eof : OkPacket)
    (s : Bytes) (id : ℕ) (rest : Bytes) (last : ℕ)
    → All (IsRow columns) rows
    → Fits eof
    → length (ok_payload 0xfe eof) < 9
    → length s < fuel
    → Delivered (map row_payload rows ++ (ok_payload 0xfe eof ∷ [])) s id rest last
    → read_rows fuel columns (at link s id) ≡ (gives rows, settled (at link rest last) eof)
unfolding is_err_packet looks_like_eof_packet
read_rows_lem link columns zero rows eof s id rest last are_rows fits short k d = elim k [ ]
read_rows_lem link columns (suc fuel) [] eof s id rest last are_rows fits short k
      (behind, next, e, l, (same, same_id)) =
    read_end_step fuel columns (at link s id) (at link behind next) (ok_payload 0xfe eof) eof
      (receive_lem link s behind (ok_payload 0xfe eof) id next e) refl (ground arith)
      (parse_ok_packet-ok_payload 0xfe eof refl fits)
    ∙ rw (same, same_id) refl
read_rows_lem link columns (suc fuel) (row ∷ rows) eof s id rest last are_rows fits short k
      (behind, next, e, l, d) =
    let ((same, shorts), others) = are_rows in
    let (no_err, no_eof) = row_is_row row in
    read_row_step fuel columns (at link s id) (at link behind next)
      (settled (at link rest last) eof) (row_payload row) row rows
      (receive_lem link s behind (row_payload row) id next e) no_err no_eof
      (ap (parse_text_row (row_payload row)) (sym same) ∙ parse_text_row-row_payload row shorts)
      (read_rows_lem link columns fuel rows eof behind next rest last others fits short
        (omega arith) d)
