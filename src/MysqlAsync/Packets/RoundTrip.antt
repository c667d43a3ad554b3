-- ===== src/MysqlAsync/Packets/RoundTrip.antt =====
-- The packets as the protocol lays them out, and what the driver reads of them.
use ormpp.Base.{
  ℕ, ◌<◌, true, ◌||◌, List, [], ◌∷◌, ◌++◌, Option, none, some, ◌==◌, leb, Bytes, length, All, ◌≡◌,
  refl, arith,
}
use ormpp.MysqlAsync.Reader.{
  ◌>>=◌, le_bytes, read_byte, read_lenenc_string_optional, append_lenenc_int, append_lenenc_string,
}
use ormpp.MysqlAsync.Reader.RoundTrip.{
  uint64_mod, read_le-le_bytes, read_lenenc_int-append, read_lenenc_string_optional-append,
  read_lenenc_string_optional_null,
}
use ormpp.MysqlAsync.Packets.{
  OkPacket, require, read_status, parse_ok_packet, read_text_row, parse_text_row,
}

-- The numbers of the packet fit their fields.
pub record Fits (p : OkPacket) : Type 0 where
  pub affected_rows_fits : p.affected_rows < uint64_mod
  pub last_insert_id_fits : p.last_insert_id < uint64_mod
  pub status_flags_fits : p.status_flags < 65536
  pub warnings_fits : p.warnings < 65536

abbrev pub ok_payload : ℕ → OkPacket → Bytes
ok_payload header p =
    header
    ∷ (append_lenenc_int p.affected_rows
        ++ (append_lenenc_int p.last_insert_id
            ++ (le_bytes 2 p.status_flags ++ (le_bytes 2 p.warnings ++ p.info))))

four_bytes :
    (status warnings : ℕ) (info : Bytes)
    → leb 4 (length (le_bytes 2 status ++ (le_bytes 2 warnings ++ info))) ≡ true
unfolding le_bytes
four_bytes status warnings info = ground arith

status_read :
    (status warnings : ℕ) (info : Bytes)
    → status < 65536
    → warnings < 65536
    → read_status (le_bytes 2 status ++ (le_bytes 2 warnings ++ info))
      ≡ some ((status, warnings), info)
unfolding read_status
status_read status warnings info h k =
    rw
      (
        four_bytes status warnings info,
        read_le-le_bytes 2 status (le_bytes 2 warnings ++ info) h,
        read_le-le_bytes 2 warnings info k,
        read_status,
        ◌>>=◌,
      )
      refl

pub parse_ok_packet-ok_payload :
    (header : ℕ) (p : OkPacket)
    → (header == 0 || header == 0xfe) ≡ true
    → Fits p
    → parse_ok_packet (ok_payload header p) ≡ some p
unfolding parse_ok_packet read_byte require
parse_ok_packet-ok_payload header p h f =
    let rest : Bytes = le_bytes 2 p.status_flags ++ (le_bytes 2 p.warnings ++ p.info) in
    rw (
      h,
      read_lenenc_int-append p.affected_rows (append_lenenc_int p.last_insert_id ++ rest)
          f.affected_rows_fits,
      read_lenenc_int-append p.last_insert_id rest f.last_insert_id_fits,
      status_read p.status_flags p.warnings p.info f.status_flags_fits f.warnings_fits,
      ◌>>=◌,
    )

-- A value of a row: NULL is one byte.
abbrev pub value_payload : Option Bytes → Bytes
value_payload none = 0xfb ∷ []
value_payload (some text) = append_lenenc_string text

abbrev pub row_payload : List (Option Bytes) → Bytes
row_payload [] = []
row_payload (v ∷ values) = value_payload v ++ row_payload values

abbrev pub IsShort : Option Bytes → Type 0
IsShort none = Unit
IsShort (some text) = length text < uint64_mod

value_read :
    (v : Option Bytes) (rest : Bytes)
    → IsShort v
    → read_lenenc_string_optional (value_payload v ++ rest) ≡ some (v, rest)
value_read none rest h = read_lenenc_string_optional_null rest
value_read (some text) rest h = read_lenenc_string_optional-append text rest h

row_read :
    (values : List (Option Bytes))
    → All IsShort values
    → read_text_row (length values) (row_payload values) ≡ some (values, [])
unfolding read_text_row
row_read [] h = refl
row_read (v ∷ values) h =
    rw (value_read v (row_payload values) h.0, row_read values h.1, read_text_row) refl

-- A row is read back from its packet: NULLs, empty texts and texts of any bytes and length.
pub parse_text_row-row_payload :
    (values : List (Option Bytes))
    → All IsShort values
    → parse_text_row (row_payload values) (length values) ≡ some values
unfolding parse_text_row
parse_text_row-row_payload values h = rw (row_read values h)
