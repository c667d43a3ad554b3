-- ===== src/MysqlAsync/Packets.antt =====
-- ormpp/mysql_async.hpp, the packets of the server and how they are told apart and read. A packet is a
-- list of bytes, and `none` is the exception of its reader.
pub mod RoundTrip
pub mod Columns
use ormpp.Base.{
  ℕ, zero, suc, ◌+◌, ◌-◌, ◌*◌, ◌/◌, ◌%◌, Bool, true, false, ◌&&◌, ◌||◌, List, [], ◌∷◌, ◌++◌, Option,
  none, some, ◌==◌, ltb, leb, not, if◌then◌else◌, Bytes, codes, is_empty, starts, length, take,
  drop, replicate, back_or, pop_back,
}
use ormpp.MysqlAsync.Reader.{
  Reader, pure, throw, ◌>>=◌, ◌>>◌, read_byte, read_le, read_string, skip, read_rest,
  read_null_terminated_string, read_lenenc_int, read_lenenc_string, read_lenenc_string_optional,
}

pub record OkPacket : Type 0 where
  pub affected_rows : ℕ
  pub last_insert_id : ℕ
  pub status_flags : ℕ
  pub warnings : ℕ
  pub info : Bytes

pub record ErrorPacket : Type 0 where
  pub error_code : ℕ
  pub sql_state : Bytes
  pub message : Bytes

pub record ColumnDefinition : Type 0 where
  pub schema : Bytes
  pub table : Bytes
  pub org_table : Bytes
  pub name : Bytes
  pub org_name : Bytes
  pub character_set : ℕ
  pub column_length : ℕ
  pub column_type : ℕ
  pub flags : ℕ
  pub decimals : ℕ

unfoldable pub is_err_packet : Bytes → Bool
is_err_packet payload = starts 0xff payload

unfoldable pub is_ok_packet : Bytes → Bool
is_ok_packet payload = starts 0 payload

unfoldable pub is_auth_switch_request : Bytes → Bool
is_auth_switch_request payload = starts 0xfe payload && ltb 1 (length payload)

unfoldable pub is_auth_more_data : Bytes → Bool
is_auth_more_data payload = starts 1 payload

unfoldable pub looks_like_eof_packet : Bytes → Bool
looks_like_eof_packet payload = ltb (length payload) 9 && starts 0xfe payload

-- The value that a reader gives for a whole packet.
abbrev pub parsed : {A : Type 0} → Option (A × Bytes) → Option A
parsed none = none
parsed (some (a, rest)) = some a

read_sql_state : Reader Bytes
unfolding read_string skip
read_sql_state s = if starts b'#' s then (do skip 1; read_string 5) s else some ([], s)

-- A test that throws
require : Bool → Reader Unit
require test s = if test then some (tt, s) else none

read_error_packet : Reader ErrorPacket
unfolding read_sql_state read_byte read_le require
read_error_packet = do
  header ← read_byte
  require (header == 0xff)
  error_code ← read_le 2
  sql_state ← read_sql_state
  message ← read_rest
  pure (record { error_code = error_code; sql_state = sql_state; message = message })

unfoldable pub parse_error_packet : Bytes → Option ErrorPacket
unfolding read_error_packet
parse_error_packet payload = parsed (read_error_packet payload)

-- The status flags and the warnings of an `ok_packet`, zero where four bytes are not left
read_status : Reader (ℕ × ℕ)
unfolding read_le
read_status s =
    if leb 4 (length s)
    then (do status_flags ← read_le 2; warnings ← read_le 2; pure (status_flags, warnings)) s
    else some ((0, 0), s)

read_ok_packet : Reader OkPacket
unfolding read_status read_byte read_lenenc_int require
read_ok_packet = do
  header ← read_byte
  require (header == 0 || header == 0xfe)
  affected_rows ← read_lenenc_int
  last_insert_id ← read_lenenc_int
  status ← read_status
  info ← read_rest
  pure (record {
    affected_rows = affected_rows;
    last_insert_id = last_insert_id;
    status_flags = status.0;
    warnings = status.1;
    info = info;
  })

unfoldable pub parse_ok_packet : Bytes → Option OkPacket
unfolding read_ok_packet
parse_ok_packet payload = parsed (read_ok_packet payload)

-- `if (rd.remaining() >= 2) { rd.skip(2); }`
skip_filler : Reader Unit
unfolding skip
skip_filler s = if leb 2 (length s) then skip 2 s else some (tt, s)

-- From the character set on, behind the texts
read_column_tail : Bytes → Bytes → Bytes → Bytes → Bytes → Reader ColumnDefinition
unfolding read_byte read_le skip_filler
read_column_tail schema table org_table name org_name = do
  character_set ← read_le 2
  column_length ← read_le 4
  column_type ← read_byte
  flags ← read_le 2
  decimals ← read_byte
  skip_filler
  pure (record {
    schema = schema;
    table = table;
    org_table = org_table;
    name = name;
    org_name = org_name;
    character_set = character_set;
    column_length = column_length;
    column_type = column_type;
    flags = flags;
    decimals = decimals;
  })

read_column_definition : Reader ColumnDefinition
unfolding read_lenenc_int read_lenenc_string read_column_tail
read_column_definition = do
  schema ← read_lenenc_string
  table ← read_lenenc_string
  org_table ← read_lenenc_string
  name ← read_lenenc_string
  org_name ← read_lenenc_string
  read_lenenc_int
  read_column_tail schema table org_table name org_name

unfoldable pub parse_column_definition : Bytes → Option ColumnDefinition
unfolding read_column_definition
parse_column_definition payload = parsed (read_column_definition payload)

read_text_row : ℕ → Reader (List (Option Bytes))
unfolding read_lenenc_string_optional
read_text_row zero s = some ([], s)
read_text_row (suc columns) s = elim (read_lenenc_string_optional s) [
  | none ↦ none
  | some (value, rest) ↦ elim (read_text_row columns rest) [
    | none ↦ none
    | some (values, behind) ↦ some (value ∷ values, behind)
  ]
]

unfoldable pub parse_text_row : Bytes → ℕ → Option (List (Option Bytes))
unfolding read_text_row
parse_text_row payload columns = parsed (read_text_row columns payload)
