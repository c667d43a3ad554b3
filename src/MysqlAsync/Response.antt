-- ===== src/MysqlAsync/Response.antt =====
-- ormpp/mysql_async.hpp, the answer to a statement: `read_query_response`, `apply_ok`, `command_simple`,
-- `query_text`, `execute`. A `Link` is the connection: the bytes that come in and the members that the answer
-- changes. An `int` is kept as its 32 bits.
pub mod Delivery
pub mod Result
pub mod Query
use ormpp.Base.{
  ℕ, zero, suc, ◌+◌, ◌/◌, ◌%◌, Bool, true, false, List, [], ◌∷◌, ◌++◌, Option, none, some, ◌==◌,
  if◌then◌else◌, Bytes, length,
}
use ormpp.MysqlAsync.Reader.{read_lenenc_int}
use ormpp.MysqlAsync.Packets.{
  OkPacket, ErrorPacket, ColumnDefinition, is_err_packet, is_ok_packet, looks_like_eof_packet,
  parsed, parse_error_packet, parse_ok_packet, parse_column_definition, parse_text_row,
}
use ormpp.MysqlAsync.Frames.{read_packet, write_packet}

pub record Link : Type 0 where
  pub incoming : Bytes
  pub outgoing : Bytes
  pub sequence_id : ℕ
  pub last_affect_rows : ℕ
  pub last_insert_id : ℕ
  pub status_flags : ℕ
  pub backslash_escapes : Bool

-- What an exception says: the read of the socket failed, a packet was too short or of the wrong kind,
-- or the server sent an error.
pub data Fault : Type 0 where
  read_failed : Fault
  malformed : Fault
  query_failed : ErrorPacket → Fault
  row_fetch_failed : ErrorPacket → Fault

pub data Answer (A : Type 0) : Type 0 where
  gives : A → Answer A
  raises : Fault → Answer A

abbrev pub Talk : Type 0 → Type 0
Talk A = Link → Answer A × Link

abbrev pub go_on : {A B : Type 0} → (A → Talk B) → Answer A × Link → Answer B × Link
go_on f (gives a, link) = f a link
go_on f (raises fault, link) = (raises fault, link)

infixl 5 ◌>>=◌ ◌>>◌
abbrev pub ◌>>=◌ : {A B : Type 0} → Talk A → (A → Talk B) → Talk B
◌>>=◌ m f link = go_on f (m link)

abbrev pub ◌>>◌ : {A B : Type 0} → Talk A → Talk B → Talk B
m >> k = m >>= λ _. k

abbrev pub pure : {A : Type 0} → A → Talk A
pure a link = (gives a, link)

abbrev pub raise : {A : Type 0} → Fault → Talk A
raise fault link = (raises fault, link)

-- A parser's exception is not caught here.
abbrev pub or_malformed : {A : Type 0} → Option A → Talk A
or_malformed none link = (raises malformed, link)
or_malformed (some a) link = (gives a, link)

-- Where the socket fails, what was read before it failed is left in `incoming`.
unfoldable pub receive : Talk Bytes
unfolding read_packet
receive link = elim (read_packet link.incoming) [
  | none ↦ (raises read_failed, link)
  | some ((payload, sequence_id), rest) ↦
      (gives payload, record link { incoming = rest; sequence_id = sequence_id })
]

unfoldable pub send : Bytes → Talk Unit
unfolding write_packet
send payload link = elim (write_packet link.sequence_id payload) [
  | none ↦ (raises read_failed, link)
  | some (out, sequence_id) ↦
      (gives tt, record link { outgoing = link.outgoing ++ out; sequence_id = sequence_id })
]

pub record QueryResult : Type 0 where
  pub has_resultset : Bool
  pub ok : Option OkPacket
  pub columns : List ColumnDefinition
  pub rows : List (List (Option Bytes))

-- `status_flags & status_no_backslash_escapes`, the tenth bit, is 0
abbrev pub escapes_backslash : ℕ → Bool
escapes_backslash status_flags = (status_flags / 0x200) % 2 == 0

unfoldable pub apply_ok : OkPacket → Talk Unit
apply_ok ok link = (
  gives tt,
  record link {
    last_affect_rows = ok.affected_rows % 4294967296;
    last_insert_id = ok.last_insert_id;
    status_flags = ok.status_flags;
    backslash_escapes = escapes_backslash ok.status_flags;
  },
)

-- `for (i < column_count)`
unfoldable pub read_columns : ℕ → Talk (List ColumnDefinition)
unfolding receive parse_column_definition
read_columns zero = pure []
read_columns (suc column_count) = do
  payload ← receive
  column ← or_malformed (parse_column_definition payload)
  columns ← read_columns column_count
  pure (column ∷ columns)

unfoldable pub throw_error : {A : Type 0} → (ErrorPacket → Fault) → Bytes → Talk A
unfolding parse_error_packet
throw_error fault payload = do
  error ← or_malformed (parse_error_packet payload)
  raise (fault error)

-- `for (;;)`: the fuel bounds the packets. A packet that ends the rows is an ok packet under another header.
unfoldable pub read_rows : ℕ → ℕ → Talk (List (List (Option Bytes)))
unfolding receive throw_error is_err_packet looks_like_eof_packet parse_ok_packet parse_text_row
    apply_ok
read_rows zero columns = raise read_failed
read_rows (suc fuel) columns =
    let later = read_rows fuel columns in
    do
      payload ← receive
      if is_err_packet payload
          then throw_error row_fetch_failed payload
          else if looks_like_eof_packet payload
          then (do ok ← or_malformed (parse_ok_packet payload); apply_ok ok; pure [])
          else (do
            row ← or_malformed (parse_text_row payload columns)
            rows ← later
            pure (row ∷ rows))

unfoldable pub set_affected : ℕ → Talk Unit
set_affected rows link = (gives tt, record link { last_affect_rows = rows % 4294967296 })

unfoldable pub read_result_set : Bytes → Talk QueryResult
unfolding read_lenenc_int read_columns read_rows set_affected
read_result_set payload = do
  column_count ← or_malformed (parsed (read_lenenc_int payload))
  columns ← read_columns column_count
  rows ← λ link. read_rows (length link.incoming + 1) (length columns) link
  set_affected (length rows)
  pure (record { has_resultset = true; ok = none; columns = columns; rows = rows })

read_ok : Bytes → Talk QueryResult
unfolding parse_ok_packet apply_ok
read_ok payload = do
  ok ← or_malformed (parse_ok_packet payload)
  apply_ok ok
  pure (record { has_resultset = false; ok = some ok; columns = []; rows = [] })

unfoldable pub read_query_response : Talk QueryResult
unfolding receive throw_error is_err_packet is_ok_packet read_ok read_result_set
read_query_response = do
  payload ← receive
  if is_err_packet payload
      then throw_error query_failed payload
      else if is_ok_packet payload
      then read_ok payload
      else read_result_set payload

unfoldable pub start_command : Talk Unit
start_command link = (gives tt, record link { sequence_id = 0 })

unfoldable pub command_simple : ℕ → Bytes → Talk QueryResult
unfolding start_command send read_query_response
command_simple command sql = do start_command; send (command ∷ sql); read_query_response

unfoldable pub query_text : Bytes → Talk QueryResult
unfolding command_simple
query_text sql = command_simple 0x03 sql

-- `execute`, with what it gives to `set_last_error` where it catches an exception
abbrev pub caught : Answer QueryResult × Link → Option Fault × Link
caught (raises fault, link) = (some fault, link)
caught (gives result, link) =
    if result.has_resultset then (none, record link { last_affect_rows = 0 }) else (none, link)

unfoldable pub execute : Bytes → Link → Option Fault × Link
unfolding query_text
execute sql link = caught (query_text sql link)
