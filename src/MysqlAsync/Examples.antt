-- ===== src/MysqlAsync/Examples.antt =====
-- The theorems on the MySQL driver, at concrete inputs.
use ormpp.Base.{
  ℕ, zero, suc, ◌<◌, Bool, true, false, List, [], ◌∷◌, ◌++◌, Option, none, some, Bytes, codes,
  length, All, to_string, replicate, ◌≡◌, ◌≢◌, ◌%◌, ltb, ◌&&◌, map, refl, arith,
}
use ormpp.MysqlAsync.Packets.{OkPacket, ColumnDefinition}
use ormpp.MysqlAsync.Reader.{le_bytes, append_lenenc_int, append_lenenc_string}
use ormpp.MysqlAsync.Packets.RoundTrip.{Fits, ok_payload}
use ormpp.MysqlAsync.Packets.Columns.{column_payload}
use ormpp.MysqlAsync.Frames.{read_packet, write_packet}
use ormpp.MysqlAsync.Frames.RoundTrip.{read_packet-write_packet}
use ormpp.MysqlAsync.Response.{Link, gives, query_text}
use ormpp.MysqlAsync.Response.Query.{query_text-write_packets}
use ormpp.MysqlAsync.Response.Delivery.{Described}
use ormpp.MysqlAsync.Response.Result.{answered, write_packets, result_packets}
use ormpp.MysqlAsync.Arguments.{
  null, minus, Argument, text, plus, escape_mysql_string, blob_to_hex, format_query_args,
  to_query_arg_impl, plain, step,
}
use ormpp.MysqlAsync.Arguments.Literal.{read_mysql_literal, read_mysql_literal-escape_mysql_string}
use ormpp.MysqlAsync.Arguments.Substitution.{fill, format_query_args-fill}
use ormpp.MysqlAsync.Auth.{scramble_mysql_native_password, scramble_caching_sha2_password}
use ormpp.MysqlAsync.Auth.Scramble.{IsHash, NativeAccepts, CachingAccepts, scramble_accepted}
use ormpp.MysqlAsync.Rows.{Target, signed, unsigned, string_target, map_reflectable_row}
use ormpp.MysqlAsync.Rows.RoundTrip.{sent_text, map_reflectable_row-sent_text}
use ormpp.MysqlAsync.Connect.{Account}
use ormpp.MysqlAsync.Handshake.{ServerHandshake, parse_server_handshake}
use ormpp.MysqlAsync.Handshake.RoundTrip.{
  IsHandshake, handshake_payload, parse_server_handshake-handshake_payload,
}

read_packet-write_packet_example :
    (out : Bytes) × (last_id : ℕ) × (write_packet 255 (codes "select 1") ≡ some (out, last_id))
    × ((rest : Bytes) → read_packet (out ++ rest) ≡ some ((codes "select 1", last_id), rest))
read_packet-write_packet_example = read_packet-write_packet 255 (codes "select 1")

abbrev link : Link
link = record {
  incoming = [];
  outgoing = [];
  sequence_id = 0;
  last_affect_rows = 3;
  last_insert_id = 0;
  status_flags = 0;
  backslash_escapes = true;
}

abbrev age : ColumnDefinition
age = record {
  schema = codes "db";
  table = codes "t";
  org_table = codes "t";
  name = codes "age";
  org_name = codes "age";
  character_set = 63;
  column_length = 11;
  column_type = 3;
  flags = 0;
  decimals = 0;
}

abbrev columns : List (Bytes × ColumnDefinition)
columns = (codes "def", age) ∷ []

abbrev rows : List (List (Option Bytes))
rows = (some (codes "42") ∷ []) ∷ (none ∷ []) ∷ []

abbrev ok : OkPacket
ok = record { affected_rows = 0; last_insert_id = 0; status_flags = 0x202; warnings = 0; info = [] }

abbrev sent : Bytes
sent =
    1 ∷ 0 ∷ 0 ∷ 1 ∷ 1 ∷ 32 ∷ 0 ∷ 0 ∷ 2 ∷ 3 ∷ 100 ∷ 101 ∷ 102 ∷ 2 ∷ 100 ∷ 98 ∷ 1 ∷ 116 ∷ 1 ∷ 116 ∷ 3
    ∷ 97 ∷ 103 ∷ 101 ∷ 3 ∷ 97 ∷ 103 ∷ 101 ∷ 12 ∷ 63 ∷ 0 ∷ 11 ∷ 0 ∷ 0 ∷ 0 ∷ 3 ∷ 0 ∷ 0 ∷ 0 ∷ 0 ∷ 0 ∷ 3
    ∷ 0 ∷ 0 ∷ 3 ∷ 2 ∷ 52 ∷ 50 ∷ 1 ∷ 0 ∷ 0 ∷ 4 ∷ 251 ∷ 7 ∷ 0 ∷ 0 ∷ 5 ∷ 254 ∷ 0 ∷ 0 ∷ 2 ∷ 2 ∷ 0 ∷ 0
    ∷ []

sent_is : write_packets 1 (result_packets columns rows ok) ≡ some (sent, 6)
unfolding write_packet le_bytes column_payload append_lenenc_string
sent_is = refl

ok-Fits : Fits ok
ok-Fits = record {
  affected_rows_fits = omega arith;
  last_insert_id_fits = omega arith;
  status_flags_fits = omega arith;
  warnings_fits = omega arith;
}

ok_short : length (ok_payload 0xfe ok) < 9
unfolding append_lenenc_int le_bytes
ok_short = omega arith

query_text-write_packets_example :
    (out : Bytes) × (next : ℕ) × (read : List ColumnDefinition) × (write_packet 0
        (3 ∷ codes "select age from t")
      ≡ some (out, next))
    × Described columns read
    × (query_text (codes "select age from t") (record link { incoming = sent ++ (7 ∷ []) }) ≡ (
      gives (record { has_resultset = true; ok = none; columns = read; rows = rows }),
      answered (record link { outgoing = [] ++ out }) (7 ∷ []) 6 ok 2,
    ))
query_text-write_packets_example =
    query_text-write_packets link (codes "select age from t") columns rows ok 1 sent 6 (7 ∷ [])
      (omega arith) (omega arith)
      (
        record {
          catalog_short = omega arith;
          schema_short = omega arith;
          table_short = omega arith;
          org_table_short = omega arith;
          name_short = omega arith;
          org_name_short = omega arith;
        },
        tt,
      )
      ((refl, (omega arith, tt)), ((refl, (tt, tt)), tt)) ok-Fits (ok_short) sent_is

read_mysql_literal-escape_mysql_string_example :
    (behind : Bytes) × (escape_mysql_string (codes "it's \\ ok") false ++ codes ", 1"
      ≡ b'\'' ∷ behind)
    × (read_mysql_literal false behind ≡ some (codes "it's \\ ok", codes ", 1"))
read_mysql_literal-escape_mysql_string_example =
    read_mysql_literal-escape_mysql_string false (codes "it's \\ ok") (codes ", 1") refl

blob_literal : (blob_to_hex (0 ∷ 255 ∷ []) ≡ codes "0x00FF") × (blob_to_hex [] ≡ codes "0x")
unfolding blob_to_hex
blob_literal = (refl, refl)

abbrev arguments : List Argument
arguments = text (codes "a?b") ∷ plus 7 ∷ []

formatted :
    format_query_args (codes "update `t?` set a=?, b='?' where c=? # ?") false arguments
    ≡ some (codes "update `t?` set a='a?b', b='?' where c=7 # ?")
unfolding format_query_args step to_string
formatted = refl

-- One argument too few, one too many
mismatched :
    (format_query_args (codes "?,?,?") false arguments ≡ none)
    × (format_query_args (codes "?") false arguments ≡ none)
unfolding format_query_args step to_string
mismatched = (refl, refl)

format_query_args-fill_example :
    format_query_args (codes "a=? and b=?") false arguments
    ≡ fill false plain (codes "a=? and b=?") (map (λ arg. to_query_arg_impl arg false) arguments)
format_query_args-fill_example = format_query_args-fill (codes "a=? and b=?") false arguments

-- A function with the size of a hash
abbrev toy : ℕ → Bytes → Bytes
toy size s = replicate size (length s % 256)

toy_bytes : (size n : ℕ) → n < 256 → All (λ a. a < 256) (replicate size n)
toy_bytes zero n h = tt
toy_bytes (suc size) n h = (h, toy_bytes size n h)

toy_length : (size n : ℕ) → length (replicate size n) ≡ size
toy_length zero n = refl
toy_length (suc size) n = omega (arith, toy_length size n)

toy-IsHash : (size : ℕ) → IsHash (toy size) size
toy-IsHash size = record {
  has_size = λ s. toy_length size (length s % 256);
  has_bytes = λ s. toy_bytes size (length s % 256) (omega arith);
}

scramble_accepted_example :
    NativeAccepts
      (toy 20)
      (toy 32)
      (toy 20 (toy 20 (codes "secret")))
      (codes "salt")
      (scramble_mysql_native_password (toy 20) (toy 32) (codes "secret") (codes "salt"))
    × CachingAccepts
        (toy 20)
        (toy 32)
        (toy 32 (toy 32 (codes "secret")))
        (codes "salt")
        (scramble_caching_sha2_password (toy 20) (toy 32) (codes "secret") (codes "salt"))
scramble_accepted_example =
    scramble_accepted (toy 20) (toy 32) (codes "secret") (codes "salt") 20 32 refl (toy-IsHash 20)
      (toy-IsHash 32)

abbrev hello : ServerHandshake
hello = record {
  protocol_version = 10;
  server_version = codes "8.0.36";
  connection_id = 77;
  scramble = codes "abcdefghABCDEFGHIJKL";
  capabilities = 0x188000;
  character_set = 45;
  status_flags = 2;
  auth_plugin_name = codes "caching_sha2_password";
}

abbrev all_positive : Bytes → Bool
all_positive [] = true
all_positive (c ∷ s) = ltb 0 c && all_positive s

codes-NonZero : (s : Bytes) → all_positive s ≡ true → All (λ c. c ≢ 0) s
codes-NonZero [] h = tt
codes-NonZero (c ∷ s) h = (ground arith, codes-NonZero s (ground arith))

hello-IsHandshake : IsHandshake hello (codes "abcdefgh") (codes "ABCDEFGHIJKL")
hello-IsHandshake = record {
  version_text = codes-NonZero (codes "8.0.36") refl;
  name_text = codes-NonZero (codes "caching_sha2_password") refl;
  connection_id_fits = omega arith;
  status_fits = omega arith;
  capabilities_fit = omega arith;
  part1_size = refl;
  part2_size = refl;
  parts = refl;
  knows_plugins = refl;
  is_secure = refl;
}

parse_server_handshake-handshake_payload_example :
    parse_server_handshake (handshake_payload hello (codes "abcdefgh") (codes "ABCDEFGHIJKL"))
    ≡ some hello
parse_server_handshake-handshake_payload_example =
    parse_server_handshake-handshake_payload hello (codes "abcdefgh") (codes "ABCDEFGHIJKL")
      hello-IsHandshake

abbrev account : Account
account = record { user = codes "root"; password = codes "secret"; database = codes "test" }

-- The handshake in its frame, and an ok packet in its own
abbrev greeting : Bytes
greeting =
    74
    ∷ 0
    ∷ 0
    ∷ 0
    ∷ (handshake_payload hello (codes "abcdefgh") (codes "ABCDEFGHIJKL")
        ++ 7 ∷ 0 ∷ 0 ∷ 2 ∷ 0 ∷ 0 ∷ 0 ∷ 2 ∷ 2 ∷ 0 ∷ 0 ∷ [])

abbrev refuse : Bytes → Bytes → Bytes → Option Bytes
refuse password scramble key = none

abbrev response : Bytes
response =
    scramble_caching_sha2_password (toy 20) (toy 32) (codes "secret") (codes "abcdefghABCDEFGHIJKL")

abbrev targets : List (Bool × Target)
targets = (false, signed 32) ∷ (true, string_target) ∷ (false, unsigned 8) ∷ []

map_reflectable_row-sent_text_example :
    map_reflectable_row targets
      (map sent_text (minus 4 ∷ null ∷ plus 255 ∷ []) ++ some (codes "more") ∷ [])
    ≡ some (minus 4 ∷ null ∷ plus 255 ∷ [])
map_reflectable_row-sent_text_example =
    map_reflectable_row-sent_text targets (minus 4 ∷ null ∷ plus 255 ∷ [])
      (some (codes "more") ∷ []) (omega arith, (refl, (omega arith, tt)))

-- Too large for its type, and no number
refused_texts :
    (map_reflectable_row ((false, unsigned 8) ∷ []) (some (codes "256") ∷ []) ≡ none)
    × (map_reflectable_row ((false, signed 8) ∷ []) (some (codes "1x") ∷ []) ≡ none)
unfolding map_reflectable_row
refused_texts = (refl, refl)
