-- ===== src/MysqlAsync/Handshake.antt =====
-- ormpp/mysql_async.hpp, the handshake: `parse_server_handshake`, `write_handshake_response` and the
-- capabilities that `connect` negotiates. A capability is named by the number of its bit.
pub mod RoundTrip
use ormpp.Base.{
  ℕ, zero, suc, ◌+◌, ◌-◌, ◌*◌, ◌/◌, ◌%◌, Bool, true, false, not, ◌&&◌, List, [], ◌∷◌, ◌++◌, Option,
  none, some, ◌==◌, ltb, if◌then◌else◌, Bytes, codes, is_empty, length, replicate,
}
use ormpp.MysqlAsync.Reader.{
  Reader, ◌>>=◌, ◌>>◌, pure, throw, le_bytes, read_byte, read_le, read_string, skip,
  read_null_terminated_string, append_lenenc_int, append_lenenc_string,
}
use ormpp.MysqlAsync.Packets.{parsed}
use ormpp.MysqlAsync.Auth.{to_scramble, without_end}

pub record ServerHandshake : Type 0 where
  pub protocol_version : ℕ
  pub server_version : Bytes
  pub connection_id : ℕ
  pub scramble : Bytes
  pub capabilities : ℕ
  pub character_set : ℕ
  pub status_flags : ℕ
  pub auth_plugin_name : Bytes

-- `2 ^ bit`, and `capabilities & client_…`
abbrev pub has : ℕ → ℕ → Bool
has capabilities mask = (capabilities / mask) % 2 == 1

abbrev pub client_connect_with_db : ℕ
client_connect_with_db = 0x8

abbrev pub client_secure_connection : ℕ
client_secure_connection = 0x8000

abbrev pub client_plugin_auth : ℕ
client_plugin_auth = 0x80000

-- `if (rd.empty())` throws
unfoldable pub require_more : Reader Unit
require_more [] = none
require_more (c ∷ s) = some (tt, c ∷ s)

unfoldable pub read_plugin_length : ℕ → Reader ℕ
unfolding read_byte skip
read_plugin_length capabilities s =
    if has capabilities client_plugin_auth then read_byte s else (do skip 1; pure 0) s

-- `std::max<int>(13, auth_plugin_len - 8)` bytes, without a zero at their end
unfoldable pub read_part2 : ℕ → ℕ → Reader Bytes
unfolding read_string
read_part2 capabilities auth_plugin_len s =
    if has capabilities client_secure_connection
    then (do
      part2 ← read_string (if ltb 13 (auth_plugin_len - 8) then auth_plugin_len - 8 else 13)
      pure (without_end part2))
        s
    else some ([], s)

unfoldable pub read_plugin_name : ℕ → Reader Bytes
unfolding read_null_terminated_string
read_plugin_name capabilities s =
    if has capabilities client_plugin_auth && not (is_empty s)
    then read_null_terminated_string s
    else some (codes "mysql_native_password", s)

-- The capabilities' upper half and what it decides
unfoldable pub read_handshake_tail : ℕ → Bytes → ℕ → Bytes → ℕ → Reader ServerHandshake
unfolding read_byte read_le read_plugin_length read_part2 read_plugin_name skip
read_handshake_tail protocol_version server_version connection_id scramble1 low = do
  character_set ← read_byte
  status_flags ← read_le 2
  high ← read_le 2
  auth_plugin_len ← read_plugin_length (low + 65536 * high)
  skip 10
  part2 ← read_part2 (low + 65536 * high) auth_plugin_len
  auth_plugin_name ← read_plugin_name (low + 65536 * high)
  pure (record {
    protocol_version = protocol_version;
    server_version = server_version;
    connection_id = connection_id;
    scramble = to_scramble (scramble1 ++ part2);
    capabilities = low + 65536 * high;
    character_set = character_set;
    status_flags = status_flags;
    auth_plugin_name = auth_plugin_name;
  })

unfoldable pub read_handshake : Reader ServerHandshake
unfolding read_byte read_null_terminated_string read_le read_string skip require_more
    read_handshake_tail
read_handshake = do
  protocol_version ← read_byte
  server_version ← read_null_terminated_string
  connection_id ← read_le 4
  scramble1 ← read_string 8
  skip 1
  low ← read_le 2
  require_more
  read_handshake_tail protocol_version server_version connection_id scramble1 low

unfoldable pub parse_server_handshake : Bytes → Option ServerHandshake
unfolding read_handshake
parse_server_handshake payload = parsed (read_handshake payload)

unfoldable pub append_connect_attr : Bytes → Bytes → Bytes
unfolding append_lenenc_string
append_connect_attr key value = append_lenenc_string key ++ append_lenenc_string value

unfoldable pub connect_attrs : Bytes
unfolding append_connect_attr
connect_attrs =
    append_connect_attr (codes "_client_name") (codes "ormpp")
    ++ (append_connect_attr (codes "_client_version") (codes "async")
        ++ append_connect_attr (codes "_os") (codes "linux"))

-- The payload of `write_handshake_response`; `auth_data` is the result of `build_auth_response`.
unfoldable pub handshake_response : ℕ → ℕ → ℕ → Bytes → Bytes → Bytes → Bytes → Bytes
unfolding le_bytes append_lenenc_int connect_attrs
handshake_response negotiated_capabilities max_packet_size collation_id user auth_data database
      auth_plugin_name =
    le_bytes 4 negotiated_capabilities
    ++ (le_bytes 4 max_packet_size
        ++ (collation_id
            ∷ (replicate 23 0
                ++ (user
                    ++ 0
                      ∷ (append_lenenc_int (length auth_data)
                          ++ (auth_data
                              ++ ((if has negotiated_capabilities client_connect_with_db
                                    then database ++ 0 ∷ []
                                    else [])
                                  ++ (auth_plugin_name
                                      ++ 0
                                        ∷ (append_lenenc_int (length connect_attrs)
                                            ++ connect_attrs)))))))))
