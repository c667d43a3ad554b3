-- ===== src/MysqlAsync/Connect.antt =====
-- ormpp/mysql_async.hpp, `connect` behind the opening of the socket: the handshake is read, the capabilities
-- are negotiated, the response is written, and the authentication goes on.
pub mod Login
pub mod Server
use ormpp.Base.{
  ℕ, zero, suc, ◌+◌, ◌*◌, ◌/◌, ◌%◌, Bool, true, false, [], Option, ◌++◌, if◌then◌else◌, Bytes,
  codes, is_empty, length,
}
use ormpp.MysqlAsync.Response.{
  Link, Answer, gives, Talk, ◌>>=◌, ◌>>◌, pure, or_malformed, receive, send,
}
use ormpp.MysqlAsync.Auth.{build_auth_response, handle_auth_response}
use ormpp.MysqlAsync.Handshake.{ServerHandshake, parse_server_handshake, handshake_response}

pub record Account : Type 0 where
  pub user : Bytes
  pub password : Bytes
  pub database : Bytes

-- `a & b` on the low `k` bits
unfoldable pub and_bits : ℕ → ℕ → ℕ → ℕ
and_bits zero a b = 0
and_bits (suc k) a b = (a % 2) * (b % 2) + 2 * and_bits k (a / 2) (b / 2)

-- `client_caps`: the constants have one bit each, so that their `|` is their sum.
abbrev pub client_caps : Bytes → ℕ
client_caps database =
    0x1
    + 0x2
    + 0x4
    + 0x200
    + 0x2000
    + 0x8000
    + 0x10000
    + 0x20000
    + 0x80000
    + 0x200000
    + 0x100000
    + 0x1000000
    + (if is_empty database then 0 else 0x8)

abbrev pub plugin_of : ServerHandshake → Bytes
plugin_of hs =
    if is_empty hs.auth_plugin_name then codes "mysql_native_password" else hs.auth_plugin_name

unfoldable pub negotiated : Account → ServerHandshake → ℕ
unfolding and_bits
negotiated account hs = and_bits 32 (client_caps account.database) hs.capabilities

-- The payload that answers a handshake, with the response to its scramble
unfoldable pub answer_to : Account → ServerHandshake → Bytes → Bytes
unfolding negotiated handshake_response
answer_to account hs auth_data =
    handshake_response (negotiated account hs) 16777216 45 account.user auth_data account.database
      (plugin_of hs)

-- The members as `connect` sets them
abbrev pub fresh : Link → Link
fresh link = record link {
  sequence_id = 0;
  last_affect_rows = 0;
  last_insert_id = 0;
  status_flags = 0;
  backslash_escapes = true;
}

unfoldable pub set_sequence_id : ℕ → Talk Unit
set_sequence_id sequence_id link = (gives tt, record link { sequence_id = sequence_id })

module _ (sha1 sha256 : Bytes → Bytes) (rsa : Bytes → Bytes → Bytes → Option Bytes)
    (account : Account) where
  unfoldable pub log_in : ℕ → Talk Unit
  unfolding receive send parse_server_handshake build_auth_response answer_to set_sequence_id
      handle_auth_response
  log_in fuel = do
    payload ← receive
    hs ← or_malformed (parse_server_handshake payload)
    auth_data ←
        or_malformed (build_auth_response sha1 sha256 (plugin_of hs) account.password hs.scramble)
    set_sequence_id 1
    send (answer_to account hs auth_data)
    response ← receive
    handle_auth_response sha1 sha256 rsa account.password fuel (plugin_of hs) hs.scramble response

  unfoldable pub connect : Talk Unit
  unfolding log_in
  connect link = log_in (length link.incoming + 1) (fresh link)
