-- ===== src/MysqlAsync/Auth.antt =====
-- ormpp/mysql_async.hpp, the authentication: the two scrambles of a password, `build_auth_response` and
-- `handle_auth_response`. The hashes and the RSA encryption of the TLS library are parameters.
pub mod Scramble
use ormpp.Base.{
  ℕ, zero, suc, ◌+◌, ◌-◌, ◌*◌, ◌/◌, ◌%◌, Bool, true, false, not, ◌&&◌, List, [], ◌∷◌, ◌++◌, Option,
  none, some, ◌==◌, ltb, if◌then◌else◌, Bytes, codes, equal, is_empty, length, take, replicate,
  back_or, pop_back, starts,
}
use ormpp.MysqlAsync.Reader.{Reader, read_null_terminated_string}
use ormpp.MysqlAsync.Packets.{
  OkPacket, ErrorPacket, is_err_packet, is_ok_packet, is_auth_switch_request, is_auth_more_data,
  parse_ok_packet, parse_error_packet,
}
use ormpp.MysqlAsync.Response.{
  Link, Fault, query_failed, malformed, read_failed, Answer, gives, raises, Talk, ◌>>=◌, ◌>>◌,
  go_on, pure, raise, or_malformed, receive, send, apply_ok, throw_error,
}

-- `a ^ b` on the low `k` bits
unfoldable pub xor_bits : ℕ → ℕ → ℕ → ℕ
xor_bits zero a b = 0
xor_bits (suc k) a b = (a % 2 + b % 2) % 2 + 2 * xor_bits k (a / 2) (b / 2)

-- The loop over the two stages, byte by byte
unfoldable pub zip_xor : Bytes → Bytes → Bytes
unfolding xor_bits
zip_xor (a ∷ s) (b ∷ t) = xor_bits 8 a b ∷ zip_xor s t
zip_xor _ _ = []

module _ (sha1 sha256 : Bytes → Bytes) where
  unfoldable pub scramble_mysql_native_password : Bytes → Bytes → Bytes
  unfolding zip_xor
  scramble_mysql_native_password password scramble =
      let stage1 = sha1 password in
      let stage2 = sha1 stage1 in
      let stage3 = sha1 (scramble ++ stage2) in
      if is_empty password then [] else zip_xor stage1 stage3

  unfoldable pub scramble_caching_sha2_password : Bytes → Bytes → Bytes
  unfolding zip_xor
  scramble_caching_sha2_password password scramble =
      let stage1 = sha256 password in
      let stage2 = sha256 stage1 in
      let stage3 = sha256 (stage2 ++ scramble) in
      if is_empty password then [] else zip_xor stage1 stage3

  -- `none` is the exception of another plugin.
  unfoldable pub build_auth_response : Bytes → Bytes → Bytes → Option Bytes
  unfolding scramble_mysql_native_password scramble_caching_sha2_password
  build_auth_response plugin password scramble =
      if equal plugin (codes "mysql_native_password")
      then some (scramble_mysql_native_password password scramble)
      else if equal plugin (codes "caching_sha2_password")
      then some (scramble_caching_sha2_password password scramble)
      else none

-- `resize` to the 20 bytes of `scramble_` and the copy into it
abbrev pub to_scramble : Bytes → Bytes
to_scramble bytes = take 20 (bytes ++ replicate (20 - length bytes) 0)

abbrev pub without_end : Bytes → Bytes
without_end bytes = if back_or 1 bytes == 0 then pop_back bytes else bytes

-- The plugin and the data of an auth switch request, behind its header
unfoldable pub read_auth_switch : Bytes → Option (Bytes × Bytes)
unfolding read_null_terminated_string
read_auth_switch [] = none
read_auth_switch (header ∷ payload) = elim (read_null_terminated_string payload) [
  | none ↦ none
  | some (plugin_name, plugin_data) ↦ some (plugin_name, to_scramble (without_end plugin_data))
]

-- `rsa` is `rsa_encrypt_password`, of the password, the scramble and the packet with the public key; `none`
-- is its exception. `is_secure_channel` is false.
module _ (sha1 sha256 : Bytes → Bytes) (rsa : Bytes → Bytes → Bytes → Option Bytes)
    (password : Bytes) where
  -- The password under the public key that the server sends
  unfoldable pub send_encrypted : Bytes → Talk Unit
  unfolding send receive is_err_packet throw_error
  send_encrypted scramble = do
    send (2 ∷ [])
    public_key_packet ← receive
    if is_err_packet public_key_packet
        then throw_error query_failed public_key_packet
        else (do encrypted ← or_malformed (rsa password scramble public_key_packet); send encrypted)

  -- `for (;;)`: the fuel bounds the packets.
  unfoldable pub handle_auth_response : ℕ → Bytes → Bytes → Bytes → Talk Unit
  unfolding is_err_packet is_ok_packet is_auth_switch_request is_auth_more_data throw_error
      parse_ok_packet apply_ok read_auth_switch build_auth_response send receive send_encrypted
  handle_auth_response zero plugin scramble payload = raise malformed
  handle_auth_response (suc fuel) plugin scramble payload =
      let again = handle_auth_response fuel in
      let caching = equal plugin (codes "caching_sha2_password") in
      if is_err_packet payload
      then throw_error query_failed payload
      else if is_ok_packet payload && not (is_auth_switch_request payload)
      then (do ok ← or_malformed (parse_ok_packet payload); apply_ok ok)
      else if is_auth_switch_request payload
      then (do
        switch ← or_malformed (read_auth_switch payload)
        response ← or_malformed (build_auth_response sha1 sha256 switch.0 password switch.1)
        send response
        next ← receive
        again switch.0 switch.1 next)
      else if is_auth_more_data payload && caching && equal payload (1 ∷ 3 ∷ [])
      then (do next ← receive; again plugin scramble next)
      else if is_auth_more_data payload && caching && equal payload (1 ∷ 4 ∷ [])
      then (do send_encrypted scramble; next ← receive; again plugin scramble next)
      else raise malformed
