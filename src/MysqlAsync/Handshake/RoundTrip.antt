-- ===== src/MysqlAsync/Handshake/RoundTrip.antt =====
-- The handshake as the protocol lays it out, and what the driver reads of it.
use ormpp.Base.{
  ℕ, ◌+◌, ◌-◌, ◌*◌, ◌/◌, ◌%◌, ◌<◌, ◌≢◌, true, false, [], ◌∷◌, ◌++◌, Option, some, ◌==◌, Bytes, All,
  length, take, replicate, back_or-concat, pop_back-concat, take_append, length-append, ◌≡◌, refl,
  sym, ap, ◌∙◌, arith,
}
use ormpp.MysqlAsync.Reader.{
  ◌>>=◌, ◌>>◌, le_bytes, read_byte, read_string, skip, read_null_terminated_string,
}
use ormpp.MysqlAsync.Reader.RoundTrip.{read_le-le_bytes, read_string-append}
use ormpp.MysqlAsync.Auth.{to_scramble}
use ormpp.MysqlAsync.Handshake.{
  ServerHandshake, has, client_secure_connection, client_plugin_auth, require_more,
  read_plugin_length, read_part2, read_plugin_name, read_handshake_tail, read_handshake,
  parse_server_handshake,
}

-- The handshake of the protocol: the scramble in two parts, 8 and 12 bytes long, the second with a
-- zero behind it
abbrev pub handshake_tail : ServerHandshake → Bytes → Bytes
handshake_tail hs part2 =
    hs.character_set
    ∷ (le_bytes 2 hs.status_flags
        ++ (le_bytes 2 (hs.capabilities / 65536)
            ++ (21 ∷ (replicate 10 0 ++ ((part2 ++ 0 ∷ []) ++ (hs.auth_plugin_name ++ 0 ∷ []))))))

abbrev pub handshake_payload : ServerHandshake → Bytes → Bytes → Bytes
handshake_payload hs part1 part2 =
    hs.protocol_version
    ∷ (hs.server_version
        ++ 0
          ∷ (le_bytes 4 hs.connection_id
              ++ (part1
                  ++ (0 ∷ (le_bytes 2 (hs.capabilities % 65536) ++ handshake_tail hs part2)))))

pub null_terminated :
    (s rest : Bytes)
    → All (λ c. c ≢ 0) s
    → read_null_terminated_string (s ++ 0 ∷ rest) ≡ some (s, rest)
unfolding read_null_terminated_string
null_terminated [] rest h = refl
null_terminated (c ∷ s) rest h =
    let e : (c == 0) ≡ false = ground (arith, h.0) in rw (null_terminated s rest h.1, e) refl

string_of :
    (size : ℕ) (s rest : Bytes) → length s ≡ size → read_string size (s ++ rest) ≡ some (s, rest)
string_of size s rest h = ap (λ n. read_string n (s ++ rest)) (sym h) ∙ read_string-append s rest

skip_filler10 : (rest : Bytes) → skip 10 (replicate 10 0 ++ rest) ≡ some (tt, rest)
unfolding skip
skip_filler10 rest = ground arith

skip_one : (c : ℕ) (rest : Bytes) → skip 1 (c ∷ rest) ≡ some (tt, rest)
unfolding skip
skip_one c rest = ground arith

byte_of : (c : ℕ) (s : Bytes) → read_byte (c ∷ s) ≡ some (c, s)
unfolding read_byte
byte_of c s = refl

more_of : (c : ℕ) (s : Bytes) → require_more (c ∷ s) ≡ some (tt, c ∷ s)
unfolding require_more
more_of c s = refl

length_of :
    (capabilities n : ℕ) (s : Bytes)
    → has capabilities client_plugin_auth ≡ true
    → read_plugin_length capabilities (n ∷ s) ≡ some (n, s)
unfolding read_plugin_length read_byte
length_of capabilities n s h = rw h

part2_of :
    (capabilities : ℕ) (part2 rest : Bytes)
    → has capabilities client_secure_connection ≡ true
    → length part2 ≡ 12
    → read_part2 capabilities 21 ((part2 ++ 0 ∷ []) ++ rest) ≡ some (part2, rest)
unfolding read_part2
part2_of capabilities part2 rest h k =
    rw
      (
        h,
        string_of 13 (part2 ++ 0 ∷ []) rest (omega (arith, length-append part2 (0 ∷ []))),
        back_or-concat 1 part2 0,
        pop_back-concat part2 0,
        ◌>>=◌,
      )
      refl

name_of :
    (capabilities : ℕ) (name : Bytes)
    → has capabilities client_plugin_auth ≡ true
    → All (λ c. c ≢ 0) name
    → read_plugin_name capabilities (name ++ 0 ∷ []) ≡ some (name, [])
unfolding read_plugin_name
name_of capabilities [] h k = rw (h, null_terminated [] [] k) refl
name_of capabilities (c ∷ name) h k = rw (h, null_terminated (c ∷ name) [] k) refl

scramble_of : (scramble : Bytes) → length scramble ≡ 20 → to_scramble scramble ≡ scramble
scramble_of scramble h =
    let e : 20 - length scramble ≡ 0 = omega arith in
    ap (λ n. take 20 (scramble ++ replicate n 0)) e
    ∙ ap (λ n. take n (scramble ++ [])) (sym h)
    ∙ take_append scramble []

-- What the protocol says of the fields of a handshake
pub record IsHandshake (hs : ServerHandshake) (part1 part2 : Bytes) : Type 0 where
  pub version_text : All (λ c. c ≢ 0) hs.server_version
  pub name_text : All (λ c. c ≢ 0) hs.auth_plugin_name
  pub connection_id_fits : hs.connection_id < 4294967296
  pub status_fits : hs.status_flags < 65536
  pub capabilities_fit : hs.capabilities < 4294967296
  pub part1_size : length part1 ≡ 8
  pub part2_size : length part2 ≡ 12
  pub parts : hs.scramble ≡ part1 ++ part2
  pub knows_plugins : has hs.capabilities client_plugin_auth ≡ true
  pub is_secure : has hs.capabilities client_secure_connection ≡ true

unchanged :
    (hs : ServerHandshake) (caps : ℕ) (scramble rest : Bytes)
    → caps ≡ hs.capabilities
    → hs.scramble ≡ scramble
    → ◌≡◌ {A = Option (ServerHandshake × Bytes)}
        (some (record hs { scramble = scramble; capabilities = caps }, rest))
        (some (hs, rest))
unchanged hs caps scramble rest e f =
    ap (λ c. some (record hs { scramble = scramble; capabilities = c }, rest)) e
    ∙ ap (λ s. some (record hs { scramble = s }, rest)) (sym f)

tail_read :
    (hs : ServerHandshake) (part1 part2 : Bytes)
    → IsHandshake hs part1 part2
    → read_handshake_tail hs.protocol_version hs.server_version hs.connection_id part1
        (hs.capabilities % 65536)
        (handshake_tail hs part2)
      ≡ some (hs, [])
unfolding read_handshake_tail
tail_read hs part1 part2 h =
    let end : Bytes = hs.auth_plugin_name ++ 0 ∷ [] in
    let r4 : Bytes = (part2 ++ 0 ∷ []) ++ end in
    let r3 : Bytes = replicate 10 0 ++ r4 in
    let r2 : Bytes = le_bytes 2 (hs.capabilities / 65536) ++ 21 ∷ r3 in
    let r1 : Bytes = le_bytes 2 hs.status_flags ++ r2 in
    let caps : ℕ = hs.capabilities % 65536 + 65536 * (hs.capabilities / 65536) in
    let back : caps ≡ hs.capabilities = omega arith in
    let plugins : has caps client_plugin_auth ≡ true =
      ap (λ c. has c client_plugin_auth) back ∙ h.knows_plugins in
    let secure : has caps client_secure_connection ≡ true =
      ap (λ c. has c client_secure_connection) back ∙ h.is_secure in
    let whole : to_scramble (part1 ++ part2) ≡ part1 ++ part2 =
      scramble_of (part1 ++ part2)
        (omega (arith, length-append part1 part2, h.part1_size, h.part2_size)) in
    rw
      (
        read_le-le_bytes 2 hs.status_flags r2 h.status_fits,
        read_le-le_bytes 2 (hs.capabilities / 65536) (21 ∷ r3) (omega (arith, h.capabilities_fit)),
        length_of caps 21 r3 plugins,
        skip_filler10 r4,
        part2_of caps part2 end secure h.part2_size,
        name_of caps hs.auth_plugin_name plugins h.name_text,
        whole,
        ◌>>=◌,
        ◌>>◌,
      )
      (unchanged hs caps (part1 ++ part2) [] back h.parts)

-- What the server says of itself is what the driver reads of its handshake: the version, the connection, the 20 bytes of
-- the scramble from their two places, the capabilities from their two halves, the status and the plugin.
pub parse_server_handshake-handshake_payload :
    (hs : ServerHandshake) (part1 part2 : Bytes)
    → IsHandshake hs part1 part2
    → parse_server_handshake (handshake_payload hs part1 part2) ≡ some hs
unfolding parse_server_handshake read_handshake
parse_server_handshake-handshake_payload hs part1 part2 h =
    let tail : Bytes = handshake_tail hs part2 in
    let r3 : Bytes = le_bytes 2 (hs.capabilities % 65536) ++ tail in
    let r2 : Bytes = part1 ++ 0 ∷ r3 in
    let r1 : Bytes = le_bytes 4 hs.connection_id ++ r2 in
    rw
      (
        null_terminated hs.server_version r1 h.version_text,
        read_le-le_bytes 4 hs.connection_id r2 h.connection_id_fits,
        string_of 8 part1 (0 ∷ r3) h.part1_size,
        skip_one 0 r3,
        read_le-le_bytes 2 (hs.capabilities % 65536) tail (omega arith),
        tail_read hs part1 part2 h,
        ◌>>=◌,
        ◌>>◌,
      )
      refl
