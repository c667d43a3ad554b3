-- ===== src/MysqlAsync/Connect/Server.antt =====
-- The answer to a handshake, as a server of the protocol reads it.
use ormpp.Base.{
  ℕ, zero, suc, ◌+◌, ◌*◌, ◌/◌, ◌%◌, ◌^◌, ◌<◌, ◌≢◌, Bool, true, false, not, ◌&&◌, List, [], ◌∷◌,
  ◌++◌, none, some, ◌==◌, if◌then◌else◌, Bytes, codes, is_empty, All, length, replicate, Bool-cases,
  inl, inr, ◌≡◌, refl, sym, ap, ◌∙◌, append_assoc, arith,
}
use native.Mathlib.Nat.{div-div-eq-div-mul}
use ormpp.MysqlAsync.Reader.{
  Reader, ◌>>=◌, ◌>>◌, pure, read_byte, read_le, read_string, skip, read_null_terminated_string,
  read_lenenc_int, read_lenenc_string, le_bytes, append_lenenc_int, append_lenenc_string,
}
use ormpp.MysqlAsync.Reader.RoundTrip.{
  read_le-le_bytes, read_string-append, read_lenenc_int-append, uint64_mod,
}
use ormpp.MysqlAsync.Handshake.RoundTrip.{null_terminated}
use ormpp.MysqlAsync.Connect.{Account, and_bits, client_caps, plugin_of, negotiated, answer_to}
use ormpp.MysqlAsync.Handshake.{ServerHandshake, has, connect_attrs}

-- What a server learns from the answer
pub record ClientAnswer : Type 0 where
  pub capabilities : ℕ
  pub max_packet_size : ℕ
  pub collation : ℕ
  pub user : Bytes
  pub auth_data : Bytes
  pub database : Bytes
  pub plugin : Bytes
  pub attributes : List Bytes

-- The database where CLIENT_CONNECT_WITH_DB is set
pub read_database : ℕ → Reader Bytes
unfolding read_null_terminated_string
read_database capabilities s =
    if has capabilities 0x8 then read_null_terminated_string s else some ([], s)

pub read_texts : ℕ → Reader (List Bytes)
unfolding read_lenenc_string
read_texts zero s = some ([], s)
read_texts (suc n) s = elim (read_lenenc_string s) [
  | none ↦ none
  | some (text, rest) ↦ elim (read_texts n rest) [
    | none ↦ none
    | some (texts, behind) ↦ some (text ∷ texts, behind)
  ]
]

-- The protocol's HandshakeResponse41 with the capabilities for a plugin, for a response of any length and for
-- attributes, here three of them
unfoldable pub read_answer : Reader ClientAnswer
read_answer = do
  capabilities ← read_le 4
  max_packet_size ← read_le 4
  collation ← read_byte
  skip 23
  user ← read_null_terminated_string
  size ← read_lenenc_int
  auth_data ← read_string size
  database ← read_database capabilities
  plugin ← read_null_terminated_string
  attributes_size ← read_lenenc_int
  attributes ← read_texts 6
  pure (record {
    capabilities = capabilities;
    max_packet_size = max_packet_size;
    collation = collation;
    user = user;
    auth_data = auth_data;
    database = database;
    plugin = plugin;
    attributes = attributes;
  })

product_bit : (p q : ℕ) → p < 2 → q < 2 → p * q < 2
product_bit zero q h k = omega arith
product_bit (suc zero) q h k = omega (arith, k)
product_bit (suc (suc p)) q h k = absurd (omega (arith, h))

half : (x r : ℕ) → x < 2 → (x + 2 * r) / 2 ≡ r
half x r h = omega (arith, h)

low : (x r : ℕ) → x < 2 → (x + 2 * r) % 2 ≡ x
low x r h = omega (arith, h)

-- A bit of the negotiated capabilities
and_bits-bit :
    (w k a b : ℕ) → k < w → (and_bits w a b / 2 ^ k) % 2 ≡ ((a / 2 ^ k) % 2) * ((b / 2 ^ k) % 2)
unfolding and_bits
and_bits-bit zero k a b h = elim h [ ]
and_bits-bit (suc w) zero a b h =
    let x : ℕ = (a % 2) * (b % 2) in
    let small : x < 2 = product_bit (a % 2) (b % 2) (omega arith) (omega arith) in
    rw (by_one (x + 2 * and_bits w (a / 2) (b / 2)), by_one a, by_one b)
      (low x (and_bits w (a / 2) (b / 2)) small)
  where
    by_one : (n : ℕ) → n / 2 ^ 0 ≡ n
    by_one n = omega arith
and_bits-bit (suc w) (suc k) a b h =
    let x : ℕ = (a % 2) * (b % 2) in
    let r : ℕ = and_bits w (a / 2) (b / 2) in
    let small : x < 2 = product_bit (a % 2) (b % 2) (omega arith) (omega arith) in
    let ih : (r / 2 ^ k) % 2 ≡ ((a / 2 / 2 ^ k) % 2) * ((b / 2 / 2 ^ k) % 2) =
      and_bits-bit w k (a / 2) (b / 2) (omega (arith, h)) in
    ap (λ n. n % 2) (shifted (x + 2 * r) k)
    ∙ ap (λ n. (n / 2 ^ k) % 2) (half x r small)
    ∙ ih
    ∙ ap (λ n. (n % 2) * ((b / 2 / 2 ^ k) % 2)) (sym (shifted a k))
    ∙ ap (λ n. ((a / 2 ^ suc k) % 2) * (n % 2)) (sym (shifted b k))
  where
    shifted : (n k : ℕ) → n / 2 ^ suc k ≡ n / 2 / 2 ^ k
    shifted n k = ap (λ m. n / m) (power k) ∙ sym (div-div-eq-div-mul n 2 (2 ^ k))
      where
        power : (k : ℕ) → 2 ^ suc k ≡ 2 * 2 ^ k
        power k = omega arith

-- The capabilities that the driver asks for at any server, each by the number of its bit: LONG_PASSWORD, FOUND_ROWS,
-- LONG_FLAG, PROTOCOL_41, TRANSACTIONS, SECURE_CONNECTION, MULTI_STATEMENTS, MULTI_RESULTS, PLUGIN_AUTH,
-- CONNECT_ATTRS, PLUGIN_AUTH_LENENC_CLIENT_DATA and DEPRECATE_EOF
abbrev pub asked : List ℕ
asked = 0 ∷ 1 ∷ 2 ∷ 9 ∷ 13 ∷ 15 ∷ 16 ∷ 17 ∷ 19 ∷ 20 ∷ 21 ∷ 24 ∷ []

-- A capability that is asked for is negotiated exactly where the server has it.
negotiated_bit :
    (account : Account) (hs : ServerHandshake) (k : ℕ)
    → k < 32
    → (client_caps account.database / 2 ^ k) % 2 ≡ 1
    → has (negotiated account hs) (2 ^ k) ≡ has hs.capabilities (2 ^ k)
unfolding negotiated
negotiated_bit account hs k h e =
    ap (λ n. n == 1)
      (and_bits-bit 32 k (client_caps account.database) hs.capabilities h
        ∙ ap (λ n. n * ((hs.capabilities / 2 ^ k) % 2)) e
        ∙ omega arith)

pub negotiated-asked :
    (account : Account) (hs : ServerHandshake)
    → All (λ k. has (negotiated account hs) (2 ^ k) ≡ has hs.capabilities (2 ^ k)) asked
negotiated-asked account hs =
    let bit : (k : ℕ)
        → k < 32
        → ((db : Bytes) → (client_caps db / 2 ^ k) % 2 ≡ 1)
        → has (negotiated account hs) (2 ^ k) ≡ has hs.capabilities (2 ^ k) =
      λ k h e. negotiated_bit account hs k h (e account.database) in
    (
      bit 0 (omega arith) (by_database 0 refl refl),
      (
        bit 1 (omega arith) (by_database 1 refl refl),
        (
          bit 2 (omega arith) (by_database 2 refl refl),
          (
            bit 9 (omega arith) (by_database 9 refl refl),
            (
              bit 13 (omega arith) (by_database 13 refl refl),
              (
                bit 15 (omega arith) (by_database 15 refl refl),
                (
                  bit 16 (omega arith) (by_database 16 refl refl),
                  (
                    bit 17 (omega arith) (by_database 17 refl refl),
                    (
                      bit 19 (omega arith) (by_database 19 refl refl),
                      (
                        bit 20 (omega arith) (by_database 20 refl refl),
                        (
                          bit 21 (omega arith) (by_database 21 refl refl),
                          (bit 24 (omega arith) (by_database 24 refl refl), tt),
                        ),
                      ),
                    ),
                  ),
                ),
              ),
            ),
          ),
        ),
      ),
    )
  where
    by_database :
        (k : ℕ)
        → (client_caps [] / 2 ^ k) % 2 ≡ 1
        → (client_caps (0 ∷ []) / 2 ^ k) % 2 ≡ 1
        → (db : Bytes) → (client_caps db / 2 ^ k) % 2 ≡ 1
    by_database k without named [] = without
    by_database k without named (c ∷ cs) = named

pub negotiated-database :
    (account : Account) (hs : ServerHandshake)
    → has (negotiated account hs) 0x8 ≡ (not (is_empty account.database) && has hs.capabilities 0x8)
unfolding negotiated
negotiated-database account hs =
    ap (λ n. n == 1)
      (and_bits-bit 32 3 (client_caps account.database) hs.capabilities (omega arith)
        ∙ ap (λ n. n * ((hs.capabilities / 8) % 2)) (own account.database))
    ∙ both_have (is_empty account.database) ((hs.capabilities / 8) % 2)
  where
    own : (db : Bytes) → (client_caps db / 8) % 2 ≡ (if is_empty db then 0 else 1)
    own [] = refl
    own (c ∷ cs) = refl

    both_have : (e : Bool) (y : ℕ) → ((if e then 0 else 1) * y == 1) ≡ (not e && (y == 1))
    both_have true y = let e : 0 * y ≡ 0 = omega arith in ap (λ n. n == 1) e
    both_have false y = let e : 1 * y ≡ y = omega arith in ap (λ n. n == 1) e

and_bits_lt : (w a b : ℕ) → and_bits w a b < 2 ^ w
unfolding and_bits
and_bits_lt zero a b = omega arith
and_bits_lt (suc w) a b =
    fits ((a % 2) * (b % 2)) (and_bits w (a / 2) (b / 2)) (2 ^ w) (2 ^ suc w) (omega arith)
      (product_bit (a % 2) (b % 2) (omega arith) (omega arith)) (and_bits_lt w (a / 2) (b / 2))
  where
    fits : (x r p q : ℕ) → q ≡ p * 2 → x < 2 → r < p → x + 2 * r < q
    fits x r p q e h k = omega (arith, e, h, k)

negotiated_lt : (account : Account) (hs : ServerHandshake) → negotiated account hs < 256 ^ 4
unfolding negotiated
negotiated_lt account hs = and_bits_lt 32 (client_caps account.database) hs.capabilities

skip_zeros : (rest : Bytes) → skip 23 (replicate 23 0 ++ rest) ≡ some (tt, rest)
unfolding skip
skip_zeros rest = ground arith

database_of :
    (caps : ℕ) (database rest : Bytes)
    → All (λ c. c ≢ 0) database
    → read_database caps ((if has caps 0x8 then database ++ 0 ∷ [] else []) ++ rest)
      ≡ some ((if has caps 0x8 then database else []), rest)
unfolding read_database
database_of caps database rest h = elim (Bool-cases (has caps 0x8)) [
  | inl e ↦ rw (e, append_assoc database (0 ∷ []) rest) (null_terminated database rest h)
  | inr e ↦ rw e refl
]

attributes_of :
    read_texts 6 connect_attrs
    ≡ some (
      codes "_client_name"
          ∷ codes "ormpp"
          ∷ codes "_client_version"
          ∷ codes "async"
          ∷ codes "_os"
          ∷ codes "linux"
          ∷ [],
      [],
    )
unfolding read_texts connect_attrs read_lenenc_string append_lenenc_string read_byte read_string
attributes_of = refl

-- What the server is to learn
abbrev pub meant : Account → ServerHandshake → Bytes → ClientAnswer
meant account hs auth_data = record {
  capabilities = negotiated account hs;
  max_packet_size = 16777216;
  collation = 45;
  user = account.user;
  auth_data = auth_data;
  database = if has (negotiated account hs) 0x8 then account.database else [];
  plugin = plugin_of hs;
  attributes =
      codes "_client_name"
      ∷ codes "ormpp"
      ∷ codes "_client_version"
      ∷ codes "async"
      ∷ codes "_os"
      ∷ codes "linux"
      ∷ [];
}

-- The layout of the answer
layout :
    (account : Account) (hs : ServerHandshake) (auth_data : Bytes)
    → answer_to account hs auth_data
      ≡ le_bytes 4 (negotiated account hs)
        ++ (le_bytes 4 16777216
            ++ (45
                ∷ (replicate 23 0
                    ++ (account.user
                        ++ 0
                          ∷ (append_lenenc_int (length auth_data)
                              ++ (auth_data
                                  ++ ((if has (negotiated account hs) 0x8
                                        then account.database ++ 0 ∷ []
                                        else [])
                                      ++ (plugin_of hs
                                          ++ 0
                                            ∷ (append_lenenc_int (length connect_attrs)
                                                ++ connect_attrs)))))))))
unfolding answer_to
layout account hs auth_data = refl

attributes_fit : length connect_attrs < uint64_mod
unfolding connect_attrs
attributes_fit = omega arith

-- A server reads the answer as it is meant.
pub read_answer-answer_to :
    (account : Account) (hs : ServerHandshake) (auth_data : Bytes)
    → All (λ c. c ≢ 0) account.user
    → All (λ c. c ≢ 0) account.database
    → All (λ c. c ≢ 0) (plugin_of hs)
    → length auth_data < uint64_mod
    → read_answer (answer_to account hs auth_data) ≡ some (meant account hs auth_data, [])
unfolding read_answer
read_answer-answer_to account hs auth_data user_text database_text plugin_text fits =
    let caps : ℕ = negotiated account hs in
    let r9 : Bytes = append_lenenc_int (length connect_attrs) ++ connect_attrs in
    let r8 : Bytes = plugin_of hs ++ 0 ∷ r9 in
    let r7 : Bytes = (if has caps 0x8 then account.database ++ 0 ∷ [] else []) ++ r8 in
    let r6 : Bytes = auth_data ++ r7 in
    let r5 : Bytes = append_lenenc_int (length auth_data) ++ r6 in
    let r4 : Bytes = account.user ++ 0 ∷ r5 in
    let r3 : Bytes = replicate 23 0 ++ r4 in
    let r2 : Bytes = le_bytes 4 16777216 ++ (45 ∷ r3) in
    ap read_answer (layout account hs auth_data)
    ∙ rw
        (
          read_le-le_bytes 4 caps r2 (negotiated_lt account hs),
          read_le-le_bytes 4 16777216 (45 ∷ r3) (omega arith),
          byte_of 45 r3,
          skip_zeros r4,
          null_terminated account.user r5 user_text,
          read_lenenc_int-append (length auth_data) r6 fits,
          read_string-append auth_data r7,
          database_of caps account.database r8 database_text,
          null_terminated (plugin_of hs) r9 plugin_text,
          read_lenenc_int-append (length connect_attrs) connect_attrs attributes_fit,
          attributes_of,
          ◌>>=◌,
          ◌>>◌,
        )
        refl
  where
    byte_of : (c : ℕ) (s : Bytes) → read_byte (c ∷ s) ≡ some (c, s)
    byte_of c s = unfold read_byte in refl
