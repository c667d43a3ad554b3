-- ===== src/MysqlAsync/Arguments/Literal.antt =====
-- How MySQL reads an argument back from its text.
use ormpp.Base.{
  ℕ, ◌+◌, ◌*◌, ◌-◌, ◌<◌, ◌/◌, ◌%◌, Bool, true, false, [], ◌∷◌, ◌++◌, Option, none, some, ◌==◌, leb,
  ◌&&◌, if◌then◌else◌, Bytes, All, starts, append_assoc, ◌≡◌, refl, ap, ◌∙◌, arith,
}
use ormpp.Utility.Escape.{escape_sql_string}
use ormpp.Utility.Escape.Literal.{
  read_literal, read_backslash_literal, add_front, read_literal-escape_sql_string,
}
use ormpp.MysqlAsync.Arguments.{
  escape_byte, escape_bytes, escape_mysql_string, hex_digit, hex_bytes, blob_to_hex,
}

-- What MySQL reads for the byte behind a backslash
unfoldable pub unescape : ℕ → ℕ
unescape c =
    if c == b'0'
    then 0
    else if c == b'n'
    then 10
    else if c == b'r'
    then 13
    else if c == b't'
    then 9
    else if c == b'b'
    then 8
    else if c == b'Z'
    then 26
    else c

-- The literal of MySQL behind its opening quote, in either mode of the session
abbrev pub read_mysql_literal : Bool → Bytes → Option (Bytes × Bytes)
read_mysql_literal true s = read_literal s
read_mysql_literal false s = read_backslash_literal unescape s

escape_bytes-true : (s : Bytes) → escape_bytes true s ≡ escape_sql_string s
unfolding escape_bytes escape_sql_string escape_byte
escape_bytes-true [] = refl
escape_bytes-true (c ∷ s) =
    ap (◌++◌ (if c == b'\'' then b'\'' ∷ b'\'' ∷ [] else c ∷ [])) (escape_bytes-true s)

one_byte :
    (c : ℕ) (rest : Bytes)
    → read_backslash_literal unescape (escape_byte false c ++ rest)
      ≡ add_front c (read_backslash_literal unescape rest)
unfolding escape_byte read_backslash_literal unescape
one_byte c [] = ground arith
one_byte c (d ∷ rest) = ground arith

literal_end :
    (rest : Bytes)
    → starts b'\'' rest ≡ false
    → read_backslash_literal unescape (b'\'' ∷ rest) ≡ some ([], rest)
unfolding read_backslash_literal
literal_end [] h = refl
literal_end (d ∷ rest) h = rw h

backslash_mode :
    (s rest : Bytes)
    → starts b'\'' rest ≡ false
    → read_backslash_literal unescape (escape_bytes false s ++ b'\'' ∷ rest) ≡ some (s, rest)
unfolding escape_bytes
backslash_mode [] rest h = literal_end rest h
backslash_mode (c ∷ s) rest h =
    ap (read_backslash_literal unescape)
      (append_assoc (escape_byte false c) (escape_bytes false s) (b'\'' ∷ rest))
    ∙ one_byte c (escape_bytes false s ++ b'\'' ∷ rest)
    ∙ rw (backslash_mode s rest h) refl

-- Whatever bytes a text holds, quotes, backslashes and zeros among them, MySQL reads its literal back as that
-- text and stops at the closing quote, in either mode of the session, if no quote follows the literal.
pub read_mysql_literal-escape_mysql_string :
    (no_backslash_escapes : Bool) (s rest : Bytes)
    → starts b'\'' rest ≡ false
    → (behind : Bytes) × (escape_mysql_string s no_backslash_escapes ++ rest ≡ b'\'' ∷ behind)
      × (read_mysql_literal no_backslash_escapes behind ≡ some (s, rest))
unfolding escape_mysql_string
read_mysql_literal-escape_mysql_string true s rest h = (
  escape_bytes true s ++ b'\'' ∷ rest,
  ap (◌∷◌ b'\'') (append_assoc (escape_bytes true s) (b'\'' ∷ []) rest),
  rw (escape_bytes-true s) (read_literal-escape_sql_string s rest h),
)
read_mysql_literal-escape_mysql_string false s rest h = (
  escape_bytes false s ++ b'\'' ∷ rest,
  ap (◌∷◌ b'\'') (append_assoc (escape_bytes false s) (b'\'' ∷ []) rest),
  backslash_mode s rest h,
)

-- What MySQL reads for a hexadecimal digit
abbrev digit_value : ℕ → Option ℕ
digit_value c =
    if leb b'0' c && leb c b'9'
    then some (c - b'0')
    else if leb b'A' c && leb c b'F'
    then some (c - b'A' + 10)
    else none

abbrev pair_value : Option ℕ → Option ℕ → Option Bytes → Option Bytes
pair_value (some high) (some low) (some bytes) = some ((high * 16 + low) ∷ bytes)
pair_value _ _ _ = none

unfoldable pub read_hex : Bytes → Option Bytes
read_hex [] = some []
read_hex (c ∷ []) = none
read_hex (c ∷ d ∷ rest) = pair_value (digit_value c) (digit_value d) (read_hex rest)

digit_value-hex_digit : (n : ℕ) → n < 16 → digit_value (hex_digit n) ≡ some n
unfolding hex_digit
digit_value-hex_digit n h = ground arith

hex_bytes_lem : (value : Bytes) → All (λ c. c < 256) value → read_hex (hex_bytes value) ≡ some value
unfolding read_hex hex_bytes
hex_bytes_lem [] h = refl
hex_bytes_lem (c ∷ value) h =
    let back : c / 16 % 16 * 16 + c % 16 ≡ c = omega (arith, h.0) in
    rw
      (
        digit_value-hex_digit (c / 16 % 16) (omega arith),
        digit_value-hex_digit (c % 16) (omega arith),
        hex_bytes_lem value h.1,
        back,
      )
      refl

-- MySQL reads the bytes of a blob back from its literal, which is `0x` and two digits for each byte.
pub read_hex-blob_to_hex :
    (value : Bytes)
    → All (λ c. c < 256) value
    → (digits : Bytes) × (blob_to_hex value ≡ b'0' ∷ b'x' ∷ digits) × (read_hex digits ≡ some value)
unfolding blob_to_hex
read_hex-blob_to_hex value h = (hex_bytes value, refl, hex_bytes_lem value h)
