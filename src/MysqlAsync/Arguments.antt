-- ===== src/MysqlAsync/Arguments.antt =====
-- ormpp/mysql_async.hpp, how the arguments of a statement become its text: `escape_mysql_string`,
-- `blob_to_hex`, `to_query_arg_impl`, `find_next_placeholder`, `replace_next_placeholder` and
-- `format_query_args`. A text is the list of its bytes, and `none` is the exception of a mismatch.
pub mod Literal
pub mod Substitution
use ormpp.Base.{
  ℕ, zero, suc, ◌+◌, ◌-◌, ◌/◌, ◌%◌, Bool, true, false, not, ◌&&◌, ◌||◌, List, [], ◌∷◌, ◌++◌, map,
  Option, none, some, ◌==◌, ltb, if◌then◌else◌, Bytes, codes, take, drop, length, starts, to_string,
}

-- The `switch` of `escape_mysql_string` and the branch before it
unfoldable pub escape_byte : Bool → ℕ → Bytes
escape_byte true c = if c == b'\'' then b'\'' ∷ b'\'' ∷ [] else c ∷ []
escape_byte false c =
    if c == 0
    then b'\\' ∷ b'0' ∷ []
    else if c == 10
    then b'\\' ∷ b'n' ∷ []
    else if c == 13
    then b'\\' ∷ b'r' ∷ []
    else if c == b'\\'
    then b'\\' ∷ b'\\' ∷ []
    else if c == b'\''
    then b'\\' ∷ b'\'' ∷ []
    else if c == b'"'
    then b'\\' ∷ b'"' ∷ []
    else if c == 26
    then b'\\' ∷ b'Z' ∷ []
    else c ∷ []

-- The loop appends to `result`; here each piece stands in front of what the rest gives.
unfoldable pub escape_bytes : Bool → Bytes → Bytes
unfolding escape_byte
escape_bytes no_backslash_escapes [] = []
escape_bytes no_backslash_escapes (c ∷ input) =
    escape_byte no_backslash_escapes c ++ escape_bytes no_backslash_escapes input

unfoldable pub escape_mysql_string : Bytes → Bool → Bytes
unfolding escape_bytes
escape_mysql_string input no_backslash_escapes =
    b'\'' ∷ (escape_bytes no_backslash_escapes input ++ b'\'' ∷ [])

-- `hex[digit]`
unfoldable pub hex_digit : ℕ → ℕ
hex_digit digit = if ltb digit 10 then b'0' + digit else b'A' + (digit - 10)

unfoldable pub hex_bytes : Bytes → Bytes
unfolding hex_digit
hex_bytes [] = []
hex_bytes (c ∷ value) = hex_digit (c / 16 % 16) ∷ hex_digit (c % 16) ∷ hex_bytes value

unfoldable pub blob_to_hex : Bytes → Bytes
unfolding hex_bytes
blob_to_hex value = b'0' ∷ b'x' ∷ hex_bytes value

-- `std::find(…, '\0')` on the bytes of an array
abbrev pub until_zero : Bytes → Bytes
until_zero [] = []
until_zero (c ∷ value) = if c == 0 then [] else c ∷ until_zero value

-- An argument by its type: no value, a `bool`, an integer or enumerator of either sign (`minus n` is
-- -(n + 1)), a string, an array of `char`, a blob
pub data Argument : Type 0 where
  null : Argument
  boolean : Bool → Argument
  plus : ℕ → Argument
  minus : ℕ → Argument
  text : Bytes → Argument
  chars : Bytes → Argument
  blob : Bytes → Argument

unfoldable pub to_query_arg_impl : Argument → Bool → Bytes
unfolding escape_mysql_string blob_to_hex
to_query_arg_impl null no_backslash_escapes = codes "NULL"
to_query_arg_impl (boolean true) no_backslash_escapes = b'1' ∷ []
to_query_arg_impl (boolean false) no_backslash_escapes = b'0' ∷ []
to_query_arg_impl (plus n) no_backslash_escapes = to_string n
to_query_arg_impl (minus n) no_backslash_escapes = b'-' ∷ to_string (suc n)
to_query_arg_impl (text s) no_backslash_escapes = escape_mysql_string s no_backslash_escapes
to_query_arg_impl (chars s) no_backslash_escapes =
    escape_mysql_string (until_zero s) no_backslash_escapes
to_query_arg_impl (blob s) no_backslash_escapes = blob_to_hex s

pub data Quote : Type 0 where
  single double backtick : Quote

abbrev pub mark : Quote → ℕ
mark single = b'\''
mark double = b'"'
mark backtick = b'`'

-- The places of the scan: the body of the `for` loop, and those of the loops inside its `switch`.
-- A place ending in `_second` is the second byte of a pair, over which `i += 2` steps.
pub data Place : Type 0 where
  plain : Place
  quoted quoted_second : Quote → Place
  line line_second : Place
  block block_second block_last : Place

-- The `switch` at a byte of the `for` loop
open_at : ℕ → Bytes → Place
open_at c rest =
    if c == b'\''
    then quoted single
    else if c == b'"'
    then quoted double
    else if c == b'`'
    then quoted backtick
    else if c == b'-'
    then (if starts b'-' rest then line_second else plain)
    else if c == b'#'
    then line
    else if c == b'/'
    then (if starts b'*' rest then block_second else plain)
    else plain

-- A backslash is read in quotes, not in backticks.
abbrev pub takes_backslash : Bool → Quote → ℕ → Bool
takes_backslash no_backslash_escapes backtick c = false
takes_backslash no_backslash_escapes _ c = not no_backslash_escapes && c == b'\\'

-- The place of the next byte, from that of this one, this one, and the text behind it.
unfoldable pub step : Bool → Place → ℕ → Bytes → Place
unfolding open_at
step no_backslash_escapes plain c rest = open_at c rest
step no_backslash_escapes (quoted q) c rest =
    if takes_backslash no_backslash_escapes q c
    then quoted_second q
    else if c == mark q
    then (if starts (mark q) rest then quoted_second q else plain)
    else quoted q
step no_backslash_escapes (quoted_second q) c rest = quoted q
step no_backslash_escapes line_second c rest = line
step no_backslash_escapes line c rest = if c == 10 || c == 13 then plain else line
step no_backslash_escapes block_second c rest = block
step no_backslash_escapes block c rest = if c == b'*' && starts b'/' rest then block_last else block
step no_backslash_escapes block_last c rest = plain

-- `case '?'`
abbrev pub is_hit : Place → ℕ → Bool
is_hit plain c = c == b'?'
is_hit _ c = false

-- The scan at index `i`, over the text from there on
unfoldable pub scan : Bool → Place → Bytes → ℕ → Option ℕ
scan no_backslash_escapes p [] i = none
scan no_backslash_escapes p (c ∷ cs) i =
    let later = scan no_backslash_escapes (step no_backslash_escapes p c cs) cs (i + 1) in
    if is_hit p c then some i else later

-- `none` is `npos`.
unfoldable pub find_next_placeholder : Bytes → ℕ → Bool → Option ℕ
unfolding scan
find_next_placeholder sql start no_backslash_escapes =
    scan no_backslash_escapes plain (drop start sql) start

-- The text and the position behind the value
unfoldable pub replace_next_placeholder : Bytes → ℕ → Bytes → Bool → Option (Bytes × ℕ)
unfolding find_next_placeholder
replace_next_placeholder sql search_pos value no_backslash_escapes =
    elim (find_next_placeholder sql search_pos no_backslash_escapes) [
      | none ↦ none
      | some pos ↦ some (take pos sql ++ (value ++ drop (pos + 1) sql), pos + length value)
    ]

-- The search behind the last value
abbrev pub no_more : Bytes → Option ℕ → Option Bytes
no_more sql none = some sql
no_more sql (some pos) = none

unfoldable pub replace_all : Bytes → ℕ → List Bytes → Bool → Option Bytes
unfolding replace_next_placeholder find_next_placeholder
replace_all sql search_pos [] no_backslash_escapes =
    no_more sql (find_next_placeholder sql search_pos no_backslash_escapes)
replace_all sql search_pos (value ∷ values) no_backslash_escapes =
    elim (replace_next_placeholder sql search_pos value no_backslash_escapes) [
      | none ↦ none
      | some (formatted, next) ↦ replace_all formatted next values no_backslash_escapes
    ]

-- `format_query_args`, and the end of `format_struct_sql`
unfoldable pub format_query_args : Bytes → Bool → List Argument → Option Bytes
unfolding replace_all to_query_arg_impl
format_query_args sql no_backslash_escapes args =
    replace_all sql 0 (map (λ arg. to_query_arg_impl arg no_backslash_escapes) args)
      no_backslash_escapes
