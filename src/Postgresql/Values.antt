-- ===== src/Postgresql/Values.antt =====
-- ormpp/postgresql.hpp, `set_param_values` and `assign`: the values of members as the texts of libpq.
pub mod RoundTrip
use ormpp.Base.{
  ℕ, zero, suc, ◌-◌, ◌/◌, ◌%◌, ◌^◌, Bool, true, false, List, [], ◌∷◌, ◌++◌, Option, none, some,
  ◌==◌, ltb, if◌then◌else◌, Bytes, take, length, replicate,
}
use ormpp.Utility.Escape.{Value, plus, minus, text}
use ormpp.Utility.Select.{skip_space}
use ormpp.Postgresql.{Library, read_digits}

-- The value of a member by its type: an optional without value, a `char`, another integer or an enumerator of up
-- to 32 bits, an integer of 64, a floating-point number by its bits, a string or view, an array of `char`, a blob
pub data Field : Type 0 where
  missing : Field
  letter : ℕ → Field
  integer : Value → Field
  wide : Value → Field
  floating : ℕ → Field
  characters : Bytes → Field
  char_array : Bytes → Field
  binary : Bytes → Field

-- The integers and enumerators by what they hold
pub data IntType : Type 0 where
  boolean : IntType
  signed8 signed16 signed32 signed64 : IntType
  unsigned8 unsigned16 unsigned32 unsigned64 : IntType

-- The type of a member without its `optional`. The text is a `std::string`; the views, which share one string of the
-- driver, are left out.
pub data Kind : Type 0 where
  letter_kind : Kind
  integer_kind : IntType → Kind
  wide_kind : IntType → Kind
  floating_kind : Kind
  text_kind : Kind
  array_kind : ℕ → Kind
  blob_kind : Kind

pub record Member : Type 0 where
  pub optional : Bool
  pub kind : Kind

-- The bytes of a C string
abbrev pub until_zero : Bytes → Bytes
until_zero [] = []
until_zero (c ∷ value) = if c == 0 then [] else c ∷ until_zero value

-- A text in a vector of zeros; one that is longer runs over its end.
abbrev pub padded : ℕ → Bytes → Bytes
padded size s = s ++ replicate (size - length s) 0

abbrev pub negated : ℕ → Value
negated zero = plus 0
negated (suc n) = minus n

-- A number with its sign
unfoldable pub signed : Bytes → Value
unfolding read_digits
signed [] = plus 0
signed (c ∷ cs) =
    if c == b'-'
    then negated (read_digits 0 cs)
    else if c == b'+'
    then plus (read_digits 0 cs)
    else plus (read_digits 0 (c ∷ cs))

abbrev in_range : ℕ → Value → Bool
in_range bound (plus n) = ltb n bound
in_range bound (minus n) = ltb n bound
in_range bound (text s) = false

-- A number as the 64 bits of its two's complement
abbrev bits_of : Value → ℕ
bits_of (plus n) = n
bits_of (minus n) = 2 ^ 64 - 1 - n
bits_of (text s) = 0

abbrev as_signed : ℕ → ℕ → Value
as_signed size n = if ltb n (size / 2) then plus n else minus (size - 1 - n)

-- The conversion of what is read to the type of the member
unfoldable pub converted : IntType → Value → Value
converted boolean v = plus (if bits_of v == 0 then 0 else 1)
converted signed8 v = as_signed 256 (bits_of v % 256)
converted signed16 v = as_signed 65536 (bits_of v % 65536)
converted signed32 v = as_signed 4294967296 (bits_of v % 4294967296)
converted signed64 v = as_signed 18446744073709551616 (bits_of v % 18446744073709551616)
converted unsigned8 v = plus (bits_of v % 256)
converted unsigned16 v = plus (bits_of v % 65536)
converted unsigned32 v = plus (bits_of v % 4294967296)
converted unsigned64 v = plus (bits_of v % 18446744073709551616)

-- The conversion of the number to a `char`
abbrev to_char : Value → ℕ
to_char (plus n) = n % 256
to_char (minus n) = 255 - n % 256
to_char (text s) = 0

-- `value = {}`
unfoldable pub default_of : Bool → Kind → Field
default_of true kind = missing
default_of false letter_kind = letter 0
default_of false (integer_kind t) = integer (plus 0)
default_of false (wide_kind t) = wide (plus 0)
default_of false floating_kind = floating 0
default_of false text_kind = characters []
default_of false (array_kind size) = char_array (replicate size 0)
default_of false blob_kind = binary []

module _ {Db : Type 0} (lib : Library Db) where
  -- The vector that is pushed for the value; a string and an array are copied with the byte behind them.
  unfoldable pub set_param_values : Field → Bytes
  set_param_values missing = []
  set_param_values (letter c) = c ∷ replicate 19 0
  set_param_values (integer v) = padded 20 (lib.to_chars v)
  set_param_values (wide v) = padded 65 (lib.to_chars v)
  set_param_values (floating bits) = padded 20 (lib.format_float bits)
  set_param_values (characters s) = s ++ 0 ∷ []
  set_param_values (char_array s) = s ++ take 1 lib.memory_behind
  set_param_values (binary s) = s

  -- The pointer to the vector as libpq takes it: a null pointer is NULL, another one a C string.
  unfoldable pub passed : Bytes → Option Bytes
  passed [] = none
  passed (c ∷ cs) = some (until_zero (c ∷ cs ++ lib.memory_behind))

  -- `std::atoi` and `std::atoll`; what they give of a number beyond their range is the C library's.
  unfoldable pub atoi : Bytes → Value
  unfolding signed skip_space
  atoi s = let v = signed (skip_space s) in if in_range 2147483648 v then v else lib.atoi_beyond s

  unfoldable pub atoll : Bytes → Value
  unfolding signed skip_space
  atoll s =
      let v = signed (skip_space s) in
      if in_range 9223372036854775808 v then v else lib.atoll_beyond s

  unfoldable pub assign_text : Kind → Bytes → Field
  unfolding atoi atoll converted
  assign_text letter_kind s = letter (to_char (atoi s))
  assign_text (integer_kind t) s = integer (converted t (atoi s))
  assign_text (wide_kind t) s = wide (converted t (atoll s))
  assign_text floating_kind s = floating (lib.atof s)
  assign_text text_kind s = characters (until_zero s)
  assign_text (array_kind size) s = char_array (take size (s ++ 0 ∷ lib.memory_behind))
  assign_text blob_kind s = binary s

  unfoldable pub assign : Member → Option Bytes → Field
  unfolding default_of assign_text
  assign m none = default_of m.optional m.kind
  assign m (some s) = assign_text m.kind s
