-- ===== src/MysqlAsync/Rows.antt =====
-- ormpp/mysql_async.hpp, from the texts of a row to a struct: `assign_integral`, `assign_text_value` and
-- `map_reflectable_row`. `none` is an exception. Floating-point numbers and `char` are left out.
pub mod RoundTrip
use ormpp.Base.{
  ℕ, zero, suc, ◌+◌, ◌-◌, ◌*◌, ◌^◌, ◌%◌, Bool, true, false, not, ◌&&◌, ◌||◌, List, [], ◌∷◌, ◌++◌,
  Option, none, some, ◌==◌, ltb, leb, if◌then◌else◌, Bytes, codes, equal, take, replicate, length,
}
use ormpp.MysqlAsync.Arguments.{Argument, null, boolean, plus, minus, text, chars, blob}

-- The type of a member: an enumerator is read as its underlying type, of so many bits.
pub data Target : Type 0 where
  boolean_target : Target
  unsigned signed : ℕ → Target
  string_target : Target
  array_target : ℕ → Target
  blob_target : Target

-- Digits, and nothing else, as a number behind what was read of it before
unfoldable pub read_digits : ℕ → Bytes → Option ℕ
read_digits value [] = some value
read_digits value (c ∷ s) =
    let later = read_digits (value * 10 + (c - b'0')) s in
    if leb b'0' c && leb c b'9' then later else none

abbrev pub below : ℕ → Option ℕ → Option ℕ
below limit none = none
below limit (some value) = if ltb value limit then some value else none

-- `std::from_chars` on the whole text: at least one digit, and a value less than the limit
unfoldable pub from_chars : ℕ → Bytes → Option ℕ
unfolding read_digits
from_chars limit [] = none
from_chars limit (c ∷ s) = below limit (read_digits 0 (c ∷ s))

abbrev pub as_plus : Option ℕ → Option Argument
as_plus none = none
as_plus (some n) = some (plus n)

-- `minus n` is -(n + 1).
abbrev pub as_minus : Option ℕ → Option Argument
as_minus none = none
as_minus (some zero) = some (plus 0)
as_minus (some (suc n)) = some (minus n)

-- With a sign in front, for a type of `bits` bits with a sign
unfoldable pub from_chars_signed : ℕ → Bytes → Option Argument
unfolding from_chars
from_chars_signed bits [] = none
from_chars_signed bits (c ∷ s) =
    if c == b'-'
    then as_minus (from_chars (2 ^ (bits - 1) + 1) s)
    else as_plus (from_chars (2 ^ (bits - 1)) (c ∷ s))

-- `memset` and `memcpy`
abbrev pub filled : ℕ → Bytes → Bytes
filled size s = take size s ++ replicate (size - length s) 0

unfoldable pub assign_text : Target → Bytes → Option Argument
unfolding from_chars_signed
assign_text boolean_target s =
    some (boolean (not (equal s (codes "0") || equal s (codes "false") || equal s (codes "FALSE"))))
assign_text (unsigned bits) s = as_plus (from_chars (2 ^ bits) s)
assign_text (signed bits) s = from_chars_signed bits s
assign_text string_target s = some (text s)
assign_text (array_target size) s = some (chars (filled size s))
assign_text blob_target s = some (blob s)

-- `U{}`, of an optional or not
unfoldable pub unset_value : Bool → Target → Argument
unset_value true target = null
unset_value false boolean_target = boolean false
unset_value false (unsigned bits) = plus 0
unset_value false (signed bits) = plus 0
unset_value false string_target = text []
unset_value false (array_target size) = chars (replicate size 0)
unset_value false blob_target = blob []

unfoldable pub assign_text_value : Bool → Target → Option Bytes → Option Argument
unfolding assign_text unset_value
assign_text_value optional target none = some (unset_value optional target)
assign_text_value optional target (some s) = assign_text target s

abbrev pub before_values : Option Argument → Option (List Argument) → Option (List Argument)
before_values (some value) (some values) = some (value ∷ values)
before_values _ _ = none

-- The columns behind the last member are not looked at.
unfoldable pub map_reflectable_row :
    List (Bool × Target) → List (Option Bytes) → Option (List Argument)
unfolding assign_text_value
map_reflectable_row [] row = some []
map_reflectable_row (t ∷ targets) [] = none
map_reflectable_row ((optional, target) ∷ targets) (field ∷ row) =
    before_values (assign_text_value optional target field) (map_reflectable_row targets row)
