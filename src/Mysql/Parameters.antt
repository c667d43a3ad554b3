-- ===== src/Mysql/Parameters.antt =====
-- ormpp/mysql.hpp, `set_param_bind` of a parameter, and `type_to_id` of ormpp/type_mapping.hpp.
pub mod Width
use ormpp.Base.{ℕ, Bool, true, false, List, [], ◌∷◌, ◌==◌, if◌then◌else◌, Bytes, take}
use ormpp.Utility.Types.{
  Scalar, bool_type, char_type, short_type, int_type, float_type, double_type, int8_type,
  int64_type, uint8_type, uint16_type, uint32_type, uint64_type, string_type, string_view_type,
}
use ormpp.Mysql.{
  BufferType, tiny_buffer, short_buffer, long_buffer, longlong_buffer, float_buffer, double_buffer,
  null_buffer, string_buffer, var_string_buffer, blob_buffer, Buffer, no_buffer, bits, bytes,
  Parameter,
}

-- The value of a member or an argument by its type: an optional without value, an enumerator, an arithmetic value
-- as its bits, a string, an array of `char`, a C string, a blob
pub data Field : Type 0 where
  missing : Field
  enumerator : ℕ → Field
  arithmetic : Scalar → ℕ → Field
  characters : Bytes → Field
  char_array : Bytes → Field
  c_string : Bytes → Field
  binary : Bytes → Field

-- The types without an overload (`bool`, blobs, arrays) do not reach it; they are given as a string here.
unfoldable pub type_to_id : Scalar → BufferType
type_to_id char_type = tiny_buffer
type_to_id short_type = short_buffer
type_to_id int_type = long_buffer
type_to_id float_type = float_buffer
type_to_id double_type = double_buffer
type_to_id int8_type = tiny_buffer
type_to_id int64_type = longlong_buffer
type_to_id uint8_type = tiny_buffer
type_to_id uint16_type = short_buffer
type_to_id uint32_type = long_buffer
type_to_id uint64_type = longlong_buffer
type_to_id _ = var_string_buffer

-- `std::is_unsigned_v`, asked for integers but `bool`, where `char` is signed
abbrev pub is_unsigned_type : Scalar → Bool
is_unsigned_type uint8_type = true
is_unsigned_type uint16_type = true
is_unsigned_type uint32_type = true
is_unsigned_type uint64_type = true
is_unsigned_type _ = false

-- The bytes that `strlen` counts
abbrev pub until_zero : Bytes → Bytes
until_zero [] = []
until_zero (c ∷ value) = if c == 0 then [] else c ∷ until_zero value

-- The branch of the arithmetic types
unfoldable pub arithmetic_bind : Scalar → BufferType × Bool
unfolding type_to_id
arithmetic_bind bool_type = (tiny_buffer, false)
arithmetic_bind t = (type_to_id t, is_unsigned_type t)

-- The `MYSQL_BIND` that is pushed; an array of `char` ends at its first zero or its size.
unfoldable pub set_param_bind : Field → Parameter
unfolding arithmetic_bind
set_param_bind missing = record {
  buffer_type = null_buffer;
  is_unsigned = false;
  buffer = no_buffer;
}
set_param_bind (enumerator n) = record {
  buffer_type = long_buffer;
  is_unsigned = false;
  buffer = bits n;
}
set_param_bind (arithmetic t n) = record {
  buffer_type = (arithmetic_bind t).0;
  is_unsigned = (arithmetic_bind t).1;
  buffer = bits n;
}
set_param_bind (characters s) = record {
  buffer_type = string_buffer;
  is_unsigned = false;
  buffer = bytes s;
}
set_param_bind (char_array s) = record {
  buffer_type = string_buffer;
  is_unsigned = false;
  buffer = bytes (until_zero s);
}
set_param_bind (c_string s) = record {
  buffer_type = string_buffer;
  is_unsigned = false;
  buffer = bytes (until_zero s);
}
set_param_bind (binary s) = record {
  buffer_type = blob_buffer;
  is_unsigned = false;
  buffer = bytes s;
}
