-- ===== src/Mysql/Parameters/Width.antt =====
-- What the library reads at a bound address, against the size and sign of the C++ type.
use ormpp.Base.{ℕ, Bool, true, false, Option, none, some, ◌≡◌, ◌≢◌, refl}
use ormpp.Utility.Types.{
  Scalar, bool_type, char_type, short_type, int_type, float_type, double_type, int8_type,
  int64_type, uint8_type, uint16_type, uint32_type, uint64_type, blob_type, string_type,
  string_view_type, array_type,
}
use ormpp.Mysql.{
  BufferType, tiny_buffer, short_buffer, long_buffer, longlong_buffer, float_buffer, double_buffer,
}
use ormpp.Mysql.Rows.{number_kind, result_column}
use ormpp.Mysql.Parameters.{arithmetic, arithmetic_bind, type_to_id, set_param_bind}

-- The bytes and the sign that a type of parameter has in the library's manual
abbrev pub buffer_size : BufferType → Option ℕ
buffer_size tiny_buffer = some 1
buffer_size short_buffer = some 2
buffer_size long_buffer = some 4
buffer_size longlong_buffer = some 8
buffer_size float_buffer = some 4
buffer_size double_buffer = some 8
buffer_size _ = none

-- `sizeof` of an arithmetic type
abbrev pub size_of : Scalar → Option ℕ
size_of bool_type = some 1
size_of char_type = some 1
size_of short_type = some 2
size_of int_type = some 4
size_of float_type = some 4
size_of double_type = some 8
size_of int8_type = some 1
size_of int64_type = some 8
size_of uint8_type = some 1
size_of uint16_type = some 2
size_of uint32_type = some 4
size_of uint64_type = some 8
size_of _ = none

-- The types of which no value is negative
abbrev pub never_negative : Scalar → Bool
never_negative bool_type = true
never_negative uint8_type = true
never_negative uint16_type = true
never_negative uint32_type = true
never_negative uint64_type = true
never_negative _ = false

-- For each arithmetic type, the library reads as many bytes at the address of a bound value as the type has, and is
-- told to write as many at that of a bound member of a result, whatever the column is; both are taken as unsigned
-- exactly where the type is, apart from `bool`.
pub set_param_bind-size_of :
    (t : Scalar) (bits size : ℕ) (field : Option (BufferType × ℕ))
    → size_of t ≡ some size
    → let p = set_param_bind (arithmetic t bits) in
      let c = result_column (number_kind t) field in
      (buffer_size p.buffer_type ≡ some size)
      × (buffer_size c.column_type ≡ some size)
      × (t ≢ bool_type
          → (p.is_unsigned ≡ never_negative t) × (c.column_unsigned ≡ never_negative t))
unfolding set_param_bind result_column arithmetic_bind type_to_id
set_param_bind-size_of bool_type bits size field e = (e, e, (λ other. absurd (other refl)))
set_param_bind-size_of char_type bits size field e = (e, e, (λ other. (refl, refl)))
set_param_bind-size_of short_type bits size field e = (e, e, (λ other. (refl, refl)))
set_param_bind-size_of int_type bits size field e = (e, e, (λ other. (refl, refl)))
set_param_bind-size_of float_type bits size field e = (e, e, (λ other. (refl, refl)))
set_param_bind-size_of double_type bits size field e = (e, e, (λ other. (refl, refl)))
set_param_bind-size_of int8_type bits size field e = (e, e, (λ other. (refl, refl)))
set_param_bind-size_of int64_type bits size field e = (e, e, (λ other. (refl, refl)))
set_param_bind-size_of uint8_type bits size field e = (e, e, (λ other. (refl, refl)))
set_param_bind-size_of uint16_type bits size field e = (e, e, (λ other. (refl, refl)))
set_param_bind-size_of uint32_type bits size field e = (e, e, (λ other. (refl, refl)))
set_param_bind-size_of uint64_type bits size field e = (e, e, (λ other. (refl, refl)))
set_param_bind-size_of blob_type bits size field e = absurd (cc e)
set_param_bind-size_of string_type bits size field e = absurd (cc e)
set_param_bind-size_of string_view_type bits size field e = absurd (cc e)
set_param_bind-size_of (array_type n) bits size field e = absurd (cc e)
