-- ===== src/Utility/Types/Range.antt =====
-- The column of an integer member holds every value of the member's type.
use ormpp.Base.{ℕ, ◌≤◌, ◌<◌, Bool, true, false, Option, none, some, Bytes, codes, ◌≡◌, sym, arith}
use mathlib.Core.Path.{subst}
use mathlib.Core.Option.{some-injective}
use ormpp.Utility.Keys.{DbType, mysql, sqlite, postgresql, unknown}
use ormpp.Utility.Escape.{Value, plus, minus, text}
use ormpp.Utility.Types.{
  Scalar, optional_of, plain, type_to_name, type_name, bool_type, char_type, short_type, int_type,
  float_type, double_type, int8_type, int64_type, uint8_type, uint16_type, uint32_type, uint64_type,
  blob_type, string_type, string_view_type, array_type,
}

-- The value is at least minus the first bound and at most the second.
abbrev pub InRange : ℕ × ℕ → Value → Type 0
InRange (low, high) (plus n) = n ≤ high
InRange (low, high) (minus n) = n < low
InRange (low, high) (text s) = ⊥

-- The values of an integer type of C++, with a signed `char`
abbrev pub value_range : Scalar → Option (ℕ × ℕ)
value_range bool_type = some (0, 1)
value_range char_type = some (128, 127)
value_range short_type = some (32768, 32767)
value_range int_type = some (2147483648, 2147483647)
value_range float_type = none
value_range double_type = none
value_range int8_type = some (128, 127)
value_range int64_type = some (9223372036854775808, 9223372036854775807)
value_range uint8_type = some (0, 255)
value_range uint16_type = some (0, 65535)
value_range uint32_type = some (0, 4294967295)
value_range uint64_type = some (0, 18446744073709551615)
value_range blob_type = none
value_range string_type = none
value_range string_view_type = none
value_range (array_type size) = none

-- What the manuals of the databases state of their integer columns: a column of the type holds each value of
-- the range.
pub record Manuals (Holds : DbType → Bytes → Value → Type 0) : Type 0 where
  pub mysql_boolean : (v : Value) → InRange (128, 127) v → Holds mysql (codes "BOOLEAN") v
  pub mysql_tinyint : (v : Value) → InRange (128, 127) v → Holds mysql (codes "TINYINT") v
  pub mysql_smallint : (v : Value) → InRange (32768, 32767) v → Holds mysql (codes "SMALLINT") v
  pub mysql_integer :
      (v : Value) → InRange (2147483648, 2147483647) v → Holds mysql (codes "INTEGER") v
  pub mysql_bigint :
      (v : Value)
      → InRange (9223372036854775808, 9223372036854775807) v
      → Holds mysql (codes "BIGINT") v
  pub mysql_bigint_unsigned :
      (v : Value) → InRange (0, 18446744073709551615) v → Holds mysql (codes "BIGINT UNSIGNED") v
  pub sqlite_integer :
      (v : Value)
      → InRange (9223372036854775808, 9223372036854775807) v
      → Holds sqlite (codes "INTEGER") v
  pub postgresql_smallint :
      (v : Value) → InRange (32768, 32767) v → Holds postgresql (codes "smallint") v
  pub postgresql_integer :
      (v : Value) → InRange (2147483648, 2147483647) v → Holds postgresql (codes "integer") v
  pub postgresql_bigint :
      (v : Value)
      → InRange (9223372036854775808, 9223372036854775807) v
      → Holds postgresql (codes "bigint") v

-- The types whose column is too narrow: the largest unsigned ones of SQLite and PostgreSQL, and those that
-- PostgreSQL stores as a single character.
abbrev pub too_narrow : DbType → Scalar → Bool
too_narrow sqlite uint64_type = true
too_narrow postgresql uint64_type = true
too_narrow postgresql char_type = true
too_narrow postgresql int8_type = true
too_narrow unknown _ = true
too_narrow _ _ = false

widen : (l h l' h' : ℕ) (v : Value) → l ≤ l' → h ≤ h' → InRange (l, h) v → InRange (l', h') v
widen l h l' h' (plus n) a b c = omega (arith, b, c)
widen l h l' h' (minus n) a b c = omega (arith, a, c)
widen l h l' h' (text s) a b c = c

-- The range of the type, taken from its equation, within that of the column
fit :
    (l h : ℕ) (own range : ℕ × ℕ) (v : Value)
    → some own ≡ some range
    → InRange range v
    → own.0 ≤ l
    → own.1 ≤ h
    → InRange (l, h) v
fit l h own range v e k a b =
    let same : own ≡ range = some-injective own range e in
    let own_k : InRange own v = subst (λ r. InRange r v) (sym same) k in
    widen own.0 own.1 l h v a b own_k

module _ (Holds : DbType → Bytes → Value → Type 0) (manuals : Manuals Holds) where
  -- The claim for one type
  abbrev Fits : DbType → Scalar → Type 0
  Fits db t =
      (range : ℕ × ℕ)
      → value_range t ≡ some range
      → too_narrow db t ≡ false
      → (v : Value) → InRange range v
      → Holds db (type_to_name db t) v

  mysql_lem : (t : Scalar) → Fits mysql t
  unfolding type_to_name
  mysql_lem bool_type range e f v h =
      manuals.mysql_boolean v (fit 128 127 (0, 1) range v e h (omega arith) (omega arith))
  mysql_lem char_type range e f v h =
      manuals.mysql_tinyint v (fit 128 127 (128, 127) range v e h (omega arith) (omega arith))
  mysql_lem short_type range e f v h =
      manuals.mysql_smallint v
        (fit 32768 32767 (32768, 32767) range v e h (omega arith) (omega arith))
  mysql_lem int_type range e f v h =
      manuals.mysql_integer v
        (fit 2147483648 2147483647 (2147483648, 2147483647) range v e h (omega arith) (omega arith))
  mysql_lem float_type range e f v h = absurd (cc e)
  mysql_lem double_type range e f v h = absurd (cc e)
  mysql_lem int8_type range e f v h =
      manuals.mysql_tinyint v (fit 128 127 (128, 127) range v e h (omega arith) (omega arith))
  mysql_lem int64_type range e f v h = manuals.mysql_bigint v (
      fit 9223372036854775808 9223372036854775807 (9223372036854775808, 9223372036854775807) range v
        e h (omega arith) (omega arith))
  mysql_lem uint8_type range e f v h =
      manuals.mysql_smallint v (fit 32768 32767 (0, 255) range v e h (omega arith) (omega arith))
  mysql_lem uint16_type range e f v h =
      manuals.mysql_integer v
        (fit 2147483648 2147483647 (0, 65535) range v e h (omega arith) (omega arith))
  mysql_lem uint32_type range e f v h = manuals.mysql_bigint v (
      fit 9223372036854775808 9223372036854775807 (0, 4294967295) range v e h (omega arith)
        (omega arith))
  mysql_lem uint64_type range e f v h =
      manuals.mysql_bigint_unsigned v (
        fit 0 18446744073709551615 (0, 18446744073709551615) range v e h (omega arith)
          (omega arith))
  mysql_lem blob_type range e f v h = absurd (cc e)
  mysql_lem string_type range e f v h = absurd (cc e)
  mysql_lem string_view_type range e f v h = absurd (cc e)
  mysql_lem (array_type size) range e f v h = absurd (cc e)

  sqlite_lem : (t : Scalar) → Fits sqlite t
  unfolding type_to_name
  sqlite_lem bool_type range e f v h =
      manuals.sqlite_integer v
        (fit 9223372036854775808 9223372036854775807 (0, 1) range v e h (omega arith) (omega arith))
  sqlite_lem char_type range e f v h = manuals.sqlite_integer v (
      fit 9223372036854775808 9223372036854775807 (128, 127) range v e h (omega arith)
        (omega arith))
  sqlite_lem short_type range e f v h = manuals.sqlite_integer v (
      fit 9223372036854775808 9223372036854775807 (32768, 32767) range v e h (omega arith)
        (omega arith))
  sqlite_lem int_type range e f v h = manuals.sqlite_integer v (
      fit 9223372036854775808 9223372036854775807 (2147483648, 2147483647) range v e h (omega arith)
        (omega arith))
  sqlite_lem float_type range e f v h = absurd (cc e)
  sqlite_lem double_type range e f v h = absurd (cc e)
  sqlite_lem int8_type range e f v h = manuals.sqlite_integer v (
      fit 9223372036854775808 9223372036854775807 (128, 127) range v e h (omega arith)
        (omega arith))
  sqlite_lem int64_type range e f v h = manuals.sqlite_integer v (
      fit 9223372036854775808 9223372036854775807 (9223372036854775808, 9223372036854775807) range v
        e h (omega arith) (omega arith))
  sqlite_lem uint8_type range e f v h =
      manuals.sqlite_integer v (
        fit 9223372036854775808 9223372036854775807 (0, 255) range v e h (omega arith)
          (omega arith))
  sqlite_lem uint16_type range e f v h = manuals.sqlite_integer v (
      fit 9223372036854775808 9223372036854775807 (0, 65535) range v e h (omega arith)
        (omega arith))
  sqlite_lem uint32_type range e f v h = manuals.sqlite_integer v (
      fit 9223372036854775808 9223372036854775807 (0, 4294967295) range v e h (omega arith)
        (omega arith))
  sqlite_lem uint64_type range e f v h = absurd (cc f)
  sqlite_lem blob_type range e f v h = absurd (cc e)
  sqlite_lem string_type range e f v h = absurd (cc e)
  sqlite_lem string_view_type range e f v h = absurd (cc e)
  sqlite_lem (array_type size) range e f v h = absurd (cc e)

  postgresql_lem : (t : Scalar) → Fits postgresql t
  unfolding type_to_name
  postgresql_lem bool_type range e f v h =
      manuals.postgresql_integer v
        (fit 2147483648 2147483647 (0, 1) range v e h (omega arith) (omega arith))
  postgresql_lem char_type range e f v h = absurd (cc f)
  postgresql_lem short_type range e f v h =
      manuals.postgresql_smallint v
        (fit 32768 32767 (32768, 32767) range v e h (omega arith) (omega arith))
  postgresql_lem int_type range e f v h =
      manuals.postgresql_integer v
        (fit 2147483648 2147483647 (2147483648, 2147483647) range v e h (omega arith) (omega arith))
  postgresql_lem float_type range e f v h = absurd (cc e)
  postgresql_lem double_type range e f v h = absurd (cc e)
  postgresql_lem int8_type range e f v h = absurd (cc f)
  postgresql_lem int64_type range e f v h = manuals.postgresql_bigint v (
      fit 9223372036854775808 9223372036854775807 (9223372036854775808, 9223372036854775807) range v
        e h (omega arith) (omega arith))
  postgresql_lem uint8_type range e f v h =
      manuals.postgresql_smallint v
        (fit 32768 32767 (0, 255) range v e h (omega arith) (omega arith))
  postgresql_lem uint16_type range e f v h =
      manuals.postgresql_integer v
        (fit 2147483648 2147483647 (0, 65535) range v e h (omega arith) (omega arith))
  postgresql_lem uint32_type range e f v h = manuals.postgresql_bigint v (
      fit 9223372036854775808 9223372036854775807 (0, 4294967295) range v e h (omega arith)
        (omega arith))
  postgresql_lem uint64_type range e f v h = absurd (cc f)
  postgresql_lem blob_type range e f v h = absurd (cc e)
  postgresql_lem string_type range e f v h = absurd (cc e)
  postgresql_lem string_view_type range e f v h = absurd (cc e)
  postgresql_lem (array_type size) range e f v h = absurd (cc e)

  scalar_lem : (db : DbType) (t : Scalar) → Fits db t
  scalar_lem mysql t = mysql_lem t
  scalar_lem sqlite t = sqlite_lem t
  scalar_lem postgresql t = postgresql_lem t
  scalar_lem unknown t = λ range e f v h. absurd (let g : true ≡ false = f in cc g)

  -- The column that a table gets for an integer member, optional or not, holds every value of the member's type,
  -- apart from `uint64_t` on SQLite and PostgreSQL, and `char` and `int8_t` on PostgreSQL.
  pub type_name-Holds :
      (db : DbType) (t : Scalar) (range : ℕ × ℕ) (v : Value)
      → value_range t ≡ some range
      → too_narrow db t ≡ false
      → InRange range v
      → Holds db (type_name db (plain t)) v × Holds db (type_name db (optional_of t)) v
  unfolding type_name
  type_name-Holds mysql t range v e f h = let k = scalar_lem mysql t range e f v h in (k, k)
  type_name-Holds sqlite t range v e f h = let k = scalar_lem sqlite t range e f v h in (k, k)
  type_name-Holds postgresql t range v e f h =
      let k = scalar_lem postgresql t range e f v h in (k, k)
  type_name-Holds unknown t range v e f h = absurd (let g : true ≡ false = f in cc g)
