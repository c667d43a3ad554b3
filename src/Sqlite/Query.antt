-- ===== src/Sqlite/Query.antt =====
-- ormpp/sqlite.hpp, `assign`, `query_s` of a reflected struct and `delete_records_s`.
pub mod Rows
use ormpp.Base.{
  ℕ, zero, suc, ◌+◌, ◌-◌, ◌/◌, ◌%◌, ◌^◌, ltb, ◌==◌, Bool, true, false, List, [], ◌∷◌, if◌then◌else◌,
  Bytes,
}
use ormpp.Sqlite.{
  StepResult, row, done, failed, Library, Driver, reset_error, with_handle, set_errmsg,
}
use ormpp.Sqlite.Statement.{
  Field, missing, narrow, wide, floating, characters, binary, set_param_bind, guarded, stepped,
}

-- The integers and enumerators of up to 32 bits; a `char` is signed.
pub data NarrowType : Type 0 where
  boolean : NarrowType
  signed8 signed16 signed32 : NarrowType
  unsigned8 unsigned16 unsigned32 : NarrowType

-- The type of a member, an optional as the type of its value. The text is a `std::string`: views, which share one
-- string of the driver, and arrays, into which `memcpy` writes their size whatever the text has, are left out.
pub data Kind : Type 0 where
  narrow_kind : NarrowType → Kind
  wide_kind : Kind
  floating_kind : Kind
  text_kind : Kind
  blob_kind : Kind

-- `U{}`, where the member is optional or not
unfoldable pub default_of : Bool → Kind → Field
default_of true kind = missing
default_of false (narrow_kind t) = narrow 0
default_of false wide_kind = wide 0
default_of false floating_kind = floating 0
default_of false text_kind = characters []
default_of false blob_kind = binary []

abbrev sign_extended : ℕ → ℕ → ℕ
sign_extended size n = if ltb n (size / 2) then n else n + (2 ^ 32 - size)

-- The conversion of an `int` to the type of the member, whose value is kept as the 32 bits of an `int`
unfoldable pub narrowed : NarrowType → ℕ → ℕ
narrowed boolean n = if n == 0 then 0 else 1
narrowed signed8 n = sign_extended 256 (n % 256)
narrowed signed16 n = sign_extended 65536 (n % 65536)
narrowed unsigned8 n = n % 256
narrowed unsigned16 n = n % 65536
narrowed signed32 n = n
narrowed unsigned32 n = n

module _ {Db : Type 0} (lib : Library Db) where
  unfoldable pub assign_value : Kind → ℕ → Db → Field
  unfolding narrowed
  assign_value (narrow_kind t) i handle = narrow (narrowed t (lib.column_int i handle))
  assign_value wide_kind i handle = wide (lib.column_int64 i handle)
  assign_value floating_kind i handle = floating (lib.column_double i handle)
  assign_value text_kind i handle = characters (lib.column_text i handle)
  assign_value blob_kind i handle = binary (lib.column_blob i handle)

  unfoldable pub assign : Bool → Kind → ℕ → Db → Field
  unfolding default_of assign_value
  assign optional kind i handle =
      if lib.column_is_null i handle then default_of optional kind else assign_value kind i handle

  -- The members of a struct, from column `i` on
  unfoldable pub read_row : List (Bool × Kind) → ℕ → Db → List Field
  unfolding assign
  read_row [] i handle = []
  read_row ((optional, kind) ∷ kinds) i handle =
      assign optional kind i handle ∷ read_row kinds (i + 1) handle

  abbrev pub before_rows : List Field → List (List Field) × Db → List (List Field) × Db
  before_rows values (rows, handle) = (values ∷ rows, handle)

  abbrev pub next_row :
      List (Bool × Kind) → (Db → List (List Field) × Db) → StepResult × Db → List (List Field) × Db
  next_row kinds more (row, handle) = before_rows (read_row kinds 0 handle) (more handle)
  next_row kinds more (_, handle) = ([], handle)

  -- `while (true)`: the fuel bounds the rows.
  unfoldable pub fetch_all : ℕ → List (Bool × Kind) → Db → List (List Field) × Db
  unfolding read_row
  fetch_all zero kinds handle = ([], handle)
  fetch_all (suc fuel) kinds handle = next_row kinds (fetch_all fuel kinds) (lib.step handle)

  -- `(set_param_bind(args, ++index), ...)`: what it returns is not used.
  unfoldable pub bind_each : List Field → ℕ → Db → Db
  unfolding set_param_bind
  bind_each [] index handle = handle
  bind_each (value ∷ values) index handle =
      bind_each values (index + 1) (set_param_bind lib value (index + 1) handle).1

  abbrev pub fetched : Driver Db → List (List Field) × Db → List (List Field) × Driver Db
  fetched d (rows, handle) = (rows, with_handle d handle)

  -- The arguments are bound before the guard resets the error.
  abbrev pub prepared_with :
      {A : Type 0}
      → A
      → (Driver Db → A × Driver Db)
      → List Field
      → Driver Db
      → Bool × Db
      → A × Driver Db
  prepared_with refused run args d (false, handle) =
      (refused, set_errmsg lib (with_handle d handle))
  prepared_with refused run args d (true, handle) =
      guarded lib (run (reset_error (with_handle d (bind_each args 0 handle))))

  -- `sql` is the whole statement.
  unfoldable pub query_s :
      ℕ → List (Bool × Kind) → Bytes → List Field → Driver Db → List (List Field) × Driver Db
  unfolding fetch_all bind_each
  query_s fuel kinds sql args d =
      prepared_with [] (λ e. fetched e (fetch_all fuel kinds e.handle)) args d
        (lib.prepare sql d.handle)

  unfoldable pub delete_records_s : Bytes → List Field → Driver Db → ℕ × Driver Db
  unfolding bind_each
  delete_records_s sql args d =
      prepared_with 0 (λ e. stepped lib 0 lib.changes e (lib.step e.handle)) args d
        (lib.prepare sql d.handle)
