-- ===== src/Mysql/Rows.antt =====
-- ormpp/mysql.hpp, the columns of a result: `set_param_bind` of a member, `set_value`, `get_blob_len`, and the loop
-- that fetches the rows.
pub mod Decoded
pub mod Fetched
use ormpp.Base.{
  ℕ, zero, suc, ◌+◌, Bool, true, false, List, [], ◌∷◌, Option, none, some, if◌then◌else◌, Bytes,
  take, length, replicate, map,
}
use ormpp.Utility.Types.{Scalar}
use ormpp.Mysql.{
  BufferType, long_buffer, string_buffer, var_string_buffer, blob_buffer, medium_blob_buffer,
  long_blob_buffer, Column, Cell, null_cell, number_cell, bytes_cell, Fetch, fetched, truncated,
  no_data, fetch_failed, Library, Driver, reset_error, with_con, set_stmt_error,
}
use ormpp.Mysql.Parameters.{
  Field, missing, enumerator, arithmetic, characters, char_array, binary, arithmetic_bind,
  until_zero,
}

-- The type of a member without its `optional`. The text is a `std::string`; the views, which share one string of the
-- driver, are left out.
pub data Kind : Type 0 where
  number_kind : Scalar → Kind
  enum_kind : Kind
  text_kind : Kind
  array_kind : ℕ → Kind
  blob_kind : Kind

pub record Member : Type 0 where
  pub optional : Bool
  pub kind : Kind

abbrev is_large_blob : BufferType → Bool
is_large_blob medium_blob_buffer = true
is_large_blob long_blob_buffer = true
is_large_blob _ = false

-- `set_param_bind` of a member, with what `mysql_fetch_field_direct` gives for its column
unfoldable pub result_column : Kind → Option (BufferType × ℕ) → Column
unfolding arithmetic_bind
result_column (number_kind t) field = record {
  column_type = (arithmetic_bind t).0;
  column_unsigned = (arithmetic_bind t).1;
  buffer_length = 0;
}
result_column enum_kind field = record {
  column_type = long_buffer;
  column_unsigned = false;
  buffer_length = 0;
}
result_column text_kind none = record {
  column_type = string_buffer;
  column_unsigned = false;
  buffer_length = 256;
}
result_column text_kind (some (type, size)) = record {
  column_type = if is_large_blob type then type else string_buffer;
  column_unsigned = false;
  buffer_length = size + 1;
}
result_column (array_kind size) field = record {
  column_type = var_string_buffer;
  column_unsigned = false;
  buffer_length = size;
}
result_column blob_kind none = record {
  column_type = blob_buffer;
  column_unsigned = false;
  buffer_length = 65536;
}
result_column blob_kind (some (type, size)) = record {
  column_type = type;
  column_unsigned = false;
  buffer_length = size;
}

-- A member of the row `t` with what is bound for it: the bits of a number stand in the member, the bytes of a text in
-- the buffer that `mp` holds for the column.
pub record Slot : Type 0 where
  pub member : Member
  pub column : Column
  pub storage : ℕ
  pub buffer : Bytes

-- The member as it is bound, with its buffer filled with zeros
abbrev pub fresh : Member → Column → ℕ → Slot
fresh member column storage = record {
  member = member;
  column = column;
  storage = storage;
  buffer = replicate column.buffer_length 0;
}

-- The bytes are written at the beginning of the buffer, as many as it has room for.
abbrev pub overlay : Bytes → Bytes → Bytes
overlay [] buffer = buffer
overlay (b ∷ bytes) [] = []
overlay (b ∷ bytes) (x ∷ buffer) = b ∷ overlay bytes buffer

-- What `mysql_stmt_fetch` writes at the bound address; a NULL writes nothing.
unfoldable pub store : Cell → Slot → Slot
store null_cell slot = slot
store (number_cell n) slot = record slot { storage = n }
store (bytes_cell bytes) slot = record slot { buffer = overlay bytes slot.buffer }

unfoldable pub store_all : List Cell → List Slot → List Slot
unfolding store
store_all [] slots = slots
store_all (cell ∷ cells) [] = []
store_all (cell ∷ cells) (slot ∷ slots) = store cell slot ∷ store_all cells slots

-- `p.second.assign(p.second.size(), 0)`
abbrev pub cleared : Slot → Slot
cleared slot = record slot { buffer = replicate (length slot.buffer) 0 }

-- The last loop of a row: a NULL resets an optional and a number, and nothing else.
unfoldable pub null_reset : Cell → Slot → Field → Field × Slot
null_reset null_cell slot value = reset slot.member.optional slot.member.kind
  where
    reset : Bool → Kind → Field × Slot
    reset true kind = (missing, slot)
    reset false (number_kind t) = (arithmetic t 0, record slot { storage = 0 })
    reset false kind = (value, slot)
null_reset _ slot value = (value, slot)

unfoldable pub reset_all : List Cell → List Field → List Slot → List Field × List Slot
unfolding null_reset
reset_all [] values slots = (values, slots)
reset_all (cell ∷ cells) [] slots = ([], slots)
reset_all (cell ∷ cells) (value ∷ values) [] = (value ∷ values, [])
reset_all (cell ∷ cells) (value ∷ values) (slot ∷ slots) =
    let (first, kept) = null_reset cell slot value in
    let (rest, others) = reset_all cells values slots in (first ∷ rest, kept ∷ others)

module _ {Db : Type 0} (lib : Library Db) where
  -- The loop that binds the members, from column `i` on
  unfoldable pub bind_members : List Member → ℕ → Db → List Slot
  unfolding result_column
  bind_members [] i con = []
  bind_members (member ∷ members) i con =
      fresh member (result_column member.kind (lib.fetch_field_direct i con)) 0
      ∷ bind_members members (i + 1) con

  abbrev blob_len : Driver Db → Option ℕ → ℕ × Driver Db
  blob_len d none = (0, set_stmt_error lib d)
  blob_len d (some data_len) = (data_len, d)

  unfoldable pub get_blob_len : ℕ → Driver Db → ℕ × Driver Db
  unfolding reset_error set_stmt_error
  get_blob_len column d = blob_len (reset_error d) (lib.stmt_fetch_column column d.con)

  -- `set_value` of a member that is not optional: a number is in its place already.
  unfoldable pub set_value_plain : Kind → Slot → ℕ → Driver Db → Field × Driver Db
  unfolding get_blob_len
  set_value_plain (number_kind t) slot i d = (arithmetic t slot.storage, d)
  set_value_plain enum_kind slot i d = (enumerator slot.storage, d)
  set_value_plain text_kind slot i d = (characters (until_zero slot.buffer), d)
  set_value_plain (array_kind size) slot i d = (char_array slot.buffer, d)
  set_value_plain blob_kind slot i d =
      let (data_len, e) = get_blob_len i d in (binary (take data_len slot.buffer), e)

  -- An optional is first given a new value, which for an enumerator is indeterminate and stays.
  unfoldable pub set_value : ℕ → Slot → ℕ → Driver Db → Field × Driver Db
  unfolding set_value_plain
  set_value indeterminate slot i d = choose slot.member.optional slot.member.kind
    where
      choose : Bool → Kind → Field × Driver Db
      choose true enum_kind = (enumerator indeterminate, d)
      choose optional kind = set_value_plain kind slot i d

  unfoldable pub set_values : ℕ → List Slot → ℕ → Driver Db → List Field × Driver Db
  unfolding set_value
  set_values indeterminate [] i d = ([], d)
  set_values indeterminate (slot ∷ slots) i d =
      let (value, e) = set_value indeterminate slot i d in
      let (values, f) = set_values indeterminate slots (i + 1) e in (value ∷ values, f)

  -- The body of the loop, behind a fetch that has written these cells
  unfoldable pub fetch_row :
      ℕ → List Cell → List Slot → ℕ → Driver Db → List Field × (List Slot × Driver Db)
  unfolding store_all set_values reset_all
  fetch_row indeterminate cells slots i d =
      let stored = store_all cells slots in
      let (values, e) = set_values indeterminate stored i d in
      let (row, rest) = reset_all cells values (map cleared stored) in (row, (rest, e))

  abbrev pub before_rows :
      List Field → List (List Field) × Driver Db → List (List Field) × Driver Db
  before_rows row (rows, d) = (row ∷ rows, d)

  abbrev pub next_row :
      ℕ
      → (List Slot → Driver Db → List (List Field) × Driver Db)
      → List Slot
      → Driver Db
      → Fetch × Db
      → List (List Field) × Driver Db
  next_row indeterminate more slots d (fetched cells, con) =
      let (row, (rest, e)) = fetch_row indeterminate cells slots 0 (with_con d con) in
      before_rows row (more rest e)
  next_row indeterminate more slots d (truncated cells, con) =
      let (row, (rest, e)) = fetch_row indeterminate cells slots 0 (with_con d con) in
      before_rows row (more rest e)
  next_row indeterminate more slots d (_, con) = ([], with_con d con)

  -- The loop over the rows; the fuel bounds their number.
  unfoldable pub fetch_rows : ℕ → ℕ → List Slot → Driver Db → List (List Field) × Driver Db
  unfolding fetch_row
  fetch_rows indeterminate zero slots d = ([], d)
  fetch_rows indeterminate (suc fuel) slots d =
      next_row indeterminate (fetch_rows indeterminate fuel) slots d (lib.stmt_fetch d.con)
