-- ===== src/Mysql/Rows/Decoded.antt =====
-- The values of a fetched row, against the cells that the library gives for it.
use ormpp.Base.{
  ℕ, zero, suc, ◌-◌, ◌<◌, ◌≤◌, ◌==◌, Bool, true, false, [], ◌∷◌, ◌++◌, some, if◌then◌else◌, Bytes,
  take, length, replicate, All, ◌≡◌, refl, ap, ◌∙◌, arith,
}
use ormpp.Mysql.{Column, Cell, null_cell, number_cell, bytes_cell, Library, Driver, reset_error}
use ormpp.Mysql.Parameters.{
  Field, missing, enumerator, arithmetic, characters, char_array, binary, until_zero,
}
use ormpp.Mysql.Rows.{
  Kind, number_kind, enum_kind, text_kind, array_kind, blob_kind, Member, Slot, fresh, overlay,
  store, cleared, null_reset, get_blob_len, set_value_plain, set_value,
}

-- The value of a cell that is not NULL, by the type of the member
abbrev pub decode_value : Kind → Cell → Field
decode_value (number_kind t) (number_cell n) = arithmetic t n
decode_value enum_kind (number_cell n) = enumerator n
decode_value text_kind (bytes_cell b) = characters b
decode_value (array_kind size) (bytes_cell b) = char_array (b ++ replicate (size - length b) 0)
decode_value blob_kind (bytes_cell b) = binary b
decode_value kind cell = missing

-- What a NULL is in a member that is not optional
abbrev pub decode_null : Kind → Field
decode_null (number_kind t) = arithmetic t 0
decode_null enum_kind = enumerator 0
decode_null text_kind = characters []
decode_null (array_kind size) = char_array (replicate size 0)
decode_null blob_kind = binary []

abbrev pub decode : Member → Cell → Field
decode member null_cell = if member.optional then missing else decode_null member.kind
decode member cell = decode_value member.kind cell

abbrev pub NoZero : Bytes → Type 0
NoZero b = All (λ c. (c == 0) ≡ false) b

module _ {Db : Type 0} (lib : Library Db) where
  -- The cell is of the member's type, and its bytes have room in the column's buffer: a text with its zero and
  -- without one of its own, a blob with the length that the library reports. A NULL in an enumerator and every
  -- optional enumerator are left out.
  abbrev pub FitsValue : Kind → Column → ℕ → Db → Cell → Type 0
  FitsValue (number_kind t) column i con null_cell = Unit
  FitsValue (number_kind t) column i con (number_cell n) = Unit
  FitsValue enum_kind column i con (number_cell n) = Unit
  FitsValue text_kind column i con null_cell = Unit
  FitsValue text_kind column i con (bytes_cell b) = NoZero b × (length b < column.buffer_length)
  FitsValue (array_kind size) column i con null_cell = column.buffer_length ≡ size
  FitsValue (array_kind size) column i con (bytes_cell b) =
      (column.buffer_length ≡ size) × (length b ≤ size)
  FitsValue blob_kind column i con null_cell = lib.stmt_fetch_column i con ≡ some 0
  FitsValue blob_kind column i con (bytes_cell b) =
      (lib.stmt_fetch_column i con ≡ some (length b)) × (length b ≤ column.buffer_length)
  FitsValue kind column i con cell = ⊥

  abbrev pub Fits : Member × Column → ℕ → Db → Cell → Type 0
  Fits (member, column) i con cell = go member.optional member.kind
    where
      go : Bool → Kind → Type 0
      go true enum_kind = ⊥
      go optional kind = FitsValue kind column i con cell

text_read :
    (b : Bytes) (n : ℕ) → NoZero b → length b < n → until_zero (overlay b (replicate n 0)) ≡ b
text_read b zero h k = elim k [ ]
text_read [] (suc n) h k = refl
text_read (c ∷ b) (suc n) h k = rw (h.0) (ap (◌∷◌ c) (text_read b n h.1 (omega (arith, k))))

blob_read : (b : Bytes) (n : ℕ) → length b ≤ n → take (length b) (overlay b (replicate n 0)) ≡ b
blob_read [] n k = refl
blob_read (c ∷ b) zero k = elim k [ ]
blob_read (c ∷ b) (suc n) k = ap (◌∷◌ c) (blob_read b n (omega (arith, k)))

array_read :
    (b : Bytes) (n : ℕ) → length b ≤ n → overlay b (replicate n 0) ≡ b ++ replicate (n - length b) 0
array_read [] n k = ap (λ m. replicate m 0) (omega arith)
array_read (c ∷ b) zero k = elim k [ ]
array_read (c ∷ b) (suc n) k =
    ap (◌∷◌ c) (array_read b n (omega (arith, k)) ∙ ap (λ m. b ++ replicate m 0) (omega arith))

length-replicate : (n : ℕ) → length {A = ℕ} (replicate n 0) ≡ n
length-replicate zero = refl
length-replicate (suc n) = ap suc (length-replicate n)

length-overlay : (b buffer : Bytes) → length (overlay b buffer) ≡ length buffer
length-overlay [] buffer = refl
length-overlay (c ∷ b) [] = refl
length-overlay (c ∷ b) (x ∷ buffer) = ap suc (length-overlay b buffer)

no_text : (n : ℕ) → until_zero (replicate n 0) ≡ []
no_text zero = refl
no_text (suc n) = refl

module _ {Db : Type 0} (lib : Library Db) (indeterminate : ℕ) where
  -- What a row makes of a member's slot
  abbrev Read : Member → Column → ℕ → ℕ → Driver Db → Cell → Type 0
  Read m column storage i d cell =
      let slot : Slot = store cell (fresh m column storage) in
      let read : Field × Driver Db = set_value lib indeterminate slot i d in
      let done : Field × Slot = null_reset cell (cleared slot) read.0 in
      (done.0 ≡ decode m cell)
      × (((kept : ℕ) × (done.1 ≡ fresh m column kept)) × (read.1.con ≡ d.con))

  clear :
      (m : Member) (column : Column) (storage : ℕ) (b : Bytes)
      → length b ≡ column.buffer_length
      → cleared (record { member = m; column = column; storage = storage; buffer = b })
        ≡ fresh m column storage
  clear m column storage b e =
      ap (λ n. record { member = m; column = column; storage = storage; buffer = replicate n 0 }) e

  -- A slot that is as it was made, and one whose buffer is written
  unwritten :
      (m : Member) (column : Column) (storage : ℕ)
      → cleared (fresh m column storage) ≡ fresh m column storage
  unwritten m column storage = clear m column storage _ (length-replicate column.buffer_length)

  written :
      (m : Member) (column : Column) (storage : ℕ) (b : Bytes)
      → cleared (record {
        member = m;
        column = column;
        storage = storage;
        buffer = overlay b (replicate column.buffer_length 0);
      })
        ≡ fresh m column storage
  written m column storage b =
      clear m column storage _ (
        length-overlay b (replicate column.buffer_length 0) ∙ length-replicate column.buffer_length)

  blob_value :
      (d : Driver Db) (i n : ℕ)
      → lib.stmt_fetch_column i d.con ≡ some n
      → get_blob_len lib i d ≡ (n, reset_error d)
  unfolding get_blob_len reset_error
  blob_value d i n e = rw e refl

  pub slot_lem :
      (optional : Bool) (kind : Kind) (column : Column) (storage i : ℕ) (d : Driver Db)
      (cell : Cell)
      → Fits lib (record { optional = optional; kind = kind }, column) i d.con cell
      → Read (record { optional = optional; kind = kind }) column storage i d cell
  unfolding store set_value set_value_plain null_reset reset_error
  slot_lem true (number_kind t) column storage i d null_cell h = (
    refl,
    ((storage, unwritten (record { optional = true; kind = number_kind t }) column storage), refl),
  )
  slot_lem true (number_kind t) column storage i d (number_cell n) h =
      (refl, ((n, unwritten (record { optional = true; kind = number_kind t }) column n), refl))
  slot_lem true (number_kind t) column storage i d (bytes_cell b) h = absurd h
  slot_lem true enum_kind column storage i d null_cell h = absurd h
  slot_lem true enum_kind column storage i d (number_cell n) h = absurd h
  slot_lem true enum_kind column storage i d (bytes_cell b) h = absurd h
  slot_lem true text_kind column storage i d null_cell h = (
    refl,
    ((storage, unwritten (record { optional = true; kind = text_kind }) column storage), refl),
  )
  slot_lem true text_kind column storage i d (number_cell n) h = absurd h
  slot_lem true text_kind column storage i d (bytes_cell b) h = (
    ap characters (text_read b column.buffer_length h.0 h.1),
    ((storage, written (record { optional = true; kind = text_kind }) column storage b), refl),
  )
  slot_lem true (array_kind size) column storage i d null_cell h = (
    refl,
    (
      (storage, unwritten (record { optional = true; kind = array_kind size }) column storage),
      refl,
    ),
  )
  slot_lem true (array_kind size) column storage i d (number_cell n) h = absurd h
  slot_lem true (array_kind size) column storage i d (bytes_cell b) h = (
    ap char_array (ap (λ n. overlay b (replicate n 0)) h.0 ∙ array_read b size h.1),
    (
      (storage, written (record { optional = true; kind = array_kind size }) column storage b),
      refl,
    ),
  )
  slot_lem true blob_kind column storage i d null_cell h = (
    refl,
    (
      (storage, unwritten (record { optional = true; kind = blob_kind }) column storage),
      ap (λ (r : ℕ × Driver Db). r.1.con) (blob_value d i 0 h),
    ),
  )
  slot_lem true blob_kind column storage i d (number_cell n) h = absurd h
  slot_lem true blob_kind column storage i d (bytes_cell b) h = (
    ap (λ r. binary (take r.0 (overlay b (replicate column.buffer_length 0))))
          (blob_value d i (length b) h.0)
        ∙ ap binary (blob_read b column.buffer_length h.1),
    (
      (storage, written (record { optional = true; kind = blob_kind }) column storage b),
      ap (λ (r : ℕ × Driver Db). r.1.con) (blob_value d i (length b) h.0),
    ),
  )
  slot_lem false (number_kind t) column storage i d null_cell h =
      (refl, ((0, unwritten (record { optional = false; kind = number_kind t }) column 0), refl))
  slot_lem false (number_kind t) column storage i d (number_cell n) h =
      (refl, ((n, unwritten (record { optional = false; kind = number_kind t }) column n), refl))
  slot_lem false (number_kind t) column storage i d (bytes_cell b) h = absurd h
  slot_lem false enum_kind column storage i d null_cell h = absurd h
  slot_lem false enum_kind column storage i d (number_cell n) h =
      (refl, ((n, unwritten (record { optional = false; kind = enum_kind }) column n), refl))
  slot_lem false enum_kind column storage i d (bytes_cell b) h = absurd h
  slot_lem false text_kind column storage i d null_cell h = (
    ap characters (no_text column.buffer_length),
    ((storage, unwritten (record { optional = false; kind = text_kind }) column storage), refl),
  )
  slot_lem false text_kind column storage i d (number_cell n) h = absurd h
  slot_lem false text_kind column storage i d (bytes_cell b) h = (
    ap characters (text_read b column.buffer_length h.0 h.1),
    ((storage, written (record { optional = false; kind = text_kind }) column storage b), refl),
  )
  slot_lem false (array_kind size) column storage i d null_cell h = (
    ap (λ n. char_array (replicate n 0)) h,
    (
      (storage, unwritten (record { optional = false; kind = array_kind size }) column storage),
      refl,
    ),
  )
  slot_lem false (array_kind size) column storage i d (number_cell n) h = absurd h
  slot_lem false (array_kind size) column storage i d (bytes_cell b) h = (
    ap char_array (ap (λ n. overlay b (replicate n 0)) h.0 ∙ array_read b size h.1),
    (
      (storage, written (record { optional = false; kind = array_kind size }) column storage b),
      refl,
    ),
  )
  slot_lem false blob_kind column storage i d null_cell h = (
    ap (λ r. binary (take r.0 (replicate column.buffer_length 0))) (blob_value d i 0 h),
    (
      (storage, unwritten (record { optional = false; kind = blob_kind }) column storage),
      ap (λ (r : ℕ × Driver Db). r.1.con) (blob_value d i 0 h),
    ),
  )
  slot_lem false blob_kind column storage i d (number_cell n) h = absurd h
  slot_lem false blob_kind column storage i d (bytes_cell b) h = (
    ap (λ r. binary (take r.0 (overlay b (replicate column.buffer_length 0))))
          (blob_value d i (length b) h.0)
        ∙ ap binary (blob_read b column.buffer_length h.1),
    (
      (storage, written (record { optional = false; kind = blob_kind }) column storage b),
      ap (λ (r : ℕ × Driver Db). r.1.con) (blob_value d i (length b) h.0),
    ),
  )
