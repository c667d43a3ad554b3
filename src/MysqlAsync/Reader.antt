-- ===== src/MysqlAsync/Reader.antt =====
-- ormpp/mysql_async.hpp, `packet_reader` and the functions that append to a packet. A reader takes the
-- bytes from `cur` on and gives a value and the bytes behind it; `none` is the exception. The range
-- between the pointers is the list, so `require(n)` is a test of its length.
pub mod RoundTrip
use ormpp.Base.{
  ℕ, zero, suc, ◌+◌, ◌*◌, ◌/◌, ◌%◌, Bool, true, false, List, [], ◌∷◌, ◌++◌, Option, none, some,
  ◌==◌, ltb, leb, if◌then◌else◌, Bytes, length, take, drop,
}

abbrev pub Reader : Type 0 → Type 0
Reader A = Bytes → Option (A × Bytes)

module _ {A : Type 0} where
  abbrev pub pure : A → Reader A
  pure a s = some (a, s)

  abbrev pub throw : Reader A
  throw s = none

infixl 5 ◌>>=◌ ◌>>◌
abbrev pub ◌>>=◌ : {A B : Type 0} → Reader A → (A → Reader B) → Reader B
◌>>=◌ m f s = elim (m s) [ none ↦ none | some (a, rest) ↦ f a rest ]

abbrev pub ◌>>◌ : {A B : Type 0} → Reader A → Reader B → Reader B
m >> k = m >>= λ _. k

-- The `k` low bytes of a number, the lowest first: `append_le16`, `append_le24`, `append_le32`,
-- `append_le64`
unfoldable pub le_bytes : ℕ → ℕ → Bytes
le_bytes zero value = []
le_bytes (suc k) value = (value % 256) ∷ le_bytes k (value / 256)

unfoldable pub read_byte : Reader ℕ
read_byte [] = none
read_byte (c ∷ rest) = some (c, rest)

-- `read_u16`, `read_u24`, `read_u32`, `read_u64`
unfoldable pub read_le : ℕ → Reader ℕ
unfolding read_byte
read_le zero s = some (0, s)
read_le (suc k) s = elim (read_byte s) [
  | none ↦ none
  | some (low, rest) ↦ elim (read_le k rest) [
    | none ↦ none
    | some (high, behind) ↦ some (low + 256 * high, behind)
  ]
]

unfoldable pub read_string : ℕ → Reader Bytes
read_string size s = if leb size (length s) then some (take size s, drop size s) else none

unfoldable pub skip : ℕ → Reader Unit
skip size s = if leb size (length s) then some (tt, drop size s) else none

-- `read_string(remaining())`
abbrev pub read_rest : Reader Bytes
read_rest s = some (s, [])

unfoldable pub read_null_terminated_string : Reader Bytes
read_null_terminated_string [] = none
read_null_terminated_string (c ∷ s) =
    let later : Option (Bytes × Bytes) = elim (read_null_terminated_string s) [
      | none ↦ none
      | some (text, rest) ↦ some (c ∷ text, rest)
    ] in
    if c == 0 then some ([], s) else later

-- The number behind its first byte, which is no 0xfb
read_lenenc_from : ℕ → Reader ℕ
unfolding read_le
read_lenenc_from first s =
    if ltb first 0xfb
    then some (first, s)
    else if first == 0xfc
    then read_le 2 s
    else if first == 0xfd
    then read_le 3 s
    else if first == 0xfe
    then read_le 8 s
    else none

unfoldable pub read_lenenc_int : Reader ℕ
unfolding read_lenenc_from read_byte
read_lenenc_int = do first ← read_byte; read_lenenc_from first

read_lenenc_text : ℕ → Reader (Option Bytes)
unfolding read_lenenc_from read_string
read_lenenc_text first = do len ← read_lenenc_from first; text ← read_string len; pure (some text)

read_lenenc_value : ℕ → Reader (Option Bytes)
unfolding read_lenenc_text
read_lenenc_value first s = if first == 0xfb then some (none, s) else read_lenenc_text first s

-- `none` in the value is the NULL of the protocol.
unfoldable pub read_lenenc_string_optional : Reader (Option Bytes)
unfolding read_lenenc_value read_byte
read_lenenc_string_optional = do first ← read_byte; read_lenenc_value first

abbrev pub or_empty : Option Bytes → Bytes
or_empty none = []
or_empty (some text) = text

unfoldable pub read_lenenc_string : Reader Bytes
unfolding read_lenenc_string_optional
read_lenenc_string = do value ← read_lenenc_string_optional; pure (or_empty value)

unfoldable pub append_lenenc_int : ℕ → Bytes
unfolding le_bytes
append_lenenc_int value =
    if ltb value 0xfb
    then value ∷ []
    else if leb value 0xffff
    then 0xfc ∷ le_bytes 2 value
    else if leb value 0xffffff
    then 0xfd ∷ le_bytes 3 value
    else 0xfe ∷ le_bytes 8 value

unfoldable pub append_lenenc_string : Bytes → Bytes
unfolding append_lenenc_int
append_lenenc_string value = append_lenenc_int (length value) ++ value
