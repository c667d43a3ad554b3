-- ===== src/MysqlAsync/Reader/RoundTrip.antt =====
-- What is appended to a packet is read back.
use ormpp.Base.{
  ℕ, zero, suc, ◌+◌, ◌*◌, ◌/◌, ◌%◌, ◌<◌, ◌≤◌, true, false, [], ◌∷◌, ◌++◌, none, some, ◌==◌, leb,
  Bytes, length, take_append, drop_append, append_assoc, ◌≡◌, refl, ◌∙◌, length-append, arith,
}
use Prim.Native.Nat.{◌^◌}
use ormpp.MysqlAsync.Reader.{
  Reader, pure, ◌>>=◌, le_bytes, read_byte, read_le, read_string, read_lenenc_from, read_lenenc_int,
  read_lenenc_value, read_lenenc_text, read_lenenc_string_optional, read_lenenc_string, or_empty,
  append_lenenc_int, append_lenenc_string,
}

pub read_le-le_bytes :
    (k value : ℕ) (rest : Bytes)
    → value < 256 ^ k
    → read_le k (le_bytes k value ++ rest) ≡ some (value, rest)
unfolding read_le le_bytes
read_le-le_bytes zero value rest h = ground arith
read_le-le_bytes (suc k) value rest h =
    let ih = read_le-le_bytes k (value / 256) rest (omega arith) in
    rw (ih, read_byte) (let e : value % 256 + 256 * (value / 256) ≡ value = omega arith in rw e)

pub read_string-append :
    (text rest : Bytes) → read_string (length text) (text ++ rest) ≡ some (text, rest)
unfolding read_string
read_string-append text rest =
    let fits : leb (length text) (length (text ++ rest)) ≡ true =
      ground (arith, length-append text rest) in
    rw (fits, take_append text rest, drop_append text rest)

abbrev pub uint64_mod : ℕ
uint64_mod = 18446744073709551616

-- An integer of up to eight bytes is read back from its encoding, whatever follows it.
pub read_lenenc_int-append :
    (value : ℕ) (rest : Bytes)
    → value < uint64_mod
    → read_lenenc_int (append_lenenc_int value ++ rest) ≡ some (value, rest)
unfolding read_lenenc_int append_lenenc_int
read_lenenc_int-append value rest h = ground (
  arith,
  read_le-le_bytes 2 value rest,
  read_le-le_bytes 3 value rest,
  read_le-le_bytes 8 value rest,
)

-- A reader behind one that succeeds
pub >>=-some :
    {A B : Type 0} (m : Reader A) (f : A → Reader B) (s : Bytes) {rest : Bytes} {a : A}
    → m s ≡ some (a, rest)
    → (m >>= f) s ≡ f a rest
>>=-some m f s h = rw (h, ◌>>=◌)

lenenc_text :
    (s : Bytes) (text rest : Bytes)
    → read_lenenc_int s ≡ some (length text, text ++ rest)
    → read_lenenc_string_optional s ≡ some (some text, rest)
unfolding read_lenenc_int read_lenenc_string_optional read_lenenc_value read_lenenc_text
lenenc_text [] text rest h = cc
lenenc_text (c ∷ s) text rest h =
    let plain : (c == 0xfb) ≡ false = unfold read_lenenc_from in ground arith in
    rw plain (
      >>=-some (read_lenenc_from c) (λ len. read_string len >>= λ t. pure (some t)) s h
      ∙ >>=-some (read_string (length text)) (λ t. pure (some t)) (text ++ rest)
          (read_string-append text rest))

-- A text is read back from its encoding, whatever bytes it holds and whatever follows it.
pub read_lenenc_string_optional-append :
    (text rest : Bytes)
    → length text < uint64_mod
    → read_lenenc_string_optional (append_lenenc_string text ++ rest) ≡ some (some text, rest)
unfolding append_lenenc_string
read_lenenc_string_optional-append text rest h =
    let n = length text in
    rw (append_assoc (append_lenenc_int n) text rest) (
      lenenc_text (append_lenenc_int n ++ (text ++ rest)) text rest
        (read_lenenc_int-append n (text ++ rest) h))

pub read_lenenc_string-append :
    (text rest : Bytes)
    → length text < uint64_mod
    → read_lenenc_string (append_lenenc_string text ++ rest) ≡ some (text, rest)
unfolding read_lenenc_string
read_lenenc_string-append text rest h =
    >>=-some read_lenenc_string_optional (λ value. pure (or_empty value))
      (append_lenenc_string text ++ rest) (read_lenenc_string_optional-append text rest h)

pub read_lenenc_string_optional_null :
    (rest : Bytes) → read_lenenc_string_optional (0xfb ∷ rest) ≡ some (none, rest)
unfolding read_lenenc_string_optional read_byte read_lenenc_value
read_lenenc_string_optional_null rest = refl

-- A number of `k` bytes can be read where there are `k` bytes.
pub read_le_enough :
    (k : ℕ) (s : Bytes)
    → k ≤ length s
    → (value : ℕ) × (rest : Bytes) × (read_le k s ≡ some (value, rest))
      × (length rest + k ≡ length s)
unfolding read_le read_byte
read_le_enough zero s h = (0, s, refl, omega arith)
read_le_enough (suc k) [] h = elim h [ ]
read_le_enough (suc k) (c ∷ s) h =
    let (high, rest, e, l) = read_le_enough k s (omega arith) in
    (c + 256 * high, rest, rw e, omega (arith, l))

pub read_byte_enough :
    (s : Bytes)
    → 1 ≤ length s
    → (value : ℕ) × (rest : Bytes) × (read_byte s ≡ some (value, rest))
      × (length rest + 1 ≡ length s)
unfolding read_byte
read_byte_enough [] h = elim h [ ]
read_byte_enough (c ∷ s) h = (c, s, refl, omega arith)
