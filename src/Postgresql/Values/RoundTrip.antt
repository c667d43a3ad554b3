-- ===== src/Postgresql/Values/RoundTrip.antt =====
-- What `assign` reads of the text that `set_param_values` has passed.
use ormpp.Base.{
  ℕ, zero, suc, ◌+◌, ◌-◌, ◌*◌, ◌/◌, ◌%◌, ◌<◌, ◌≤◌, if◌then◌else◌, ◌==◌, leb, ltb, true, false, ◌&&◌,
  [], ◌∷◌, ◌++◌, some, Bytes, length, replicate, All, decimal, to_string, IsDigit,
  to_string-IsDigit, decimal-IsDigit, append-cons-ne-nil, append_assoc, Bool-cases, inl, inr, ◌≡◌,
  ◌≢◌, refl, sym, ap, ◌∙◌, arith,
}
use ormpp.Utility.Escape.{Value, plus, minus, text, to_str}
use ormpp.Utility.Select.{isspace, skip_space}
use ormpp.Postgresql.{Library, read_digits}
use ormpp.Postgresql.Values.{
  Field, missing, letter, integer, wide, floating, characters, char_array, binary, Kind, IntType,
  boolean, signed8, signed16, signed32, signed64, unsigned8, unsigned16, unsigned32, unsigned64,
  integer_kind, wide_kind, in_range, converted, atoll, floating_kind, text_kind, Member, until_zero,
  padded, negated, signed, atoi, set_param_values, passed, assign_text, assign, default_of,
}

digit_test : (c : ℕ) → IsDigit c → (leb b'0' c && leb c b'9') ≡ true
digit_test c h = ground arith

read_digits-concat :
    (n : ℕ) (s : Bytes) (c : ℕ)
    → All IsDigit s
    → IsDigit c
    → read_digits n (s ++ c ∷ []) ≡ read_digits n s * 10 + (c - b'0')
unfolding read_digits
read_digits-concat n [] c h k = rw (digit_test c k) refl
read_digits-concat n (d ∷ s) c h k =
    rw (digit_test d h.0) (read_digits-concat (n * 10 + (d - b'0')) s c h.1 k)

one_digit : (n : ℕ) → ltb n 10 ≡ true → n < 10
one_digit n h = ground arith

more_digits : (n : ℕ) → ltb n 10 ≡ false → 10 ≤ n
more_digits n h = ground arith

-- The text of one digit
read_digit : (d : ℕ) → d < 10 → read_digits 0 ((b'0' + d) ∷ []) ≡ d
unfolding read_digits
read_digit d h = read_digits-concat 0 [] (b'0' + d) tt (omega arith, omega (arith, h)) ∙ omega arith

read_digits-decimal : (f n : ℕ) → n < f → read_digits 0 (decimal f n) ≡ n
unfolding decimal
read_digits-decimal zero n h = elim h [ ]
read_digits-decimal (suc f) n h = elim (Bool-cases (ltb n 10)) [
  | inl small ↦ rw small (read_digit n (one_digit n small))
  | inr large ↦ rw large (
      read_digits-concat 0 (decimal f (n / 10)) (b'0' + n % 10) (decimal-IsDigit f (n / 10))
        (omega arith, omega arith)
      ∙ ap (λ m. m * 10 + (b'0' + n % 10 - b'0'))
          (read_digits-decimal f (n / 10) (omega (arith, h, more_digits n large)))
      ∙ omega arith)
]

read_digits-to_string : (n : ℕ) → read_digits 0 (to_string n) ≡ n
unfolding to_string
read_digits-to_string n = read_digits-decimal (suc n) n (omega arith)

to_string-nonempty : (n : ℕ) → to_string n ≢ []
unfolding to_string decimal
to_string-nonempty n e = elim (Bool-cases (ltb n 10)) [
  | inl small ↦ let f : (b'0' + n) ∷ [] ≡ [] = sym (rw small refl) ∙ e in cc f
  | inr large ↦ append-cons-ne-nil (decimal n (n / 10)) (b'0' + n % 10) [] (sym (rw large refl) ∙ e)
]

skip_digit : (c : ℕ) (s : Bytes) → IsDigit c → skip_space (c ∷ s) ≡ c ∷ s
unfolding skip_space
skip_digit c s h = rw (not_space c h) refl
  where
    not_space : (c : ℕ) → IsDigit c → isspace c ≡ false
    not_space c h = ground arith

signed_digit : (c : ℕ) (s : Bytes) → IsDigit c → signed (c ∷ s) ≡ plus (read_digits 0 (c ∷ s))
unfolding signed
signed_digit c s h = rw (no_minus c h, no_plus c h) refl
  where
    no_minus : (c : ℕ) → IsDigit c → (c == b'-') ≡ false
    no_minus c h = ground arith

    no_plus : (c : ℕ) → IsDigit c → (c == b'+') ≡ false
    no_plus c h = ground arith

-- What `atoi` and `atoll` read, without their ranges
abbrev read_number : Bytes → Value
read_number s = signed (skip_space s)

read_number_digits : (s : Bytes) → All IsDigit s → s ≢ [] → read_number s ≡ plus (read_digits 0 s)
read_number_digits [] h k = absurd (k refl)
read_number_digits (c ∷ s) h k = ap signed (skip_digit c s h.0) ∙ signed_digit c s h.0

abbrev pub IsNumber : Value → Type 0
IsNumber (plus n) = Unit
IsNumber (minus n) = Unit
IsNumber (text s) = ⊥

minus_sign : (s : Bytes) → read_number (b'-' ∷ s) ≡ negated (read_digits 0 s)
unfolding signed skip_space
minus_sign s = refl

read_number-to_str : (v : Value) → IsNumber v → read_number (to_str v) ≡ v
unfolding to_str
read_number-to_str (plus n) h =
    read_number_digits (to_string n) (to_string-IsDigit n) (to_string-nonempty n)
    ∙ ap plus (read_digits-to_string n)
read_number-to_str (minus n) h =
    minus_sign (to_string (suc n)) ∙ ap negated (read_digits-to_string (suc n))
read_number-to_str (text s) h = absurd h

in_range-IsNumber : (bound : ℕ) (v : Value) → in_range bound v ≡ true → IsNumber v
in_range-IsNumber bound (plus n) h = tt
in_range-IsNumber bound (minus n) h = tt
in_range-IsNumber bound (text s) h = cc h

-- The values of a type
abbrev pub Holds : IntType → Value → Type 0
Holds boolean (plus n) = n < 2
Holds signed8 (plus n) = n < 128
Holds signed8 (minus n) = n < 128
Holds signed16 (plus n) = n < 32768
Holds signed16 (minus n) = n < 32768
Holds signed32 (plus n) = n < 2147483648
Holds signed32 (minus n) = n < 2147483648
Holds signed64 (plus n) = n < 9223372036854775808
Holds signed64 (minus n) = n < 9223372036854775808
Holds unsigned8 (plus n) = n < 256
Holds unsigned16 (plus n) = n < 65536
Holds unsigned32 (plus n) = n < 4294967296
Holds unsigned64 (plus n) = n < 18446744073709551616
Holds t v = ⊥

converted-Holds : (t : IntType) (v : Value) → Holds t v → converted t v ≡ v
unfolding converted
converted-Holds boolean (plus n) h = ap plus (bit n h)
  where
    bit : (n : ℕ) → n < 2 → (if n == 0 then 0 else 1) ≡ n
    bit n h = ground arith
converted-Holds signed8 (plus n) h = ground arith
converted-Holds signed8 (minus n) h = ground arith
converted-Holds signed16 (plus n) h = ground arith
converted-Holds signed16 (minus n) h = ground arith
converted-Holds signed32 (plus n) h = ground arith
converted-Holds signed32 (minus n) h = ground arith
converted-Holds signed64 (plus n) h = ground arith
converted-Holds signed64 (minus n) h = ground arith
converted-Holds unsigned8 (plus n) h = ap plus (omega (arith, h))
converted-Holds unsigned16 (plus n) h = ap plus (omega (arith, h))
converted-Holds unsigned32 (plus n) h = ap plus (omega (arith, h))
converted-Holds unsigned64 (plus n) h = ap plus (omega (arith, h))
converted-Holds boolean (minus n) h = absurd h
converted-Holds unsigned8 (minus n) h = absurd h
converted-Holds unsigned16 (minus n) h = absurd h
converted-Holds unsigned32 (minus n) h = absurd h
converted-Holds unsigned64 (minus n) h = absurd h
converted-Holds boolean (text s) h = absurd h
converted-Holds signed8 (text s) h = absurd h
converted-Holds signed16 (text s) h = absurd h
converted-Holds signed32 (text s) h = absurd h
converted-Holds signed64 (text s) h = absurd h
converted-Holds unsigned8 (text s) h = absurd h
converted-Holds unsigned16 (text s) h = absurd h
converted-Holds unsigned32 (text s) h = absurd h
converted-Holds unsigned64 (text s) h = absurd h

abbrev pub NoZero : Bytes → Type 0
NoZero s = All (λ c. (c == 0) ≡ false) s

digits_NoZero : (s : Bytes) → All IsDigit s → NoZero s
digits_NoZero [] h = tt
digits_NoZero (c ∷ s) h = (digit_NoZero c h.0, digits_NoZero s h.1)
  where
    digit_NoZero : (c : ℕ) → IsDigit c → (c == 0) ≡ false
    digit_NoZero c h = ground arith

to_str-NoZero : (v : Value) → IsNumber v → NoZero (to_str v)
unfolding to_str
to_str-NoZero (plus n) h = digits_NoZero (to_string n) (to_string-IsDigit n)
to_str-NoZero (minus n) h = (refl, digits_NoZero (to_string (suc n)) (to_string-IsDigit (suc n)))
to_str-NoZero (text s) h = absurd h

until_zero_text : (s rest : Bytes) → NoZero s → until_zero (s ++ 0 ∷ rest) ≡ s
until_zero_text [] rest h = refl
until_zero_text (c ∷ s) rest h = rw (h.0) (ap (◌∷◌ c) (until_zero_text s rest h.1))

until_zero_all : (s : Bytes) → NoZero s → until_zero s ≡ s
until_zero_all [] h = refl
until_zero_all (c ∷ s) h = rw (h.0) (ap (◌∷◌ c) (until_zero_all s h.1))

module _ {Db : Type 0} (lib : Library Db) where
  -- A text with a zero behind it is passed as it is.
  passed_text : (s rest : Bytes) → NoZero s → passed lib (s ++ 0 ∷ rest) ≡ some s
  unfolding passed
  passed_text [] rest h = refl
  passed_text (c ∷ s) rest h = ap some (
      ap until_zero (append_assoc (c ∷ s) (0 ∷ rest) lib.memory_behind)
      ∙ until_zero_text (c ∷ s) (rest ++ lib.memory_behind) h)

  passed-padded :
      (size : ℕ) (s : Bytes) → length s < size → NoZero s → passed lib (padded size s) ≡ some s
  passed-padded size s h k =
      ap (λ n. passed lib (s ++ replicate n 0)) (room (size - length s) (omega (arith, h)))
      ∙ passed_text s (replicate (size - length s - 1) 0) k
    where
      room : (n : ℕ) → 0 < n → n ≡ suc (n - 1)
      room n h = omega (arith, h)

  atoi-to_str : (v : Value) → in_range 2147483648 v ≡ true → atoi lib (to_str v) ≡ v
  unfolding atoi
  atoi-to_str v h =
      let e : read_number (to_str v) ≡ v = read_number-to_str v (in_range-IsNumber _ v h) in
      rw (e, h) refl

  atoll-to_str : (v : Value) → in_range 9223372036854775808 v ≡ true → atoll lib (to_str v) ≡ v
  unfolding atoll
  atoll-to_str v h =
      let e : read_number (to_str v) ≡ v = read_number-to_str v (in_range-IsNumber _ v h) in
      rw (e, h) refl

  abbrev pub SurvivesAs : (IntType → Kind) → ℕ → ℕ → Member → Value → Type 0
  SurvivesAs kind bound room m v =
      (t : IntType) × (m.kind ≡ kind t)
      × (in_range bound v ≡ true)
      × Holds t v
      × (length (to_str v) < room)

  -- The values that survive: numbers of the member's type that have room and that `atoi` or `atoll` reads, a text without a zero, and a floating-point number that is read
  -- back from the six decimals that are printed of it.
  abbrev pub Survives : Member → Field → Type 0
  Survives m missing = m.optional ≡ true
  Survives m (integer v) = SurvivesAs integer_kind 2147483648 20 m v
  Survives m (wide v) = SurvivesAs wide_kind 9223372036854775808 65 m v
  Survives m (floating bits) =
      (m.kind ≡ floating_kind)
      × NoZero (lib.format_float bits)
      × (length (lib.format_float bits) < 20)
      × (lib.atof (lib.format_float bits) ≡ bits)
  Survives m (characters s) = (m.kind ≡ text_kind) × NoZero s
  Survives m field = ⊥

  read_text :
      (m : Member) (s : Bytes) (kind : Kind)
      → m.kind ≡ kind
      → assign lib m (some s) ≡ assign_text lib kind s
  unfolding assign
  read_text m s kind e = ap (λ k. assign_text lib k s) e

  null_lem : (m : Member) → m.optional ≡ true → assign lib m (passed lib []) ≡ missing
  unfolding assign passed default_of
  null_lem m on = ap (λ b. default_of b m.kind) on

  -- A value that is passed as a parameter, and whose text the server gives back as it took it, is read back as the
  -- value: an optional without value, an integer of the member's type below 2 ^ 31 (2 ^ 63 for a 64-bit one) in size
  -- that has room in its vector, a text without a zero byte, and a floating-point number of at most 19 characters that
  -- six decimals determine.
  pub assign-passed :
      (m : Member) (field : Field)
      → ((v : Value) → IsNumber v → lib.to_chars v ≡ to_str v)
      → Survives m field
      → assign lib m (passed lib (set_param_values lib field)) ≡ field
  unfolding set_param_values assign_text
  assign-passed m missing chars h = null_lem m h
  assign-passed m (letter c) chars h = absurd h
  assign-passed m (char_array s) chars h = absurd h
  assign-passed m (binary s) chars h = absurd h
  assign-passed m (integer v) chars (t, kind, ranged, holds, room) =
      let number : IsNumber v = in_range-IsNumber _ v ranged in
      ap (λ s. assign lib m (passed lib (padded 20 s))) (chars v number)
      ∙ ap (assign lib m) (passed-padded 20 (to_str v) room (to_str-NoZero v number))
      ∙ read_text m (to_str v) (integer_kind t) kind
      ∙ ap (λ w. integer (converted t w)) (atoi-to_str v ranged)
      ∙ ap integer (converted-Holds t v holds)
  assign-passed m (wide v) chars (t, kind, ranged, holds, room) =
      let number : IsNumber v = in_range-IsNumber _ v ranged in
      ap (λ s. assign lib m (passed lib (padded 65 s))) (chars v number)
      ∙ ap (assign lib m) (passed-padded 65 (to_str v) room (to_str-NoZero v number))
      ∙ read_text m (to_str v) (wide_kind t) kind
      ∙ ap (λ w. wide (converted t w)) (atoll-to_str v ranged)
      ∙ ap wide (converted-Holds t v holds)
  assign-passed m (floating bits) chars (kind, no_zero, room, read) =
      ap (assign lib m) (passed-padded 20 (lib.format_float bits) room no_zero)
      ∙ read_text m (lib.format_float bits) floating_kind kind
      ∙ ap floating read
  assign-passed m (characters s) chars (kind, no_zero) =
      ap (assign lib m) (passed_text s [] no_zero)
      ∙ read_text m s text_kind kind
      ∙ ap characters (until_zero_all s no_zero)
