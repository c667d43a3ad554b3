-- ===== src/MysqlAsync/Rows/RoundTrip.antt =====
-- The values of a row are read back from the texts that the server sends for them.
use ormpp.Base.{
  ℕ, zero, suc, ◌+◌, ◌-◌, ◌*◌, ◌^◌, ◌/◌, ◌%◌, ◌<◌, Bool, true, false, List, [], ◌∷◌, ◌++◌, Option,
  none, some, ◌==◌, ltb, Bytes, codes, map, equal, IsDigit, All, to_string-IsDigit, take, replicate,
  length, length-append, take_all, append-nil, to_string, decimal, Bool-cases, inl, inr, ◌≡◌, refl,
  sym, ap, ◌∙◌, arith,
}
use ormpp.MysqlAsync.Arguments.{Argument, null, boolean, plus, minus, text, chars, blob}
use ormpp.MysqlAsync.Rows.{
  Target, boolean_target, unsigned, signed, string_target, array_target, blob_target, read_digits,
  from_chars, from_chars_signed, as_plus, assign_text_value, map_reflectable_row, filled,
}

abbrev push_digit : Option ℕ → ℕ → Option ℕ
push_digit none d = none
push_digit (some value) d = some (value * 10 + d)

read_digits-append :
    (value d : ℕ) (s : Bytes)
    → d < 10
    → read_digits value (s ++ (b'0' + d) ∷ []) ≡ push_digit (read_digits value s) d
unfolding read_digits
read_digits-append value d [] h = ground arith
read_digits-append value d (c ∷ s) h =
    ground (arith, read_digits-append (value * 10 + (c - b'0')) d s h)

read_digits-decimal : (f n : ℕ) → n < f → read_digits 0 (decimal f n) ≡ some n
unfolding read_digits decimal
read_digits-decimal zero n h = elim h [ ]
read_digits-decimal (suc f) n h = elim (Bool-cases (ltb n 10)) [
  | inl e ↦ rw e (ground arith)
  | inr e ↦ rw e (
      read_digits-append 0 (n % 10) (decimal f (n / 10)) (omega arith)
      ∙ rw (read_digits-decimal f (n / 10) (ground arith)) (ap some (omega arith)))
]

decimal_positive : (f n : ℕ) → 0 < length (decimal (suc f) n)
unfolding decimal
decimal_positive f n = elim (Bool-cases (ltb n 10)) [
  | inl e ↦ rw e (omega arith)
  | inr e ↦ rw e (omega (arith, length-append (decimal f (n / 10)) ((b'0' + n % 10) ∷ [])))
]

from_chars_lem :
    (limit n : ℕ) (s : Bytes)
    → 0 < length s
    → read_digits 0 s ≡ some n
    → n < limit
    → from_chars limit s ≡ some n
unfolding from_chars
from_chars_lem limit n [] k e h = elim k [ ]
from_chars_lem limit n (c ∷ s) k e h =
    let small : ltb n limit ≡ true = ground arith in rw (e, small) refl

from_chars-to_string : (limit n : ℕ) → n < limit → from_chars limit (to_string n) ≡ some n
unfolding to_string
from_chars-to_string limit n h =
    from_chars_lem limit n (decimal (suc n) n) (decimal_positive n n)
      (read_digits-decimal (suc n) n (omega arith)) h

signed_plus :
    (bits n : ℕ) (s : Bytes)
    → All IsDigit s
    → from_chars (2 ^ (bits - 1)) s ≡ some n
    → from_chars_signed bits s ≡ some (plus n)
unfolding from_chars_signed from_chars
signed_plus bits n [] h e = cc e
signed_plus bits n (c ∷ s) h e =
    let no_sign : (c == b'-') ≡ false = ground (arith, h.0) in rw no_sign (ap as_plus e)

-- The text that the server sends for a value
abbrev pub sent_text : Argument → Option Bytes
sent_text null = none
sent_text (boolean true) = some (codes "1")
sent_text (boolean false) = some (codes "0")
sent_text (plus n) = some (to_string n)
sent_text (minus n) = some (b'-' ∷ to_string (suc n))
sent_text (text s) = some s
sent_text (chars s) = some s
sent_text (blob s) = some s

-- A value that a member of the type can have
abbrev pub Suits : Bool → Target → Argument → Type 0
Suits optional target null = optional ≡ true
Suits optional boolean_target (boolean b) = Unit
Suits optional (unsigned bits) (plus n) = n < 2 ^ bits
Suits optional (signed bits) (plus n) = n < 2 ^ (bits - 1)
Suits optional (signed bits) (minus n) = n < 2 ^ (bits - 1)
Suits optional string_target (text s) = Unit
Suits optional (array_target size) (chars s) = length s ≡ size
Suits optional blob_target (blob s) = Unit
Suits optional _ _ = ⊥

filled_same : (s : Bytes) → filled (length s) s ≡ s
filled_same s =
    let none_left : length s - length s ≡ 0 = omega arith in
    ap (λ n. take (length s) s ++ replicate n 0) none_left
    ∙ append-nil (take (length s) s)
    ∙ take_all s

value_read :
    (optional : Bool) (target : Target) (value : Argument)
    → Suits optional target value
    → assign_text_value optional target (sent_text value) ≡ some value
unfolding assign_text_value from_chars_signed equal
value_read true target null h = refl
value_read false target null h = cc h
value_read optional boolean_target (boolean true) h = refl
value_read optional boolean_target (boolean false) h = refl
value_read optional (unsigned bits) (plus n) h = rw (from_chars-to_string (2 ^ bits) n h) refl
value_read optional (signed bits) (plus n) h =
    signed_plus bits n (to_string n) (to_string-IsDigit n)
      (from_chars-to_string (2 ^ (bits - 1)) n h)
value_read optional (signed bits) (minus n) h =
    rw (from_chars-to_string (2 ^ (bits - 1) + 1) (suc n) (omega (arith, h))) refl
value_read optional string_target (text s) h = refl
value_read optional (array_target size) (chars s) h =
    ap (λ t. some (chars t)) (ap (λ n. filled n s) (sym h) ∙ filled_same s)
value_read optional blob_target (blob s) h = refl
value_read optional _ _ h = elim h [ ]

abbrev pub AllSuit : List (Bool × Target) → List Argument → Type 0
AllSuit [] [] = Unit
AllSuit [] (value ∷ values) = ⊥
AllSuit (t ∷ targets) [] = ⊥
AllSuit ((optional, target) ∷ targets) (value ∷ values) =
    Suits optional target value × AllSuit targets values

-- A struct is read back from the row that the server sends for its members: integers of every size and sign up to their
-- bounds, Booleans, strings, arrays, blobs and NULLs of optional members. Columns behind the last member are passed over.
pub map_reflectable_row-sent_text :
    (targets : List (Bool × Target)) (values : List Argument) (extra : List (Option Bytes))
    → AllSuit targets values
    → map_reflectable_row targets (map sent_text values ++ extra) ≡ some values
unfolding map_reflectable_row
map_reflectable_row-sent_text [] [] extra h = refl
map_reflectable_row-sent_text [] (value ∷ values) extra h = elim h [ ]
map_reflectable_row-sent_text (t ∷ targets) [] extra h = elim h [ ]
map_reflectable_row-sent_text ((optional, target) ∷ targets) (value ∷ values) extra h =
    rw
      (value_read optional target value h.0, map_reflectable_row-sent_text targets values extra h.1)
      refl
