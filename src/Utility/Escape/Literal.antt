-- ===== src/Utility/Escape/Literal.antt =====
-- How a database reads a quoted literal back, against `escape_sql_string`.
use ormpp.Base.{
  ℕ, false, [], ◌∷◌, ◌++◌, Option, none, some, ◌==◌, if◌then◌else◌, Bytes, starts, ◌≡◌, ◌≢◌, refl,
  arith, Bool-cases, inl, inr, ==_iff,
}
use ormpp.Utility.Escape.{escape_sql_string}

abbrev pub add_front : ℕ → Option (Bytes × Bytes) → Option (Bytes × Bytes)
add_front c none = none
add_front c (some (value, rest)) = some (c ∷ value, rest)

-- The literal of the SQL standard behind its opening quote: a doubled quote stands for one, a single
-- one ends it. The result is the value and the text behind the closing quote.
unfoldable pub read_literal : Bytes → Option (Bytes × Bytes)
read_literal [] = none
read_literal (c ∷ []) = if c == b'\'' then some ([], []) else none
read_literal (c ∷ d ∷ cs) =
    let doubled = add_front b'\'' (read_literal cs) in
    let plain = add_front c (read_literal (d ∷ cs)) in
    if c == b'\'' then (if d == b'\'' then doubled else some ([], d ∷ cs)) else plain

-- The literal of MySQL: a backslash and a byte stand for what `unescape` gives for the byte.
unfoldable pub read_backslash_literal : (ℕ → ℕ) → Bytes → Option (Bytes × Bytes)
read_backslash_literal unescape [] = none
read_backslash_literal unescape (c ∷ []) = if c == b'\'' then some ([], []) else none
read_backslash_literal unescape (c ∷ d ∷ cs) =
    let escaped = add_front (unescape d) (read_backslash_literal unescape cs) in
    let doubled = add_front b'\'' (read_backslash_literal unescape cs) in
    let plain = add_front c (read_backslash_literal unescape (d ∷ cs)) in
    if c == b'\\'
    then escaped
    else if c == b'\''
    then (if d == b'\'' then doubled else some ([], d ∷ cs))
    else plain

read_literal_end :
    (rest : Bytes) → starts b'\'' rest ≡ false → read_literal (b'\'' ∷ rest) ≡ some ([], rest)
unfolding read_literal
read_literal_end [] h = refl
read_literal_end (d ∷ rest) h = rw h

read_literal_plain :
    (c : ℕ) (rest : Bytes)
    → (c == b'\'') ≡ false
    → read_literal (c ∷ rest) ≡ add_front c (read_literal rest)
unfolding read_literal
read_literal_plain c [] h = rw h
read_literal_plain c (d ∷ rest) h = rw h

read_literal_doubled :
    (rest : Bytes) → read_literal (b'\'' ∷ b'\'' ∷ rest) ≡ add_front b'\'' (read_literal rest)
unfolding read_literal
read_literal_doubled rest = refl

-- Whatever the text holds, a database that follows the SQL standard reads back the escaped text
-- between its quotes as that text, and stops at the closing quote, if no quote follows it.
pub read_literal-escape_sql_string :
    (s rest : Bytes)
    → starts b'\'' rest ≡ false
    → read_literal (escape_sql_string s ++ b'\'' ∷ rest) ≡ some (s, rest)
unfolding escape_sql_string
read_literal-escape_sql_string [] rest h = read_literal_end rest h
read_literal-escape_sql_string (c ∷ s) rest h =
    let ih = read_literal-escape_sql_string s rest h in
    let after : Bytes = escape_sql_string s ++ b'\'' ∷ rest in
    elim (Bool-cases (c == b'\'')) [
      | inl e ↦ rw ((==_iff c b'\'').0 e) (rw read_literal_doubled (rw ih))
      | inr e ↦ rw e (rw (read_literal_plain c after e) (rw ih))
    ]

-- On a database that reads a backslash as an escape, as MySQL does by default, a text that begins
-- with a backslash and a quote ends its literal: what stands behind these two bytes is left outside
-- the literal, as SQL, if it is not empty and does not begin with a quote.
escape_sql_string_backslash :
    (unescape : ℕ → ℕ) (c : ℕ) (s rest : Bytes)
    → c ≢ b'\''
    → read_backslash_literal unescape (escape_sql_string (b'\\' ∷ b'\'' ∷ c ∷ s) ++ b'\'' ∷ rest)
      ≡ some (unescape b'\'' ∷ [], c ∷ (escape_sql_string s ++ b'\'' ∷ rest))
unfolding escape_sql_string read_backslash_literal
escape_sql_string_backslash unescape c s rest h = ground arith
