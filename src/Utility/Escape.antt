-- ===== src/Utility/Escape.antt =====
-- ormpp/utility.hpp, `escape_sql_string` and `to_str`: a value as an SQL literal.
pub mod Literal
use ormpp.Base.{ℕ, suc, List, [], ◌∷◌, ◌++◌, ◌==◌, if◌then◌else◌, Bytes, to_string}

-- The loop appends to `result`; here each piece stands in front of what the rest gives.
unfoldable pub escape_sql_string : Bytes → Bytes
escape_sql_string [] = []
escape_sql_string (c ∷ cs) =
    (if c == b'\'' then b'\'' ∷ b'\'' ∷ [] else c ∷ []) ++ escape_sql_string cs

-- An argument of `to_str`: an integer of either sign (`minus n` is -(n + 1)), or text.
pub data Value : Type 0 where
  plus : ℕ → Value
  minus : ℕ → Value
  text : Bytes → Value

unfoldable pub to_str : Value → Bytes
to_str (plus n) = to_string n
to_str (minus n) = b'-' ∷ to_string (suc n)
to_str (text s) = b'\'' ∷ (escape_sql_string s ++ b'\'' ∷ [])
