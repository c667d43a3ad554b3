-- ===== src/Query/Placeholder.antt =====
-- ormpp/query.hpp, `find_next_postgresql_placeholder` and `replace_postgresql_placeholders`.
pub mod OnePass
pub mod Kept
use ormpp.Base.{
  ℕ, zero, suc, ◌+◌, Bool, true, false, ◌&&◌, ◌||◌, List, [], ◌∷◌, ◌++◌, Option, none, some, ◌==◌,
  if◌then◌else◌, Bytes, take, drop, length, starts, to_string,
}

pub data Quote : Type 0 where
  single double : Quote

abbrev pub mark : Quote → ℕ
mark single = b'\''
mark double = b'"'

-- The places of the scan: the body of the `for` loop, and those of the loops inside its `switch`.
-- The places ending in `_second` are the second byte of a pair, over which `i += 2` steps.
pub data Place : Type 0 where
  plain : Place
  quoted quoted_second : Quote → Place
  line line_second : Place
  block block_second block_last : Place

-- `case '\'': case '"'`, `case '-'`, `case '/'` and `default`, at a byte of the `for` loop
open_at : ℕ → Bytes → Place
open_at c rest =
    if c == b'\''
    then quoted single
    else if c == b'"'
    then quoted double
    else if c == b'-'
    then (if starts b'-' rest then line_second else plain)
    else if c == b'/'
    then (if starts b'*' rest then block_second else plain)
    else plain

-- The place of the next byte, from that of this one, this one, and the text behind it.
unfoldable pub step : Place → ℕ → Bytes → Place
unfolding open_at
step plain c rest = open_at c rest
step (quoted q) c rest =
    if c == mark q then (if starts (mark q) rest then quoted_second q else plain) else quoted q
step (quoted_second q) c rest = quoted q
step line_second c rest = line
step line c rest = if c == b'\n' || c == b'\r' then plain else line
step block_second c rest = block
step block c rest = if c == b'*' && starts b'/' rest then block_last else block
step block_last c rest = plain

abbrev pub is_plain : Place → Bool
is_plain plain = true
is_plain _ = false

-- `case '?'`
abbrev pub is_hit : Place → ℕ → Bool
is_hit p c = is_plain p && c == b'?'

-- The scan at index `i`, over the text from there on.
unfoldable pub scan : Place → Bytes → ℕ → Option ℕ
scan p [] i = none
scan p (c ∷ cs) i =
    let later = scan (step p c cs) cs (i + 1) in if is_hit p c then some i else later

-- `none` is `npos`.
unfoldable pub find_next_postgresql_placeholder : Bytes → ℕ → Option ℕ
unfolding scan
find_next_postgresql_placeholder sql start = scan plain (drop start sql) start

abbrev pub replacement : ℕ → Bytes
replacement index = b'$' ∷ to_string index

-- `while (true)`: the fuel bounds the rounds, and `none` means that it ran out.
unfoldable pub replace_loop : ℕ → Bytes → ℕ → ℕ → Option Bytes
replace_loop zero sql search_pos index = none
replace_loop (suc fuel) sql search_pos index =
    elim (find_next_postgresql_placeholder sql search_pos) [
      | none ↦ some sql
      | some pos ↦
          replace_loop fuel (take pos sql ++ (replacement index ++ drop (pos + 1) sql))
            (pos + length (replacement index)) (index + 1)
    ]

unfoldable pub replace_postgresql_placeholders : Bytes → Option Bytes
unfolding replace_loop find_next_postgresql_placeholder
replace_postgresql_placeholders sql = replace_loop (length sql + 1) sql 0 1
