-- ===== src/Utility/Select/Filled.antt =====
-- `get_sql`: where the literals come to stand.
use ormpp.Base.{
  false, List, [], ◌∷◌, ◌++◌, some, ◌==◌, Bytes, length, All, All-append, ◌≡◌, refl, sym, ap, ◌∙◌,
  append_assoc, arith,
}
use ormpp.Utility.Escape.{Value, to_str}
use ormpp.Utility.Select.{get_str, or_thrown, get_sql}

-- A statement as the texts around its placeholders
unfoldable pub template : Bytes → List Bytes → Bytes
template piece [] = piece
template piece (next ∷ pieces) = piece ++ (b'?' ∷ template next pieces)

unfoldable pub filled : Bytes → List Bytes → List Value → Bytes
unfolding to_str
filled piece [] values = piece
filled piece (next ∷ pieces) [] = piece
filled piece (next ∷ pieces) (value ∷ values) =
    piece ++ (to_str value ++ (b' ' ∷ filled next pieces values))

abbrev pub NoPlaceholder : Bytes → Type 0
NoPlaceholder s = All (λ c. (c == b'?') ≡ false) s

get_str_first :
    (piece rest s : Bytes)
    → NoPlaceholder piece
    → get_str (piece ++ (b'?' ∷ rest)) s ≡ some (piece ++ (s ++ (b' ' ∷ rest)))
unfolding get_str
get_str_first [] rest s h = refl
get_str_first (c ∷ piece) rest s h = rw (h.0, get_str_first piece rest s h.1) refl

template-append :
    (s piece : Bytes) (pieces : List Bytes)
    → template (s ++ piece) pieces ≡ s ++ template piece pieces
unfolding template
template-append s piece [] = refl
template-append s piece (next ∷ pieces) = append_assoc s piece _

filled-append :
    (s piece : Bytes) (pieces : List Bytes) (values : List Value)
    → filled (s ++ piece) pieces values ≡ s ++ filled piece pieces values
unfolding filled
filled-append s piece [] values = refl
filled-append s piece (next ∷ pieces) [] = refl
filled-append s piece (next ∷ pieces) (value ∷ values) = append_assoc s piece _

-- What stands in front of the next placeholder, once this one is filled
grow :
    (piece literal rest : Bytes)
    → piece ++ (literal ++ (b' ' ∷ rest)) ≡ (piece ++ (literal ++ b' ' ∷ [])) ++ rest
grow piece literal rest =
    ap (λ s. piece ++ s) (sym (append_assoc literal (b' ' ∷ []) rest))
    ∙ sym (append_assoc piece (literal ++ b' ' ∷ []) rest)

-- With as many values as placeholders, each placeholder becomes the literal of its value and a space, where no
-- text of the statement between the placeholders and no literal has a question mark of its own.
pub get_sql-filled :
    (piece : Bytes) (pieces : List Bytes) (values : List Value)
    → NoPlaceholder piece
    → All NoPlaceholder pieces
    → All (λ value. NoPlaceholder (to_str value)) values
    → length pieces ≡ length values
    → get_sql (template piece pieces) values ≡ some (filled piece pieces values)
unfolding get_sql template filled
get_sql-filled piece [] [] h k l e = refl
get_sql-filled piece [] (value ∷ values) h k l e = absurd (omega (arith, e))
get_sql-filled piece (next ∷ pieces) [] h k l e = absurd (omega (arith, e))
get_sql-filled piece (next ∷ pieces) (value ∷ values) h k l e =
    let literal = to_str value in
    let grown = piece ++ (literal ++ b' ' ∷ []) in
    ap (or_thrown (λ s. get_sql s values)) (get_str_first piece (template next pieces) literal h)
    ∙ ap (λ s. get_sql s values)
        (grow piece literal (template next pieces) ∙ sym (template-append grown next pieces))
    ∙ get_sql-filled (grown ++ next) pieces values
        (All-append _ grown next
          (All-append _ piece (literal ++ b' ' ∷ []) h
            (All-append _ literal (b' ' ∷ []) l.0 (refl, tt)))
          k.0)
        k.1 l.1 (omega (arith, e))
    ∙ ap some (
        filled-append grown next pieces values
        ∙ sym (grow piece literal (filled next pieces values)))
