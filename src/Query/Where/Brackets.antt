-- ===== src/Query/Where/Brackets.antt =====
-- The brackets of a condition match, whatever the values in it are.
use ormpp.Base.{
  ℕ, suc, ◌-◌, Bool, true, false, not, [], ◌∷◌, ◌++◌, Option, none, some, ◌==◌, if◌then◌else◌,
  Bytes, codes, List, is_empty, equal, equal_iff, pop_back, pop_back-concat, pop_back-append,
  append-cons-ne-nil, ap, All, IsDigit, to_string, to_string-IsDigit, append_assoc, Bool-cases, inl,
  inr, ◌≡◌, ◌≢◌, refl, sym, ◌∙◌, arith,
}
use mathlib.Core.Path.{subst}
use ormpp.Utility.Escape.{Value, plus, minus, text, escape_sql_string, to_str}
use ormpp.Query.Where.{
  WhereCondition, ColInfo, to_sql, qualified_field_name, qualified_name, format_string, null,
  not_null, param, between, like, build_where, in_values, empty_in_condition, make_in_condition,
  in_impl, is_in, not_in, either, both,
}

-- The depth of brackets at the end of a text, outside literals; `none` where one closes that no
-- bracket opened. A doubled quote in a literal ends it and opens it again.
unfoldable pub depth : ℕ → Bool → Bytes → Option ℕ
depth d inside [] = if inside then none else some d
depth d inside (c ∷ cs) =
    let toggled = depth d (not inside) cs in
    let deeper = depth (suc d) inside cs in
    let higher = depth (d - 1) inside cs in
    let same = depth d inside cs in
    if c == b'\''
    then toggled
    else if inside
    then same
    else if c == b'('
    then deeper
    else if c == b')'
    then (if d == 0 then none else higher)
    else same

-- A text that leaves the depth as it was, wherever it stands outside a literal.
abbrev pub Balanced : Bytes → Type 0
Balanced s = (d : ℕ) (rest : Bytes) → depth d false (s ++ rest) ≡ depth d false rest

abbrev pub IsHarmless : ℕ → Type 0
IsHarmless c = (c ≢ b'\'') × (c ≢ b'(') × (c ≢ b')')

pub harmless-Balanced : (s : Bytes) → All IsHarmless s → Balanced s
unfolding depth
harmless-Balanced [] h d rest = refl
harmless-Balanced (c ∷ s) h d rest = ground (arith, harmless-Balanced s h.1 d rest)

pub append-Balanced : (s t : Bytes) → Balanced s → Balanced t → Balanced (s ++ t)
append-Balanced s t h k d rest = rw (append_assoc s t rest) (h d (t ++ rest) ∙ k d rest)

depth-escape :
    (s : Bytes) (d : ℕ) (rest : Bytes)
    → depth d true (escape_sql_string s ++ b'\'' ∷ rest) ≡ depth d false rest
unfolding depth escape_sql_string
depth-escape [] d rest = refl
depth-escape (c ∷ s) d rest = ground (arith, depth-escape s d rest)

format_string-Balanced : (s : Bytes) → Balanced (format_string s)
format_string-Balanced s d rest =
    rw (append_assoc (escape_sql_string s)) (quote_open d _ ∙ depth-escape s d rest)
  where
    quote_open : (d : ℕ) (rest : Bytes) → depth d false (b'\'' ∷ rest) ≡ depth d true rest
    quote_open d rest = unfold depth in refl

close_bracket : (d : ℕ) (rest : Bytes) → depth (suc d) false (b')' ∷ rest) ≡ depth d false rest
unfolding depth
close_bracket d rest = ground arith

open_bracket : (d : ℕ) (rest : Bytes) → depth d false (b'(' ∷ rest) ≡ depth (suc d) false rest
unfolding depth
open_bracket d rest = refl

brackets-Balanced : (s : Bytes) → Balanced s → Balanced (codes "(" ++ (s ++ codes ")"))
brackets-Balanced s h d rest =
    open_bracket d ((s ++ codes ")") ++ rest)
    ∙ rw (append_assoc s (codes ")") rest) (h (suc d) (b')' ∷ rest) ∙ close_bracket d rest)

digits-Balanced : (s : Bytes) → All IsDigit s → Balanced s
unfolding depth
digits-Balanced [] h d rest = refl
digits-Balanced (c ∷ s) h d rest = ground (arith, digits-Balanced s h.1 d rest)

number-Balanced : (n : ℕ) → Balanced (to_string n)
number-Balanced n = digits-Balanced (to_string n) (to_string-IsDigit n)

pub to_str-Balanced : (v : Value) → Balanced (to_str v)
unfolding to_str
to_str-Balanced (plus n) d rest = number-Balanced n d rest
to_str-Balanced (minus n) d rest = unfold depth in number-Balanced (suc n) d rest
to_str-Balanced (text s) d rest = format_string-Balanced s d rest

right-Balanced :
    (q : Bool) (right : Bytes)
    → ((q ≡ false) → Balanced right)
    → Balanced (if q then format_string right else right)
right-Balanced true right h d rest = format_string-Balanced right d rest
right-Balanced false right h d rest = h refl d rest

-- What `to_sql` puts between its brackets
abbrev pub inside : WhereCondition → Bytes
inside w = w.left ++ (w.op ++ (if w.need_quote then format_string w.right else w.right))

pub to_sql-inside : (w : WhereCondition) → to_sql w ≡ codes "(" ++ (inside w ++ codes ")")
unfolding to_sql
to_sql-inside w =
    let right : Bytes = if w.need_quote then format_string w.right else w.right in
    rw (append_assoc w.left (w.op ++ right) (codes ")"), append_assoc w.op right (codes ")")) refl

to_sql-Balanced : (w : WhereCondition) → Balanced (inside w) → Balanced (to_sql w)
to_sql-Balanced w h d rest = rw (to_sql-inside w) (brackets-Balanced (inside w) h d rest)

-- A condition from parts that balance.
parts-Balanced :
    (w : WhereCondition)
    → Balanced w.left
    → Balanced w.op
    → ((w.need_quote ≡ false) → Balanced w.right)
    → Balanced (inside w)
parts-Balanced w hl ho hr =
    let right : Bytes = if w.need_quote then format_string w.right else w.right in
    append-Balanced w.left (w.op ++ right) hl
      (append-Balanced w.op right ho (right-Balanced w.need_quote w.right hr))

-- A column whose names hold no quote and no bracket.
abbrev pub IsPlainName : ColInfo → Type 0
IsPlainName c = All IsHarmless c.name × All IsHarmless c.class_name

qualified-Balanced : (c : ColInfo) → IsPlainName c → Balanced (qualified_name c)
unfolding qualified_field_name
qualified-Balanced c h = elim (Bool-cases (is_empty c.class_name)) [
  | inl e ↦ rw e (harmless-Balanced c.name h.0)
  | inr e ↦ rw e (
      append-Balanced c.class_name _ (harmless-Balanced c.class_name h.1) (
        append-Balanced (codes ".") c.name (harmless-Balanced (codes ".") (omega arith))
          (harmless-Balanced c.name h.0)))
]

build_where-Balanced :
    (c : ColInfo) (v : Value) (op : Bytes)
    → IsPlainName c
    → All IsHarmless op
    → Balanced (inside (build_where c v op))
unfolding build_where
build_where-Balanced c (plus n) op h k d rest =
    parts-Balanced (build_where c (plus n) op) (qualified-Balanced c h) (harmless-Balanced op k)
      (λ _. to_str-Balanced (plus n)) d rest
build_where-Balanced c (minus n) op h k d rest =
    parts-Balanced (build_where c (minus n) op) (qualified-Balanced c h) (harmless-Balanced op k)
      (λ _. to_str-Balanced (minus n)) d rest
build_where-Balanced c (text val) op h k d rest = elim (Bool-cases (equal val (codes "?  "))) [
  | inl e ↦
      let is_token : codes "?  " ≡ val = sym ((equal_iff val (codes "?  ")).0 e) in
      rw e (
        parts-Balanced
          (record { left = qualified_name c; op = op; right = val; need_quote = false })
          (qualified-Balanced c h) (harmless-Balanced op k)
          (λ _. subst Balanced is_token (harmless-Balanced (codes "?  ") (omega arith))) d rest)
  | inr e ↦ rw e (
      parts-Balanced (record { left = qualified_name c; op = op; right = val; need_quote = true })
        (qualified-Balanced c h) (harmless-Balanced op k) (λ f. cc f) d rest)
]

module _ (c : ColInfo) (h : IsPlainName c) where
  word_condition :
      (op right : Bytes)
      → All IsHarmless op
      → All IsHarmless right
      → Balanced
          (inside (record { left = qualified_name c; op = op; right = right; need_quote = false }))
  word_condition op right k l =
      parts-Balanced
        (record { left = qualified_name c; op = op; right = right; need_quote = false })
        (qualified-Balanced c h) (harmless-Balanced op k) (λ _. harmless-Balanced right l)

  like-Balanced : (str : Bytes) → Balanced (inside (like c str))
  unfolding like
  like-Balanced str =
      parts-Balanced (like c str) (qualified-Balanced c h)
        (harmless-Balanced (codes " like ") (omega arith)) (λ _. format_string-Balanced str)

  between-Balanced : (a b : Value) → Balanced (inside (between c a b))
  unfolding between
  between-Balanced a b =
      parts-Balanced (between c a b)
        (append-Balanced (qualified_name c) (codes " between " ++ to_str a) (qualified-Balanced c h)
          (append-Balanced (codes " between ") (to_str a)
            (harmless-Balanced (codes " between ") (omega arith)) (to_str-Balanced a)))
        (harmless-Balanced (codes " and ") (omega arith)) (λ _. to_str-Balanced b)

-- The list of `in` and `not_in`, without its last comma
in_values-Balanced : (v : Value) (vs : List Value) → Balanced (pop_back (in_values (v ∷ vs)))
unfolding in_values
in_values-Balanced v [] d rest = rw (pop_back-concat (to_str v) b',') (to_str-Balanced v d rest)
in_values-Balanced v (w ∷ vs) d rest = rw (pop_back_tail (to_str v) w vs) (
    append-Balanced (to_str v) _ (to_str-Balanced v)
      (append-Balanced (codes ",") (pop_back (in_values (w ∷ vs)))
        (harmless-Balanced (codes ",") (omega arith)) (in_values-Balanced w vs))
      d rest)
  where
    filled : (w : Value) (vs : List Value) → in_values (w ∷ vs) ≢ []
    filled w vs = append-cons-ne-nil (to_str w) b',' (in_values vs)

    pop_back_tail :
        (s : Bytes) (w : Value) (vs : List Value)
        → pop_back (s ++ (codes "," ++ in_values (w ∷ vs)))
          ≡ s ++ (codes "," ++ pop_back (in_values (w ∷ vs)))
    pop_back_tail s w vs =
        pop_back-append s (codes "," ++ in_values (w ∷ vs)) (λ e. cc e)
        ∙ ap (λ t. s ++ t) (pop_back-append (codes ",") (in_values (w ∷ vs)) (filled w vs))

empty_in-Balanced : (not_word : Bytes) → Balanced (inside (empty_in_condition not_word))
unfolding empty_in_condition
empty_in-Balanced not_word =
    parts-Balanced (empty_in_condition not_word) (harmless-Balanced (codes "1") (omega arith))
      (harmless-Balanced (codes "=") (omega arith)) (λ _. digit (is_empty not_word))
  where
    digit : (b : Bool) → Balanced (if b then codes "0" else codes "1")
    digit true = harmless-Balanced (codes "0") (omega arith)
    digit false = harmless-Balanced (codes "1") (omega arith)

make_in-Balanced :
    (c : ColInfo) (not_word mid : Bytes)
    → IsPlainName c
    → All IsHarmless not_word
    → Balanced mid
    → Balanced (inside (make_in_condition c not_word mid))
unfolding make_in_condition
make_in-Balanced c not_word mid h k l d rest =
    let name : Bytes =
      if is_empty not_word then qualified_name c else qualified_name c ++ (codes " " ++ not_word) in
    rw
      (
        ← append_assoc name (codes " in") (codes "("),
        append_assoc (name ++ codes " in") (codes "("),
      )
      (append-Balanced (name ++ codes " in") (codes "(" ++ (mid ++ codes ")"))
        (append-Balanced name (codes " in") (named (is_empty not_word))
          (harmless-Balanced (codes " in") (omega arith)))
        (brackets-Balanced mid l) d rest)
  where
    named :
        (b : Bool)
        → Balanced (if b then qualified_name c else qualified_name c ++ (codes " " ++ not_word))
    named true = qualified-Balanced c h
    named false =
        append-Balanced (qualified_name c) (codes " " ++ not_word) (qualified-Balanced c h) (
          append-Balanced (codes " ") not_word (harmless-Balanced (codes " ") (omega arith))
            (harmless-Balanced not_word k))

in_impl-Balanced :
    (c : ColInfo) (not_word : Bytes) (values : List Value)
    → IsPlainName c
    → All IsHarmless not_word
    → Balanced (inside (in_impl c not_word values))
unfolding in_impl in_values
in_impl-Balanced c not_word [] h k d rest = empty_in-Balanced not_word d rest
in_impl-Balanced c not_word (v ∷ vs) h k d rest = rw (not_empty (to_str v) b',' (in_values vs)) (
    make_in-Balanced c not_word (pop_back (in_values (v ∷ vs))) h k (in_values-Balanced v vs) d
      rest)
  where
    not_empty : (s : Bytes) (a : ℕ) (t : Bytes) → is_empty (s ++ a ∷ t) ≡ false
    not_empty [] a t = refl
    not_empty (b ∷ s) a t = refl

-- The filters that users write: comparisons of columns with values, lists of values, conditions left to a later value,
-- and their connections.
pub data Filter : Type 0 where
  compares : ColInfo → Value → Bytes → Filter
  is_like : ColInfo → Bytes → Filter
  is_between : ColInfo → Value → Value → Filter
  is_null is_not_null is_param : ColInfo → Filter
  is_one_of is_none_of : ColInfo → List Value → Filter
  or_else and_also : Filter → Filter → Filter

unfoldable pub to_condition : Filter → WhereCondition
to_condition (compares c v op) = build_where c v op
to_condition (is_like c s) = like c s
to_condition (is_between c a b) = between c a b
to_condition (is_null c) = null c
to_condition (is_not_null c) = not_null c
to_condition (is_param c) = param c
to_condition (is_one_of c values) = is_in c values
to_condition (is_none_of c values) = not_in c values
to_condition (or_else f g) = either (to_condition f) (to_condition g)
to_condition (and_also f g) = both (to_condition f) (to_condition g)

-- The names of columns and operators in the filter hold no quote and no bracket.
abbrev pub HasPlainNames : Filter → Type 0
HasPlainNames (compares c v op) = IsPlainName c × All IsHarmless op
HasPlainNames (is_like c s) = IsPlainName c
HasPlainNames (is_between c a b) = IsPlainName c
HasPlainNames (is_null c) = IsPlainName c
HasPlainNames (is_not_null c) = IsPlainName c
HasPlainNames (is_param c) = IsPlainName c
HasPlainNames (is_one_of c values) = IsPlainName c
HasPlainNames (is_none_of c values) = IsPlainName c
HasPlainNames (or_else f g) = HasPlainNames f × HasPlainNames g
HasPlainNames (and_also f g) = HasPlainNames f × HasPlainNames g

connected-Balanced :
    (l r op : Bytes)
    → All IsHarmless op
    → Balanced l
    → Balanced r
    → Balanced (inside (record { left = l; op = op; right = r; need_quote = false }))
connected-Balanced l r op k hl hr =
    parts-Balanced (record { left = l; op = op; right = r; need_quote = false }) hl
      (harmless-Balanced op k) (λ _. hr)

param-Balanced : (c : ColInfo) → IsPlainName c → Balanced (inside (param c))
unfolding param
param-Balanced c h =
    parts-Balanced (param c)
      (append-Balanced c.class_name (codes "." ++ c.name) (harmless-Balanced c.class_name h.1) (
        append-Balanced (codes ".") c.name (harmless-Balanced (codes ".") (omega arith))
          (harmless-Balanced c.name h.0)))
      (harmless-Balanced (codes " = ") (omega arith))
      (λ _. harmless-Balanced (codes "?  ") (omega arith))

module _ (v w : WhereCondition) (l : Balanced (inside v)) (r : Balanced (inside w)) where
  either-inside : Balanced (inside (either v w))
  unfolding either
  either-inside =
      connected-Balanced _ _ (codes " OR ") (omega arith) (to_sql-Balanced v l)
        (to_sql-Balanced w r)

  both-inside : Balanced (inside (both v w))
  unfolding both
  both-inside =
      connected-Balanced _ _ (codes " AND ") (omega arith) (to_sql-Balanced v l)
        (to_sql-Balanced w r)

-- What stands between the brackets of a filter
pub to_condition-inside : (f : Filter) → HasPlainNames f → Balanced (inside (to_condition f))
unfolding to_condition
to_condition-inside (compares c v op) h d rest = build_where-Balanced c v op h.0 h.1 d rest
to_condition-inside (is_like c s) h d rest = like-Balanced c h s d rest
to_condition-inside (is_between c a b) h d rest = between-Balanced c h a b d rest
to_condition-inside (is_null c) h d rest =
    unfold null in
    word_condition c h (codes " IS ") (codes "NULL") (omega arith) (omega arith) d rest
to_condition-inside (is_not_null c) h d rest =
    unfold not_null in
    word_condition c h (codes " IS ") (codes "NOT NULL") (omega arith) (omega arith) d rest
to_condition-inside (is_param c) h d rest = param-Balanced c h d rest
to_condition-inside (is_one_of c values) h d rest = in_impl-Balanced c [] values h tt d rest
to_condition-inside (is_none_of c values) h d rest =
    in_impl-Balanced c (codes "not") values h (omega arith) d rest
to_condition-inside (or_else f g) h d rest =
    let l = to_condition-inside f h.0 in
    let r = to_condition-inside g h.1 in either-inside (to_condition f) (to_condition g) l r d rest
to_condition-inside (and_also f g) h d rest =
    let l = to_condition-inside f h.0 in
    let r = to_condition-inside g h.1 in both-inside (to_condition f) (to_condition g) l r d rest

-- Whatever values a filter compares with, text of any bytes included, the brackets of its SQL match outside literals,
-- and every literal is closed, as a database reads them that follows the SQL standard, where only a doubled quote
-- stands for a quote. The names of columns and operators hold no quote and no bracket.
pub to_condition-Balanced : (f : Filter) → HasPlainNames f → Balanced (to_sql (to_condition f))
to_condition-Balanced f h = to_sql-Balanced (to_condition f) (to_condition-inside f h)
