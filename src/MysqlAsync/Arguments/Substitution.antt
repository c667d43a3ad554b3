-- ===== src/MysqlAsync/Arguments/Substitution.antt =====
-- The search and replacement of one placeholder after another, against one pass over the statement.
use ormpp.Base.{
  ℕ, suc, ◌+◌, Bool, true, List, [], ◌∷◌, ◌++◌, map, Option, none, some, if◌then◌else◌, Bytes, take,
  drop, length, length-append, take_append, drop_append, drop-suc_append, append_assoc, append-nil,
  ◌≡◌, refl, sym, ap, ◌∙◌, arith, Bool-cases, Option-cases, inl, inr,
}
use ormpp.MysqlAsync.Arguments.{
  Place, plain, Argument, step, is_hit, scan, find_next_placeholder, replace_next_placeholder,
  no_more, replace_all, to_query_arg_impl, format_query_args,
}

abbrev pub before_all : Bytes → Option Bytes → Option Bytes
before_all head none = none
before_all head (some behind) = some (head ++ behind)

-- The value of a placeholder, and what stands behind it with the other values
abbrev pub next_value : List Bytes → (List Bytes → Option Bytes) → Option Bytes
next_value [] behind = none
next_value (value ∷ values) behind = before_all value (behind values)

abbrev pub all_used : List Bytes → Option Bytes
all_used [] = some []
all_used (value ∷ values) = none

-- One pass: each question mark outside quotes, backticks and comments is the next of the values, all else
-- stays. `none` is that values are missing or left.
unfoldable pub fill : Bool → Place → Bytes → List Bytes → Option Bytes
fill nbe p [] values = all_used values
fill nbe p (c ∷ cs) values =
    if is_hit p c
    then next_value values (fill nbe (step nbe p c cs) cs)
    else before_all (c ∷ []) (fill nbe (step nbe p c cs) cs values)

step_hit :
    (nbe : Bool) (p : Place) (c : ℕ) (cs : Bytes) → is_hit p c ≡ true → step nbe p c cs ≡ plain
unfolding step
step_hit nbe plain c cs h = ground arith
step_hit nbe _ c cs h = cc

is_hit-char : (p : Place) (c : ℕ) → is_hit p c ≡ true → c ≡ b'?'
is_hit-char plain c h = ground arith
is_hit-char _ c h = cc

before_all_twice :
    (s t : Bytes) (o : Option Bytes) → before_all s (before_all t o) ≡ before_all (s ++ t) o
before_all_twice s t none = refl
before_all_twice s t (some behind) = ap some (sym (append_assoc s t behind))

pos_of_some : {i pos : ℕ} → some i ≡ some pos → pos ≡ i + 0
pos_of_some h = ground arith

-- What a scan that stops at a placeholder says of the text.
record Found (nbe : Bool) (p : Place) (s : Bytes) (i pos : ℕ) : Type 0 where
  before : Bytes
  after : Bytes
  splits : s ≡ before ++ b'?' ∷ after
  pos_is : pos ≡ i + length before
  fills :
      (values : List Bytes)
      → fill nbe p s values ≡ before_all before (next_value values (fill nbe plain after))

front :
    (c : ℕ) (o : Option Bytes) (before : Bytes) (rest : Option Bytes)
    → o ≡ before_all before rest
    → before_all (c ∷ []) o ≡ before_all (c ∷ before) rest
front c o before rest e = ap (before_all (c ∷ [])) e ∙ before_all_twice (c ∷ []) before rest

pub before_all_nil : (o : Option Bytes) → o ≡ before_all [] o
before_all_nil none = refl
before_all_nil (some s) = refl

scan-Found :
    (nbe : Bool) (p : Place) (s : Bytes) (i pos : ℕ)
    → scan nbe p s i ≡ some pos
    → Found nbe p s i pos
unfolding scan fill
scan-Found nbe p [] i pos h = cc
scan-Found nbe p (c ∷ cs) i pos h = elim (Bool-cases (is_hit p c)) [
  | inl e ↦ record {
    before = [];
    after = cs;
    splits = ap (λ (x : ℕ). x ∷ cs) (is_hit-char p c e);
    pos_is = pos_of_some (rw e at h);
    fills = λ values.
        rw (e, step_hit nbe p c cs e) (before_all_nil (next_value values (fill nbe plain cs)));
  }
  | inr e ↦
      let r = scan-Found nbe (step nbe p c cs) cs (i + 1) pos (rw e at h) in
      record {
        before = c ∷ r.before;
        after = r.after;
        splits = ap (◌∷◌ c) r.splits;
        pos_is = omega (arith, r.pos_is);
        fills = λ values. rw e (
            front c (fill nbe (step nbe p c cs) cs values) r.before
              (next_value values (fill nbe plain r.after)) (r.fills values));
      }
]

scan-none :
    (nbe : Bool) (p : Place) (s : Bytes) (i : ℕ) (values : List Bytes)
    → scan nbe p s i ≡ none
    → fill nbe p s values ≡ before_all s (all_used values)
unfolding scan fill
scan-none nbe p [] i values h = before_all_nil (all_used values)
scan-none nbe p (c ∷ cs) i values h = elim (Bool-cases (is_hit p c)) [
  | inl e ↦ cc (h, e)
  | inr e ↦ rw e (
      front c (fill nbe (step nbe p c cs) cs values) cs (all_used values)
        (scan-none nbe (step nbe p c cs) cs (i + 1) values (rw e at h)))
]

find_in :
    (nbe : Bool) (head s : Bytes)
    → find_next_placeholder (head ++ s) (length head) nbe ≡ scan nbe plain s (length head)
unfolding find_next_placeholder
find_in nbe head s = rw (drop_append head s)

-- The text of a round, cut at the placeholder
module _ (head before after value : Bytes) (pos : ℕ)
    (pos_is : pos ≡ length head + length before) where
  round_text :
      let sql : Bytes = head ++ (before ++ b'?' ∷ after) in
      take pos sql ++ (value ++ drop (pos + 1) sql) ≡ ((head ++ before) ++ value) ++ after
  round_text =
      let at : pos ≡ length (head ++ before) = omega (arith, length-append head before, pos_is) in
      let past : pos + 1 ≡ suc (length (head ++ before)) = omega arith in
      rw
        (
          past,
          at,
          ← append_assoc head before,
          take_append (head ++ before),
          drop-suc_append (head ++ before),
        )
        (sym (append_assoc (head ++ before) value after))

  round_pos : pos + length value ≡ length ((head ++ before) ++ value)
  round_pos = omega (arith, pos_is, length-append head before, length-append (head ++ before) value)

module _ (nbe : Bool) (sql : Bytes) (search_pos : ℕ) where
  no_values :
      {o : Option ℕ}
      → find_next_placeholder sql search_pos nbe ≡ o
      → replace_all sql search_pos [] nbe ≡ no_more sql o
  unfolding replace_all
  no_values e = rw e

  no_place :
      (value : Bytes) (values : List Bytes)
      → find_next_placeholder sql search_pos nbe ≡ none
      → replace_all sql search_pos (value ∷ values) nbe ≡ none
  unfolding replace_all replace_next_placeholder
  no_place value values e = rw (replace_all, e) refl

  one_value :
      (value : Bytes) (values : List Bytes) (pos : ℕ)
      → find_next_placeholder sql search_pos nbe ≡ some pos
      → replace_all sql search_pos (value ∷ values) nbe
        ≡ replace_all
            (take pos sql ++ (value ++ drop (pos + 1) sql))
            (pos + length value)
            values
            nbe
  unfolding replace_all replace_next_placeholder
  one_value value values pos e = rw (replace_all, e) refl

pub replace_all-fill :
    (nbe : Bool) (values : List Bytes) (head s : Bytes)
    → replace_all (head ++ s) (length head) values nbe ≡ before_all head (fill nbe plain s values)
replace_all-fill nbe [] head s = elim (Option-cases (scan nbe plain s (length head))) [
  | inl e ↦
      no_values nbe _ _ (find_in nbe head s ∙ e)
      ∙ rw (scan-none nbe plain s (length head) [] e, append-nil s) refl
  | inr (pos, e) ↦
      no_values nbe _ _ (find_in nbe head s ∙ e)
      ∙ rw ((scan-Found nbe plain s (length head) pos e).fills []) refl
]
replace_all-fill nbe (value ∷ values) head s =
    elim (Option-cases (scan nbe plain s (length head))) [
      | inl e ↦
          no_place nbe _ _ value values (find_in nbe head s ∙ e)
          ∙ rw (scan-none nbe plain s (length head) (value ∷ values) e) refl
      | inr (pos, e) ↦
          let r = scan-Found nbe plain s (length head) pos e in
          let behind : Option Bytes = fill nbe plain r.after values in
          one_value nbe _ _ value values pos (find_in nbe head s ∙ e)
          ∙ rw r.splits (
              rw
                (
                  round_text head r.before r.after value pos r.pos_is,
                  round_pos head r.before r.after value pos r.pos_is,
                )
                (replace_all-fill nbe values ((head ++ r.before) ++ value) r.after))
          ∙ sym (before_all_twice (head ++ r.before) value behind)
          ∙ sym (before_all_twice head r.before (before_all value behind))
          ∙ ap (before_all head) (sym (r.fills (value ∷ values)))
    ]

-- Formatting a statement is one pass over it: the n-th question mark outside quotes, backticks and comments is
-- replaced by the text of the n-th argument and no other byte is touched, so that no question mark or quote in
-- an argument is taken for the statement's; and it throws exactly where the numbers of placeholders and arguments differ.
pub format_query_args-fill :
    (sql : Bytes) (no_backslash_escapes : Bool) (args : List Argument)
    → format_query_args sql no_backslash_escapes args
      ≡ fill no_backslash_escapes plain sql
          (map (λ arg. to_query_arg_impl arg no_backslash_escapes) args)
unfolding format_query_args
format_query_args-fill sql nbe args =
    let values : List Bytes = map (λ arg. to_query_arg_impl arg nbe) args in
    replace_all-fill nbe values [] sql ∙ sym (before_all_nil (fill nbe plain sql values))
