-- ===== src/Query/Placeholder/OnePass.antt =====
-- The placeholder loop against one pass over the text.
use ormpp.Base.{
  ℕ, zero, suc, ◌+◌, ◌<◌, ◌≤◌, true, [], ◌∷◌, ◌++◌, none, some, if◌then◌else◌, Bytes, take, drop,
  length, length-append, take_append, drop_append, drop-suc_append, append_assoc, ◌≡◌, refl, sym,
  ap, ◌∙◌, arith, Bool-cases, Option-cases, inl, inr,
}
use ormpp.Query.Placeholder.{
  Place, plain, step, is_hit, scan, find_next_postgresql_placeholder, replacement, replace_loop,
  replace_postgresql_placeholders,
}

-- One pass: the n-th question mark at a plain place becomes `$n`, all else stays.
unfoldable pub number : Place → Bytes → ℕ → Bytes
number p [] k = []
number p (c ∷ cs) k =
    let hit = is_hit p c in
    (if hit then replacement k else c ∷ []) ++ number (step p c cs) cs (if hit then k + 1 else k)

-- How many question marks stand at a plain place.
unfoldable pub hits : Place → Bytes → ℕ
hits p [] = 0
hits p (c ∷ cs) = (if is_hit p c then 1 else 0) + hits (step p c cs) cs

pub step_hit : (p : Place) (c : ℕ) (cs : Bytes) → is_hit p c ≡ true → step p c cs ≡ plain
unfolding step
step_hit plain c cs h = ground arith
step_hit _ c cs h = cc

is_hit-char : (p : Place) (c : ℕ) → is_hit p c ≡ true → c ≡ b'?'
is_hit-char plain c h = ground arith
is_hit-char _ c h = cc

pos_of_some : {i pos : ℕ} → some i ≡ some pos → pos ≡ i + 0
pos_of_some h = ground arith

-- What a scan that stops at a placeholder says of the text.
record Found (p : Place) (s : Bytes) (i pos : ℕ) : Type 0 where
  before : Bytes
  after : Bytes
  splits : s ≡ before ++ b'?' ∷ after
  pos_is : pos ≡ i + length before
  numbers : (k : ℕ) → number p s k ≡ before ++ (replacement k ++ number plain after (k + 1))
  counts : hits p s ≡ suc (hits plain after)

scan-Found : (p : Place) (s : Bytes) (i pos : ℕ) → scan p s i ≡ some pos → Found p s i pos
unfolding scan number hits
scan-Found p [] i pos h = cc
scan-Found p (c ∷ cs) i pos h = elim (Bool-cases (is_hit p c)) [
  | inl e ↦ record {
    before = [];
    after = cs;
    splits = ap (λ (x : ℕ). x ∷ cs) (is_hit-char p c e);
    pos_is = pos_of_some (rw e at h);
    numbers = λ k. rw (e, step_hit p c cs e);
    counts = rw (e, step_hit p c cs e) (omega arith);
  }
  | inr e ↦
      let r = scan-Found (step p c cs) cs (i + 1) pos (rw e at h) in
      record {
        before = c ∷ r.before;
        after = r.after;
        splits = ap (◌∷◌ c) r.splits;
        pos_is = omega (arith, r.pos_is);
        numbers = λ k. rw e (ap (◌∷◌ c) (r.numbers k));
        counts = rw e (omega (arith, r.counts));
      }
]

scan-none :
    (p : Place) (s : Bytes) (i k : ℕ) → scan p s i ≡ none → (number p s k ≡ s) × (hits p s ≡ 0)
unfolding scan number hits
scan-none p [] i k h = (refl, refl)
scan-none p (c ∷ cs) i k h = elim (Bool-cases (is_hit p c)) [
  | inl e ↦ cc (rw e at h)
  | inr e ↦
      let r = scan-none (step p c cs) cs (i + 1) k (rw e at h) in
      (rw e (ap (◌∷◌ c) r.0), rw e (omega (arith, r.1)))
]

module _ (fuel : ℕ) (sql : Bytes) (search_pos index : ℕ) where
  loop_stop :
      find_next_postgresql_placeholder sql search_pos ≡ none
      → replace_loop (suc fuel) sql search_pos index ≡ some sql
  unfolding replace_loop
  loop_stop e = rw (e, replace_loop)

  loop_round :
      (pos : ℕ)
      → find_next_postgresql_placeholder sql search_pos ≡ some pos
      → replace_loop (suc fuel) sql search_pos index
        ≡ replace_loop fuel
            (take pos sql ++ (replacement index ++ drop (pos + 1) sql))
            (pos + length (replacement index))
            (index + 1)
  unfolding replace_loop
  loop_round pos e = rw (e, replace_loop)

-- The text of a round, cut at the placeholder.
module _ (head before after : Bytes) (pos k : ℕ) (pos_is : pos ≡ length head + length before) where
  round_text :
      let sql : Bytes = head ++ (before ++ b'?' ∷ after) in
      take pos sql ++ (replacement k ++ drop (pos + 1) sql)
      ≡ ((head ++ before) ++ replacement k) ++ after
  round_text =
      let at : pos ≡ length (head ++ before) = omega (arith, length-append head before, pos_is) in
      let past : pos + 1 ≡ suc (length (head ++ before)) = omega arith in
      rw
        (
          past,
          at,
          ← append_assoc head before,
          take_append (head ++ before),
          drop-suc_append (head ++ before),
        )
        (sym (append_assoc (head ++ before) (replacement k) after))

  round_pos : pos + length (replacement k) ≡ length ((head ++ before) ++ replacement k)
  round_pos =
      omega
        (arith, pos_is, length-append head before, length-append (head ++ before) (replacement k))

find_in :
    (head s : Bytes)
    → find_next_postgresql_placeholder (head ++ s) (length head) ≡ scan plain s (length head)
unfolding find_next_postgresql_placeholder
find_in head s = rw (drop_append head s)

loop_number :
    (fuel : ℕ) (head s : Bytes) (k : ℕ)
    → hits plain s < fuel
    → replace_loop fuel (head ++ s) (length head) k ≡ some (head ++ number plain s k)
loop_number zero head s k h = elim h [ ]
loop_number (suc fuel) head s k h = elim (Option-cases (scan plain s (length head))) [
  | inl e ↦
      loop_stop fuel _ _ k (find_in head s ∙ e)
      ∙ ap (λ (t : Bytes). some (head ++ t)) (sym (scan-none plain s (length head) k e).0)
  | inr (pos, e) ↦
      let r = scan-Found plain s (length head) pos e in
      let head' : Bytes = (head ++ r.before) ++ replacement k in
      loop_round fuel _ _ k pos (find_in head s ∙ e)
      ∙ rw r.splits (
          rw
            (
              round_text head r.before r.after pos k r.pos_is,
              round_pos head r.before r.after pos k r.pos_is,
            )
            (loop_number fuel head' r.after (k + 1) (omega (arith, r.counts)) ∙ ap some (joined r)))
]
  where
    joined :
        {pos : ℕ} (r : Found plain s (length head) pos)
        → ((head ++ r.before) ++ replacement k) ++ number plain r.after (k + 1)
          ≡ head ++ number plain (r.before ++ b'?' ∷ r.after) k
    joined r =
        rw (append_assoc (head ++ r.before), append_assoc head)
          (ap (◌++◌ head) (sym (r.numbers k) ∙ ap (λ (t : Bytes). number plain t k) r.splits))

hits-le-length : (p : Place) (s : Bytes) → hits p s ≤ length s
unfolding hits
hits-le-length p [] = omega arith
hits-le-length p (c ∷ cs) = ground (arith, hits-le-length (step p c cs) cs)

-- The loop ends on every text, within one round more than the text has bytes, and gives what one
-- pass gives: the n-th question mark outside quotes and comments becomes `$n`, all else stays.
pub replace_postgresql_placeholders-number :
    (sql : Bytes) → replace_postgresql_placeholders sql ≡ some (number plain sql 1)
unfolding replace_postgresql_placeholders
replace_postgresql_placeholders-number sql =
    loop_number (length sql + 1) [] sql 1 (omega (arith, hits-le-length plain sql))
