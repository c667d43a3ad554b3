-- ===== src/Query/Placeholder/Kept.antt =====
-- What the placeholder loop leaves as it is, and what it leaves nothing of.
use ormpp.Base.{
  ℕ, ◌+◌, false, [], ◌∷◌, ◌++◌, none, some, ◌==◌, Bytes, All, IsDigit, starts, to_string,
  to_string-IsDigit, starts, append_assoc, ◌≡◌, refl, ap, ◌∙◌, ◌≢◌, arith, Bool-cases, inl, inr,
}
use ormpp.Utility.Escape.{escape_sql_string, to_str, text}
use ormpp.Query.Placeholder.{
  Place, plain, quoted, quoted_second, block, single, double, step, is_hit, scan,
  find_next_postgresql_placeholder, replace_postgresql_placeholders,
}
use ormpp.Query.Placeholder.OnePass.{number, hits, step_hit, replace_postgresql_placeholders-number}

close_quote : (rest : Bytes) → starts b'\'' rest ≡ false → step (quoted single) b'\'' rest ≡ plain
unfolding step
close_quote rest h = rw h

in_quote :
    (c : ℕ) (rest : Bytes) → (c == b'\'') ≡ false → step (quoted single) c rest ≡ quoted single
unfolding step
in_quote c rest h = rw h

doubled_quote : (rest : Bytes) → step (quoted single) b'\'' (b'\'' ∷ rest) ≡ quoted_second single
unfolding step
doubled_quote rest = refl

second_quote : (rest : Bytes) → step (quoted_second single) b'\'' rest ≡ quoted single
unfolding step
second_quote rest = refl

open_quote : (rest : Bytes) → step plain b'\'' rest ≡ quoted single
unfolding step
open_quote rest = refl

number_literal :
    (s rest : Bytes) (k : ℕ)
    → starts b'\'' rest ≡ false
    → number (quoted single) (escape_sql_string s ++ b'\'' ∷ rest) k
      ≡ escape_sql_string s ++ b'\'' ∷ number plain rest k
unfolding escape_sql_string number
number_literal [] rest k h = rw (close_quote rest h)
number_literal (c ∷ s) rest k h =
    let ih = number_literal s rest k h in
    elim (Bool-cases (c == b'\'')) [
      | inl e ↦ rw e (
          rw (doubled_quote (escape_sql_string s ++ b'\'' ∷ rest)) (
            rw (second_quote (escape_sql_string s ++ b'\'' ∷ rest))
              (ap (λ (t : Bytes). b'\'' ∷ b'\'' ∷ t) ih)))
      | inr e ↦ rw e (rw (in_quote c _ e) (ap (◌∷◌ c) ih))
    ]

-- An escaped text value in quotes goes to the server as it is, with whatever question marks it
-- holds, if no quote follows it; the placeholders behind it are numbered from 1.
replace_postgresql_placeholders-to_str :
    (s rest : Bytes)
    → starts b'\'' rest ≡ false
    → replace_postgresql_placeholders (to_str (text s) ++ rest)
      ≡ some (to_str (text s) ++ number plain rest 1)
unfolding to_str
replace_postgresql_placeholders-to_str s rest h =
    replace_postgresql_placeholders-number _ ∙ ap some number_to_str
  where
    number_to_str :
        number plain (to_str (text s) ++ rest) 1 ≡ to_str (text s) ++ number plain rest 1
    number_to_str =
        rw (append_assoc (escape_sql_string s), append_assoc (escape_sql_string s))
          (unfold number in
            rw (open_quote (escape_sql_string s ++ b'\'' ∷ rest))
              (ap (◌∷◌ b'\'') (number_literal s rest 1 h)))

-- A step looks at the text behind it only for these bytes.
abbrev Opener : ℕ → Type 0
Opener x = (x ≢ b'?') × (x ≢ b'$')

starts-number :
    (x : ℕ) (p : Place) (s : Bytes) (k : ℕ) → Opener x → starts x (number p s k) ≡ starts x s
unfolding number
starts-number x p [] k o = refl
starts-number x plain (c ∷ s) k o = ground arith
starts-number x _ (c ∷ s) k o = refl

step_alike :
    (p : Place) (c : ℕ) (s t : Bytes)
    → ((x : ℕ) → Opener x → starts x s ≡ starts x t)
    → step p c s ≡ step p c t
unfolding step
step_alike plain c s t h = ground (arith, h b'-' (omega arith), h b'*' (omega arith))
step_alike (quoted single) c s t h = ground (arith, h b'\'' (omega arith))
step_alike (quoted double) c s t h = ground (arith, h b'"' (omega arith))
step_alike block c s t h = ground (arith, h b'/' (omega arith))
step_alike _ c s t h = refl

hits_byte :
    (p : Place) (c : ℕ) (s : Bytes) (k : ℕ)
    → is_hit p c ≡ false
    → hits (step p c s) (number (step p c s) s k) ≡ 0
    → hits p (c ∷ number (step p c s) s k) ≡ 0
unfolding hits
hits_byte p c s k e ih =
    rw (e, step_alike p c (number (step p c s) s k) s (λ x o. starts-number x (step p c s) s k o))
      (omega (arith, ih))

hits_dollar : (s : Bytes) → hits plain (b'$' ∷ s) ≡ hits plain s
unfolding hits step
hits_dollar s = omega arith

hits_digits : (ds rest : Bytes) → All IsDigit ds → hits plain (ds ++ rest) ≡ hits plain rest
unfolding hits step
hits_digits [] rest h = refl
hits_digits (d ∷ ds) rest h = ground (arith, hits_digits ds rest h.1)

hits-number : (p : Place) (s : Bytes) (k : ℕ) → hits p (number p s k) ≡ 0
unfolding number
hits-number p [] k = unfold hits in refl
hits-number plain (c ∷ s) k = elim (Bool-cases (is_hit plain c)) [
  | inl e ↦ rw e (
      hits_dollar (to_string k ++ number (step plain c s) s (k + 1))
      ∙ hits_digits (to_string k) _ (to_string-IsDigit k)
      ∙ rw (step_hit plain c s e) (hits-number plain s (k + 1)))
  | inr e ↦ rw e (hits_byte plain c s k e (hits-number (step plain c s) s k))
]
hits-number p (c ∷ s) k = hits_byte p c s k refl (hits-number (step p c s) s k)

scan_no_hits : (p : Place) (s : Bytes) (i : ℕ) → hits p s ≡ 0 → scan p s i ≡ none
unfolding scan hits
scan_no_hits p [] i h = refl
scan_no_hits p (c ∷ s) i h = ground (arith, scan_no_hits (step p c s) s (i + 1))

-- No placeholder is left in what the loop returns: a second search of it finds none.
replace_postgresql_placeholders-find_next :
    (sql : Bytes) {out : Bytes}
    → replace_postgresql_placeholders sql ≡ some out
    → find_next_postgresql_placeholder out 0 ≡ none
unfolding find_next_postgresql_placeholder
replace_postgresql_placeholders-find_next sql {out} h =
    let same : number plain sql 1 ≡ out = cc (h, replace_postgresql_placeholders-number sql) in
    rw (← same) (scan_no_hits plain (number plain sql 1) 0 (hits-number plain sql 1))
