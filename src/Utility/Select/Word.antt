-- ===== src/Utility/Select/Word.antt =====
-- `contains_select` against a description by the first word of the text.
use ormpp.Base.{
  ℕ, Bool, true, false, [], ◌∷◌, ◌++◌, ◌==◌, if◌then◌else◌, Bytes, codes, is_empty, map, All, ◌≡◌,
  ◌≢◌, ◌↔◌, ◌⊎◌, inl, inr, refl, sym, ap, ◌∙◌, Bool-cases, ==_iff, arith,
}
use ormpp.Utility.Select.{isspace, tolower, skip_space, at_break, matches, contains_select}

-- The text up to the first white space, in lower case
unfoldable pub first_word : Bytes → Bytes
first_word [] = []
first_word (c ∷ cs) = let rest = first_word cs in if isspace c then [] else tolower c ∷ rest

-- The text is a beginning of the keyword, in either case, that stops short of its end.
pub ProperPrefix : Bytes → Bytes → Type 0
ProperPrefix text word = (rest : Bytes) × (rest ≢ []) × (map tolower text ++ rest ≡ word)

abbrev Spec : Bytes → Bytes → Type 0
Spec word text = (first_word text ≡ word) ⊎ ProperPrefix text word

space_tolower : (c : ℕ) → isspace (tolower c) ≡ isspace c
space_tolower c = ground arith

abbrev NoSpace : ℕ → Type 0
NoSpace k = isspace k ≡ false

word_plain :
    (c : ℕ) (cs : Bytes) → isspace c ≡ false → first_word (c ∷ cs) ≡ tolower c ∷ first_word cs
unfolding first_word
word_plain c cs e = rw e refl

word_space : (c : ℕ) (cs : Bytes) → isspace c ≡ true → first_word (c ∷ cs) ≡ []
unfolding first_word
word_space c cs e = rw e refl

end_found : (text : Bytes) → at_break text ≡ true → Spec [] text
unfolding first_word
end_found [] h = inl refl
end_found (c ∷ cs) h = inl (word_space c cs h)

found_end : (text : Bytes) → Spec [] text → at_break text ≡ true
unfolding ProperPrefix
found_end [] h = refl
found_end (c ∷ cs) (inl h) = elim (Bool-cases (isspace c)) [
  | inl e ↦ e
  | inr e ↦ absurd (let e = sym (word_plain c cs e) ∙ h in cc e)
]
found_end (c ∷ cs) (inr (rest, h, e)) = absurd (cc e)

-- The byte of the keyword is read: it is no white space.
same_byte : (c k : ℕ) → tolower c ≡ k → NoSpace k → NoSpace c
same_byte c k e h = sym (space_tolower c) ∙ ap isspace e ∙ h

go_on :
    (k : ℕ) (ks : Bytes) (c : ℕ) (cs : Bytes)
    → tolower c ≡ k
    → NoSpace k
    → Spec ks cs
    → Spec (k ∷ ks) (c ∷ cs)
unfolding ProperPrefix
go_on k ks c cs e h (inl f) =
    inl (word_plain c cs (same_byte c k e h) ∙ ap (◌∷◌ (tolower c)) f ∙ ap (λ b. b ∷ ks) e)
go_on k ks c cs e h (inr (rest, f, g)) = inr (rest, f, ap (◌∷◌ (tolower c)) g ∙ ap (λ b. b ∷ ks) e)

go_back :
    (k : ℕ) (ks : Bytes) (c : ℕ) (cs : Bytes)
    → NoSpace k
    → Spec (k ∷ ks) (c ∷ cs)
    → (tolower c ≡ k) × Spec ks cs
unfolding ProperPrefix
go_back k ks c cs h (inl f) = elim (Bool-cases (isspace c)) [
  | inl e ↦ absurd (let e = sym (word_space c cs e) ∙ f in cc e)
  | inr e ↦
      let g : tolower c ∷ first_word cs ≡ k ∷ ks = sym (word_plain c cs e) ∙ f in (cc g, inl (cc g))
]
go_back k ks c cs h (inr (rest, f, g)) = (cc g, inr (rest, f, cc g))

both_true : (b rest : Bool) → (if b then rest else false) ≡ true → (b ≡ true) × (rest ≡ true)
both_true true rest e = (refl, e)
both_true false rest e = absurd (cc e)

matches_found : (word text : Bytes) → All NoSpace word → matches word text ≡ true → Spec word text
unfolding matches ProperPrefix
matches_found [] text h e = end_found text e
matches_found (k ∷ ks) [] h e = inr (k ∷ ks, (λ f. cc f), refl)
matches_found (k ∷ ks) (c ∷ cs) h e =
    let (same, later) = both_true (tolower c == k) (matches ks cs) e in
    go_on k ks c cs ((==_iff (tolower c) k).0 same) h.0 (matches_found ks cs h.1 later)

found_matches : (word text : Bytes) → All NoSpace word → Spec word text → matches word text ≡ true
unfolding matches
found_matches [] text h f = found_end text f
found_matches (k ∷ ks) [] h f = refl
found_matches (k ∷ ks) (c ∷ cs) h f =
    let (same, later) = go_back k ks c cs h.0 f in
    rw ((==_iff (tolower c) k).1 same) (found_matches ks cs h.1 later)

select_NoSpace : All NoSpace (codes "select")
select_NoSpace = (refl, (refl, (refl, (refl, (refl, (refl, tt))))))

-- A text is taken for a query exactly when what stands behind its leading white space is not empty and has
-- `select`, in either case, as its first word, or is itself only a beginning of that word: `s` and `SELE` are
-- taken for queries too.
pub contains_select-first_word :
    (sql : Bytes)
    → (contains_select sql ≡ true) ↔ (
        (skip_space sql ≢ [])
        × ((first_word (skip_space sql) ≡ codes "select")
            ⊎ ProperPrefix (skip_space sql) (codes "select")))
unfolding contains_select
contains_select-first_word sql = chosen (skip_space sql)
  where
    chosen :
        (text : Bytes)
        → ((if is_empty text then false else matches (codes "select") text) ≡ true)
          ↔ ((text ≢ []) × Spec (codes "select") text)
    chosen [] = ((λ e. absurd (cc e)), (λ h. absurd (h.0 refl)))
    chosen (c ∷ cs) = (
      (λ e. ((λ f. cc f), matches_found (codes "select") (c ∷ cs) select_NoSpace e)),
      (λ h. found_matches (codes "select") (c ∷ cs) select_NoSpace h.1),
    )
