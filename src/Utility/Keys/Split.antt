-- ===== src/Utility/Keys/Split.antt =====
-- What `split` makes of the key lists that `REGISTER_CONFLICT_KEY` spells out.
use ormpp.Base.{
  ℕ, zero, suc, ◌+◌, ◌-◌, true, false, List, [], ◌∷◌, ◌++◌, ◌==◌, Bytes, All, length, length-append,
  drop_append, append_assoc, replicate, ◌≡◌, ◌≢◌, refl, sym, ap, ◌∙◌, arith, append-nil,
}
use ormpp.Utility.Keys.{is_word, last_bytes, split_loop, split}

abbrev pub IsWord : ℕ → Type 0
IsWord c = is_word c ≡ true

abbrev pub spaces : ℕ → Bytes
spaces n = replicate n b' '

-- The names with a comma and `n` spaces between them.
abbrev pub listing : ℕ → Bytes → List Bytes → Bytes
listing n name [] = name
listing n name (next ∷ names) = name ++ (b',' ∷ (spaces n ++ listing n next names))

word_byte :
    (c start : ℕ) (seen rest : Bytes)
    → IsWord c
    → split_loop seen start (c ∷ rest) ≡ split_loop (seen ++ c ∷ []) (start + 1) rest
unfolding split_loop is_word
word_byte c start seen rest h = ground arith

split_loop-word :
    (w seen rest : Bytes) (start : ℕ)
    → All IsWord w
    → split_loop seen start (w ++ rest) ≡ split_loop (seen ++ w) (start + length w) rest
split_loop-word [] seen rest start h = let e : start + 0 ≡ start = omega arith in rw (append-nil, e)
split_loop-word (c ∷ w) seen rest start h =
    let e : start + 1 + length w ≡ start + suc (length w) = omega arith in
    word_byte c start seen (w ++ rest) h.0
    ∙ split_loop-word w (seen ++ c ∷ []) rest (start + 1) h.1
    ∙ rw (e, append_assoc seen (c ∷ []) w)

split_loop-spaces :
    (n : ℕ) (seen rest : Bytes)
    → split_loop seen 0 (spaces n ++ rest) ≡ split_loop (seen ++ spaces n) 0 rest
unfolding split_loop is_word
split_loop-spaces zero seen rest = rw append-nil
split_loop-spaces (suc n) seen rest =
    split_loop-spaces n (seen ++ b' ' ∷ []) rest ∙ rw (append_assoc seen (b' ' ∷ []) (spaces n))

last_bytes-append : (seen w : Bytes) → last_bytes (length w) (seen ++ w) ≡ w
last_bytes-append seen w =
    let e : length (seen ++ w) - length w ≡ length seen = omega (arith, length-append seen w) in
    rw e (drop_append seen w)

comma :
    (start : ℕ) (seen rest : Bytes)
    → split_loop seen start (b',' ∷ rest)
      ≡ last_bytes start seen ∷ split_loop (seen ++ b',' ∷ []) 0 rest
unfolding split_loop is_word
comma start seen rest = refl

ending : (w seen : Bytes) → w ≢ [] → split_loop (seen ++ w) (length w) [] ≡ w ∷ []
unfolding split_loop
ending [] seen h = absurd (h refl)
ending (c ∷ w) seen h =
    let e : (suc (length w) == 0) ≡ false = ground arith in
    rw e (ap (λ (t : Bytes). t ∷ []) (last_bytes-append seen (c ∷ w)))

abbrev pub IsName : Bytes → Type 0
IsName w = All IsWord w × (w ≢ [])

name_comma :
    (w seen rest : Bytes)
    → All IsWord w
    → split_loop seen 0 (w ++ b',' ∷ rest) ≡ w ∷ split_loop ((seen ++ w) ++ b',' ∷ []) 0 rest
name_comma w seen rest h =
    let e : 0 + length w ≡ length w = omega arith in
    split_loop-word w seen (b',' ∷ rest) 0 h
    ∙ ap (λ (k : ℕ). split_loop (seen ++ w) k (b',' ∷ rest)) e
    ∙ comma (length w) (seen ++ w) rest
    ∙ ap (λ (t : Bytes). t ∷ split_loop ((seen ++ w) ++ b',' ∷ []) 0 rest)
        (last_bytes-append seen w)

split_loop-listing :
    (n : ℕ) (name : Bytes) (names : List Bytes) (seen : Bytes)
    → IsName name
    → All IsName names
    → split_loop seen 0 (listing n name names) ≡ name ∷ names
split_loop-listing n name [] seen h hs =
    ap (split_loop seen 0) (sym (append-nil name))
    ∙ split_loop-word name seen [] 0 h.0
    ∙ ap (λ (k : ℕ). split_loop (seen ++ name) k []) (omega arith)
    ∙ ending name seen h.1
split_loop-listing n name (next ∷ names) seen h hs =
    name_comma name seen (spaces n ++ listing n next names) h.0
    ∙ ap (◌∷◌ name) (
        split_loop-spaces n ((seen ++ name) ++ b',' ∷ []) (listing n next names)
        ∙ split_loop-listing n next names _ hs.0 hs.1)

-- A list of names made of letters, digits and underscores, with a comma and any number of spaces
-- between two of them, is split into these names.
split-listing :
    (n : ℕ) (name : Bytes) (names : List Bytes)
    → IsName name
    → All IsName names
    → split (listing n name names) ≡ name ∷ names
unfolding split
split-listing n [] names h hs = absurd (h.1 refl)
split-listing n (c ∷ name) [] h hs = split_loop-listing n (c ∷ name) [] [] h hs
split-listing n (c ∷ name) (next ∷ names) h hs =
    split_loop-listing n (c ∷ name) (next ∷ names) [] h hs

space :
    (start : ℕ) (seen rest : Bytes)
    → split_loop seen start (b' ' ∷ rest) ≡ split_loop (seen ++ b' ' ∷ []) start rest
unfolding split_loop is_word
space start seen rest = refl

last_bytes_shifted :
    (c : ℕ) (w : Bytes) → last_bytes (0 + suc (length w)) ((c ∷ w) ++ b' ' ∷ []) ≡ w ++ b' ' ∷ []
last_bytes_shifted c w =
    let e : length ((c ∷ w) ++ b' ' ∷ []) - (0 + suc (length w)) ≡ 1 =
      omega (arith, length-append w (b' ' ∷ [])) in
    rw e

-- A space in front of the comma shifts the cut: the name comes back without its first letter, and
-- with the space at its end.
split_space_before_comma :
    (c : ℕ) (w rest : Bytes)
    → All IsWord (c ∷ w)
    → (names : List Bytes) × (split ((c ∷ w) ++ (b' ' ∷ b',' ∷ rest)) ≡ (w ++ b' ' ∷ []) ∷ names)
unfolding split
split_space_before_comma c w rest h =
    let seen : Bytes = (c ∷ w) ++ b' ' ∷ [] in
    (
      split_loop (seen ++ b',' ∷ []) 0 rest,
      split_loop-word (c ∷ w) [] (b' ' ∷ b',' ∷ rest) 0 h
          ∙ space (0 + suc (length w)) (c ∷ w) (b',' ∷ rest)
          ∙ comma (0 + suc (length w)) seen rest
          ∙ ap (λ (t : Bytes). t ∷ split_loop (seen ++ b',' ∷ []) 0 rest) (last_bytes_shifted c w),
    )
