-- ===== src/Base/Text.antt =====
-- Text as the bytes of a `std::string`, and the operations of `std::string` that the code calls.
use Prim.Native.Nat.{ℕ, zero, suc, ◌+◌, ◌/◌, ◌%◌, ◌≤◌}
use Prim.Native.Char.{code}
use Prim.Native.String.{String}
use mathlib.Core.Path.{◌≡◌, refl, ap}
use mathlib.Core.Bool.{Bool, true, false, ◌&&◌}
use mathlib.Core.Logic.{◌↔◌, ◌≢◌, inl, inr}
use mathlib.Core.List.{List, [], ◌∷◌, ◌++◌}
use native.Mathlib.Omega.{arith}
use ormpp.Base.Tests.{◌==◌, ltb, if◌then◌else◌, Bool-cases}
use ormpp.Base.Lists.{All, All-append}

abbrev pub Bytes : Type 0
Bytes = List ℕ

-- The bytes of an ASCII literal.
abbrev pub codes : String → Bytes
codes String.[] = []
codes (String.◌∷◌ c s) = code c ∷ codes s

abbrev pub is_empty : Bytes → Bool
is_empty [] = true
is_empty (c ∷ cs) = false

-- The text goes on with this byte.
abbrev pub starts : ℕ → Bytes → Bool
starts q [] = false
starts q (c ∷ cs) = c == q

-- `operator==` of strings
unfoldable pub equal : Bytes → Bytes → Bool
equal [] t = is_empty t
equal (c ∷ s) [] = false
equal (c ∷ s) (d ∷ t) = c == d && equal s t

pub equal_iff : (s t : Bytes) → (equal s t ≡ true) ↔ (s ≡ t)
unfolding equal
equal_iff [] [] = ((λ h. refl), (λ h. refl))
equal_iff [] (d ∷ t) = ground arith
equal_iff (c ∷ s) [] = ground arith
equal_iff (c ∷ s) (d ∷ t) = let later = equal_iff s t in ground (arith, later)

-- `pop_back`, on a string that is not empty
abbrev pub pop_back : Bytes → Bytes
pop_back [] = []
pop_back (c ∷ []) = []
pop_back (c ∷ d ∷ cs) = c ∷ pop_back (d ∷ cs)

-- `back`, with a default for the empty string
abbrev pub back_or : ℕ → Bytes → ℕ
back_or d [] = d
back_or d (c ∷ cs) = back_or c cs

pub pop_back-concat : (s : Bytes) (c : ℕ) → pop_back (s ++ c ∷ []) ≡ s
pop_back-concat [] c = refl
pop_back-concat (a ∷ []) c = refl
pop_back-concat (a ∷ b ∷ s) c = rw (pop_back-concat (b ∷ s) c)

pub append-cons-ne-nil : (s : Bytes) (c : ℕ) (t : Bytes) → s ++ c ∷ t ≢ []
append-cons-ne-nil [] c t e = cc
append-cons-ne-nil (a ∷ s) c t e = cc

pub pop_back-append : (s t : Bytes) → t ≢ [] → pop_back (s ++ t) ≡ s ++ pop_back t
pop_back-append s [] h = absurd (h refl)
pop_back-append [] (c ∷ t) h = refl
pop_back-append (a ∷ []) (c ∷ t) h = refl
pop_back-append (a ∷ b ∷ s) (c ∷ t) h = ap (◌∷◌ a) (pop_back-append (b ∷ s) (c ∷ t) h)

pub back_or-concat : (d : ℕ) (s : Bytes) (c : ℕ) → back_or d (s ++ c ∷ []) ≡ c
back_or-concat d [] c = refl
back_or-concat d (a ∷ s) c = back_or-concat a s c

-- The digits of a number, the last one first done; the fuel bounds their count.
unfoldable pub decimal : ℕ → ℕ → Bytes
decimal zero n = []
decimal (suc f) n =
    let rest = decimal f (n / 10) in
    if ltb n 10 then (b'0' + n) ∷ [] else rest ++ (b'0' + n % 10) ∷ []

-- `std::to_string` of an unsigned number
unfoldable pub to_string : ℕ → Bytes
unfolding decimal
to_string n = decimal (suc n) n

abbrev pub IsDigit : ℕ → Type 0
IsDigit digit = (b'0' ≤ digit) × (digit ≤ b'9')

pub decimal-IsDigit : (f n : ℕ) → All IsDigit (decimal f n)
unfolding decimal
decimal-IsDigit zero n = tt
decimal-IsDigit (suc f) n = elim (Bool-cases (ltb n 10)) [
  | inl small ↦ rw small ((ground arith, ground arith), tt)
  | inr large ↦ rw large (
      All-append IsDigit (decimal f (n / 10)) _ (decimal-IsDigit f (n / 10))
        ((omega arith, omega arith), tt))
]

pub to_string-IsDigit : (n : ℕ) → All IsDigit (to_string n)
unfolding to_string
to_string-IsDigit n = decimal-IsDigit (suc n) n
