-- ===== src/Common/Texts.antt =====
-- Texts as the numbers of their UTF-16 code units, and what JavaScript does with them: `trim`,
-- `split`, `join`, `Number` and `String` of whole numbers, and `padStart`.
use Prim.Native.Nat.{ℕ, zero, suc, ◌+◌, ◌-◌, ◌*◌, ◌/◌, ◌%◌}
use Prim.Native.Char.{code}
use Prim.Native.String.{String}
use mathlib.Core.Path.{◌≡◌, refl}
use mathlib.Core.Logic.{◌⊎◌, inl, inr}
use mathlib.Core.Bool.{Bool, true, false, ◌&&◌, ◌||◌}
use mathlib.Core.List.{List, [], ◌∷◌, ◌++◌}
use native.Mathlib.Omega.{arith}
use zte_u60_pro_mu5250_manag.Common.Tests.{if◌then◌else◌, ltb, leb, ◌==◌, ==_iff, Bool-cases}
use zte_u60_pro_mu5250_manag.Common.Lists.{All, all, length}

abbrev pub Text : Type 0
Text = List ℕ

abbrev pub codes : String → Text
codes String.[] = []
codes (String.◌∷◌ c s) = code c ∷ codes s

-- Equality of texts.
unfoldable pub text_eq : Text → Text → Bool
text_eq [] [] = true
text_eq [] (d ∷ t) = false
text_eq (c ∷ s) [] = false
text_eq (c ∷ s) (d ∷ t) = c == d && text_eq s t

pub text_eq_refl : (s : Text) → text_eq s s ≡ true
unfolding text_eq
text_eq_refl [] = refl
text_eq_refl (c ∷ s) = ground (arith, text_eq_refl s)

pub text_eq_sound : (s t : Text) → text_eq s t ≡ true → s ≡ t
unfolding text_eq
text_eq_sound [] [] h = refl
text_eq_sound [] (d ∷ t) h = cc
text_eq_sound (c ∷ s) [] h = cc
text_eq_sound (c ∷ s) (d ∷ t) h = ground (arith, text_eq_sound s t)

pub text_eq_sym : (s t : Text) → text_eq s t ≡ text_eq t s
unfolding text_eq
text_eq_sym [] [] = refl
text_eq_sym [] (d ∷ t) = refl
text_eq_sym (c ∷ s) [] = refl
text_eq_sym (c ∷ s) (d ∷ t) = ground (arith, text_eq_sym s t)

-- The white space and line ends of `trim` and of `\s`.
unfoldable pub is_space : ℕ → Bool
is_space c =
    (leb 9 c && leb c 13)
    || (c == 32)
    || (c == 0xa0)
    || (c == 0x1680)
    || (leb 0x2000 c && leb c 0x200a)
    || (c == 0x2028)
    || (c == 0x2029)
    || (c == 0x202f)
    || (c == 0x205f)
    || (c == 0x3000)
    || (c == 0xfeff)

unfoldable pub strip_start : (ℕ → Bool) → Text → Text
strip_start p [] = []
strip_start p (c ∷ s) = if p c then strip_start p s else c ∷ s

abbrev pub cons_end : (ℕ → Bool) → ℕ → Text → Text
cons_end p c [] = if p c then [] else c ∷ []
cons_end p c (d ∷ s) = c ∷ d ∷ s

-- The text without the units at its end that pass the test.
unfoldable pub strip_end : (ℕ → Bool) → Text → Text
strip_end p [] = []
strip_end p (c ∷ s) = cons_end p c (strip_end p s)

unfoldable pub trim : Text → Text
unfolding strip_start strip_end is_space
trim s = strip_end is_space (strip_start is_space s)

abbrev pub LastNot : (ℕ → Bool) → Text → Type 0
LastNot p [] = Unit {0}
LastNot p (c ∷ []) = p c ≡ false
LastNot p (c ∷ d ∷ s) = LastNot p (d ∷ s)

pub strip_end-LastNot : (p : ℕ → Bool) (s : Text) → LastNot p s → strip_end p s ≡ s
unfolding strip_end
strip_end-LastNot p [] h = refl
strip_end-LastNot p (c ∷ []) h = ground arith
strip_end-LastNot p (c ∷ d ∷ s) h = ground (arith, strip_end-LastNot p (d ∷ s) h)

pub LastNot-All : (p : ℕ → Bool) (s : Text) → All (λ c. p c ≡ false) s → LastNot p s
LastNot-All p [] h = tt
LastNot-All p (c ∷ []) (h, hs) = h
LastNot-All p (c ∷ d ∷ s) (h, hs) = LastNot-All p (d ∷ s) hs

strip_start-All : (p : ℕ → Bool) (s : Text) → All (λ c. p c ≡ false) s → strip_start p s ≡ s
unfolding strip_start
strip_start-All p [] h = refl
strip_start-All p (c ∷ s) (h, hs) = ground arith

-- A text without white space is trimmed.
pub trim-All : (s : Text) → All (λ c. is_space c ≡ false) s → trim s ≡ s
unfolding trim
trim-All s h =
    rw (strip_start-All is_space s h) (strip_end-LastNot is_space s (LastNot-All is_space s h))

strip_end-is_LastNot : (p : ℕ → Bool) (s : Text) → LastNot p (strip_end p s)
unfolding strip_end
strip_end-is_LastNot p [] = tt
strip_end-is_LastNot p (c ∷ s) =
    ending c (strip_end p s) (Bool-cases (p c)) (strip_end-is_LastNot p s)
  where
    ending :
        (c : ℕ) (t : Text) → (p c ≡ true) ⊎ (p c ≡ false) → LastNot p t → LastNot p (cons_end p c t)
    ending c [] (inl e) h = rw e tt
    ending c [] (inr e) h = rw e e
    ending c (d ∷ t) e h = h

strip_start-cons_end :
    (p : ℕ → Bool) (c : ℕ) (t : Text)
    → p c ≡ false
    → strip_start p (cons_end p c t) ≡ cons_end p c t
unfolding strip_start
strip_start-cons_end p c [] h = rw h (rw h refl)
strip_start-cons_end p c (d ∷ t) h = rw h refl

strip_start-strip_end :
    (p : ℕ → Bool) (s : Text)
    → strip_start p (strip_end p (strip_start p s)) ≡ strip_end p (strip_start p s)
unfolding strip_start strip_end
strip_start-strip_end p [] = refl
strip_start-strip_end p (c ∷ s) = elim (Bool-cases (p c)) [
  | inl e ↦ rw e (strip_start-strip_end p s)
  | inr e ↦ rw e (strip_start-cons_end p c (strip_end p s) e)
]

-- A trimmed text is trimmed.
pub trim-trim : (s : Text) → trim (trim s) ≡ trim s
unfolding trim
trim-trim s = rw (strip_start-strip_end is_space s) (
    strip_end-LastNot is_space (strip_end is_space (strip_start is_space s))
      (strip_end-is_LastNot is_space (strip_start is_space s)))

-- A space in front is trimmed away.
pub trim-space : (s : Text) → trim (32 ∷ s) ≡ trim s
unfolding trim
trim-space s = refl

abbrev pub push_unit : ℕ → List Text → List Text
push_unit c [] = (c ∷ []) ∷ []
push_unit c (p ∷ ps) = (c ∷ p) ∷ ps

-- `s.split(sep)`, for a separator of one unit.
unfoldable pub split : ℕ → Text → List Text
split sep [] = [] ∷ []
split sep (c ∷ s) = let rest = split sep s in if c == sep then [] ∷ rest else push_unit c rest

-- `parts.join(sep)`.
unfoldable pub join : Text → List Text → Text
join sep [] = []
join sep (p ∷ []) = p
join sep (p ∷ q ∷ ps) = p ++ (sep ++ join sep (q ∷ ps))

-- A part without the separator is split off whole.
pub split-part :
    (sep : ℕ) (p s : Text)
    → All (λ c. (c == sep) ≡ false) p
    → split sep (p ++ (sep ∷ s)) ≡ p ∷ split sep s
unfolding split
split-part sep [] s h = ground (arith, ==_iff sep sep)
split-part sep (c ∷ p) s (h, hs) = ground (arith, split-part sep p s hs)

pub split-last : (sep : ℕ) (p : Text) → All (λ c. (c == sep) ≡ false) p → split sep p ≡ p ∷ []
unfolding split
split-last sep [] h = refl
split-last sep (c ∷ p) (h, hs) = ground (arith, split-last sep p hs)

unfoldable pub is_digit : ℕ → Bool
is_digit c = leb 48 c && leb c 57

-- `\d{lo,hi}` of a whole text.
unfoldable pub is_digits : ℕ → ℕ → Text → Bool
unfolding is_digit
is_digits lo hi s = leb lo (length s) && (leb (length s) hi && all is_digit s)

unfoldable pub number_from : ℕ → Text → ℕ
number_from n [] = n
number_from n (c ∷ s) = number_from (10 * n + (c - 48)) s

-- `Number` of a text of digits.
unfoldable pub number : Text → ℕ
unfolding number_from
number s = number_from 0 s

unfoldable pub digits_from : ℕ → ℕ → Text → Text
digits_from zero n out = out
digits_from (suc fuel) n out =
    let rest = digits_from fuel (n / 10) ((48 + n % 10) ∷ out) in
    if ltb n 10 then (48 + n) ∷ out else rest

-- `String` of a whole number: a digit more than the number is passes enough.
unfoldable pub decimal : ℕ → Text
unfolding digits_from
decimal n = digits_from (suc n) n []

-- `padStart(2, "0")`.
unfoldable pub pad_two : Text → Text
pad_two [] = 48 ∷ 48 ∷ []
pad_two (c ∷ []) = 48 ∷ c ∷ []
pad_two (c ∷ d ∷ s) = c ∷ d ∷ s
