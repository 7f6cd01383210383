-- ===== src/Common/Decimal.antt =====
-- Whole numbers as decimal texts: what `Number` reads of what `String` prints.
use Prim.Native.Nat.{ℕ, zero, suc, ◌+◌, ◌-◌, ◌*◌, ◌/◌, ◌%◌, ◌^◌, ◌≤◌, ◌<◌}
use mathlib.Core.Path.{◌≡◌, refl, ap, sym, subst, ◌∙◌}
use mathlib.Core.Logic.{inl, inr}
use mathlib.Core.Bool.{true, false}
use mathlib.Core.List.{[], ◌∷◌}
use native.Mathlib.Omega.{arith}
use zte_u60_pro_mu5250_manag.Common.Tests.{ltb, Bool-cases}
use zte_u60_pro_mu5250_manag.Common.Lists.{All, all, length}
use zte_u60_pro_mu5250_manag.Common.Texts.{
  Text, is_digit, is_digits, number, number_from, decimal, digits_from, is_space, trim, trim-All,
}

digit_of : (n : ℕ) → n < 10 → is_digit (48 + n) ≡ true
unfolding is_digit
digit_of n h = ground arith

all-All : (s : Text) → All (λ c. is_digit c ≡ true) s → all is_digit s ≡ true
all-All [] h = refl
all-All (c ∷ s) (h, hs) = ground (arith, all-All s hs)

number-digits_from :
    (fuel n : ℕ) (out : Text)
    → n < fuel
    → number_from 0 (digits_from fuel n out) ≡ number_from n out
unfolding number_from digits_from
number-digits_from zero n out h = absurd (omega arith)
number-digits_from (suc fuel) n out h = elim (Bool-cases (ltb n 10)) [
  | inl small ↦
      let e : 0 + (48 + n - 48) ≡ n = omega arith in rw small (ap (λ k. number_from k out) e)
  | inr large ↦
      let lt : n / 10 < fuel = ground arith in
      let e : 10 * (n / 10) + (48 + n % 10 - 48) ≡ n = omega arith in
      rw large
        (number-digits_from fuel (n / 10) ((48 + n % 10) ∷ out) lt ∙ ap (λ k. number_from k out) e)
]

-- A whole number is read back from its text.
pub number-decimal : (n : ℕ) → number (decimal n) ≡ n
unfolding number decimal
number-decimal n = number-digits_from (suc n) n [] (omega arith)

All-digits_from :
    (fuel n : ℕ) (out : Text)
    → All (λ c. is_digit c ≡ true) out
    → All (λ c. is_digit c ≡ true) (digits_from fuel n out)
unfolding digits_from
All-digits_from zero n out h = h
All-digits_from (suc fuel) n out h = elim (Bool-cases (ltb n 10)) [
  | inl small ↦
      let e : digits_from (suc fuel) n out ≡ (48 + n) ∷ out = ground arith in
      subst (All (λ c. is_digit c ≡ true)) (sym e) (digit_of n (ground arith), h)
  | inr large ↦
      let e : digits_from (suc fuel) n out ≡ digits_from fuel (n / 10) ((48 + n % 10) ∷ out) =
        ground arith in
      subst (All (λ c. is_digit c ≡ true)) (sym e)
        (All-digits_from fuel (n / 10) ((48 + n % 10) ∷ out) (digit_of (n % 10) (omega arith), h))
]

-- The text of a number holds digits only.
pub All-decimal : (n : ℕ) → All (λ c. is_digit c ≡ true) (decimal n)
unfolding decimal
All-decimal n = All-digits_from (suc n) n [] tt

length-digits_from :
    (fuel k n : ℕ) (out : Text)
    → n < fuel
    → n < 10 ^ suc k
    → (length out + 1 ≤ length (digits_from fuel n out))
      × (length (digits_from fuel n out) ≤ length out + suc k)
unfolding digits_from
length-digits_from zero k n out h lt = absurd (omega arith)
length-digits_from (suc fuel) zero n out h lt =
    let small : ltb n 10 ≡ true = ground arith in rw small (omega arith, omega arith)
length-digits_from (suc fuel) (suc k) n out h lt = elim (Bool-cases (ltb n 10)) [
  | inl small ↦ rw small (omega arith, omega arith)
  | inr large ↦
      let next : n / 10 < 10 ^ suc k = omega (arith, lt) in
      let (low, high) =
        length-digits_from fuel k (n / 10) ((48 + n % 10) ∷ out) (ground arith) next in
      rw large (omega (arith, low), omega (arith, high))
]

-- A number below 10 ^ k has one to k digits.
pub is_digits-decimal_below : (k n : ℕ) → n < 10 ^ suc k → is_digits 1 (suc k) (decimal n) ≡ true
unfolding decimal is_digits
is_digits-decimal_below k n h =
    let (low, high) = length-digits_from (suc n) k n [] (omega arith) h in
    ground (arith, all-All (decimal n) (All-decimal n), low, high)

-- A number below 1,000 has one to three digits.
pub is_digits-decimal : (n : ℕ) → n < 1000 → is_digits 1 3 (decimal n) ≡ true
is_digits-decimal n h = is_digits-decimal_below 2 n h

digits_not_spaces : (s : Text) → All (λ c. is_digit c ≡ true) s → All (λ c. is_space c ≡ false) s
unfolding is_digit is_space
digits_not_spaces [] h = tt
digits_not_spaces (c ∷ s) (h, hs) = (ground arith, digits_not_spaces s hs)

-- The text of a number has no white space around it, and is not empty.
pub trim-decimal : (n : ℕ) → trim (decimal n) ≡ decimal n
trim-decimal n = trim-All (decimal n) (digits_not_spaces (decimal n) (All-decimal n))

below_power : (n : ℕ) → n < 10 ^ suc n
below_power zero = omega arith
below_power (suc n) = omega (arith, below_power n)

pub decimal_not_empty : (n : ℕ) → 1 ≤ length (decimal n)
unfolding decimal
decimal_not_empty n = (length-digits_from (suc n) n n [] (omega arith) (below_power n)).0
