-- ===== src/Net/Mask.antt =====
-- Netmasks (`isNetmask` of web/src/app/(panel)/router/lan/page.tsx).
use mathlib.Core.Path.{subst}
use Prim.Native.Nat.{bit_and, digits, bit_and-bitwise}
use zte_u60_pro_mu5250_manag.Common.{
  ℕ, zero, suc, ◌+◌, ◌-◌, ◌*◌, ◌/◌, ◌%◌, ◌^◌, ◌≤◌, ◌<◌, min, ◌≡◌, ◌∙◌, refl, ap, ◌↔◌, ◌⊎◌, inl, inr,
  Bool, true, false, ◌&&◌, not, Option, none, some, ◌==◌, arith,
}
use zte_u60_pro_mu5250_manag.Common.Texts.{Text}
use zte_u60_pro_mu5250_manag.Net.Ipv4.{
  Octets, IsAddress, parse_typed, to_int, print, parse_typed-print, to_int_bound,
}

-- `(inv & (inv + 1)) === 0` for `inv = ~n >>> 0`, where `n` is not 0.
unfoldable pub is_mask : ℕ → Bool
is_mask n = not (n == 0) && (bit_and (4294967295 - n) (4294967295 - n + 1) == 0)

unfoldable pub mask_of : Option Octets → Bool
unfolding is_mask to_int
mask_of none = false
mask_of (some o) = is_mask (to_int o)

unfoldable pub is_netmask : Text → Bool
unfolding parse_typed mask_of
is_netmask s = mask_of (parse_typed s)

-- The bitwise law of the lowest digit.
and_fuel :
    (n m a b : ℕ) → a ≤ n → a ≤ m → digits (λ b. zero) min n a b ≡ digits (λ b. zero) min m a b
and_fuel zero zero a b p q = refl
and_fuel zero (suc m) zero b p q = refl
and_fuel zero (suc m) (suc a) b p q = absurd (omega arith)
and_fuel (suc n) zero zero b p q = refl
and_fuel (suc n) zero (suc a) b p q = absurd (omega arith)
and_fuel (suc n) (suc m) zero b p q = refl
and_fuel (suc n) (suc m) (suc a) b p q =
    omega (arith, and_fuel n m (suc a / 2) (b / 2) (omega arith) (omega arith))

pub bit_and_low : (a b : ℕ) → bit_and a b ≡ 2 * bit_and (a / 2) (b / 2) + min (a % 2) (b % 2)
bit_and_low zero b = omega (arith, bit_and-bitwise 0 b, bit_and-bitwise 0 (b / 2))
bit_and_low (suc a) b = omega (
  arith,
  bit_and-bitwise (suc a) b,
  bit_and-bitwise (suc a / 2) (b / 2),
  and_fuel a (suc a / 2) (suc a / 2) (b / 2) (omega arith) (omega arith),
)

bit_and_self : (fuel n : ℕ) → n < fuel → bit_and n n ≡ n
bit_and_self zero n h = absurd (omega arith)
bit_and_self (suc fuel) zero h = bit_and-bitwise 0 0
bit_and_self (suc fuel) (suc n) h =
    omega (arith, bit_and_low (suc n) (suc n), bit_and_self fuel (suc n / 2) (omega arith))

bit_and_odd : (m : ℕ) → bit_and (2 * m + 1) (2 * m + 2) ≡ 2 * bit_and m (m + 1)
bit_and_odd m =
    let a : (2 * m + 1) / 2 ≡ m = omega arith in
    let b : (2 * m + 2) / 2 ≡ m + 1 = omega arith in
    let e : bit_and (2 * m + 1) (2 * m + 2) ≡ 2 * bit_and m (m + 1) + 0 =
      bit_and_low (2 * m + 1) (2 * m + 2) ∙ ground (arith, a, b) in
    omega (arith, e)

bit_and_even : (m : ℕ) → bit_and (2 * m) (2 * m + 1) ≡ 2 * m
bit_and_even m =
    let a : (2 * m) / 2 ≡ m = omega arith in
    let b : (2 * m + 1) / 2 ≡ m = omega arith in
    bit_and_low (2 * m) (2 * m + 1) ∙ ground (arith, a, b, bit_and_self (suc m) m (omega arith))

parity : (n : ℕ) → (n ≡ 2 * (n / 2)) ⊎ (n ≡ 2 * (n / 2) + 1)
parity n = omega arith

bit_and_next_odd : (n m : ℕ) → n ≡ 2 * m + 1 → bit_and n (n + 1) ≡ 2 * bit_and m (m + 1)
bit_and_next_odd n m e =
    let s : n + 1 ≡ 2 * m + 2 = omega arith in
    ap (λ x. bit_and x (n + 1)) e ∙ ap (λ x. bit_and (2 * m + 1) x) s ∙ bit_and_odd m

bit_and_next_even : (n m : ℕ) → n ≡ 2 * m → bit_and n (n + 1) ≡ 2 * m
bit_and_next_even n m e = ap (λ x. bit_and x (x + 1)) e ∙ bit_and_even m

power_of_bit_and : (fuel n : ℕ) → n < fuel → bit_and n (n + 1) ≡ 0 → (k : ℕ) × (n + 1 ≡ 2 ^ k)
power_of_bit_and zero n h e = absurd (omega arith)
power_of_bit_and (suc fuel) n h e = elim (parity n) [
  | inl even ↦ (0, omega (arith, bit_and_next_even n (n / 2) even))
  | inr odd ↦
      let half : bit_and (n / 2) (n / 2 + 1) ≡ 0 = omega (arith, bit_and_next_odd n (n / 2) odd) in
      let (k, p) = power_of_bit_and fuel (n / 2) (omega arith) half in (suc k, omega (arith, p))
]

pub pow_positive : (k : ℕ) → 0 < 2 ^ k
pow_positive zero = omega arith
pow_positive (suc k) = omega (arith, pow_positive k)

bit_and_of_power : (k n : ℕ) → n + 1 ≡ 2 ^ k → bit_and n (n + 1) ≡ 0
bit_and_of_power zero n h = let z : n ≡ 0 = omega arith in bit_and_next_even n 0 z
bit_and_of_power (suc k) n h =
    let pos = pow_positive k in
    let e : n ≡ 2 * (2 ^ k - 1) + 1 = omega arith in
    let s : 2 ^ k - 1 + 1 ≡ 2 ^ k = omega arith in
    omega (arith, bit_and_next_odd n (2 ^ k - 1) e, bit_and_of_power k (2 ^ k - 1) s)

pow_increases : (j d : ℕ) → 2 ^ j ≤ 2 ^ (j + d)
pow_increases zero d = omega (arith, pow_positive (0 + d))
pow_increases (suc j) d =
    let e : 2 ^ (suc j + d) ≡ 2 ^ suc (j + d) = ap (λ x. 2 ^ x) (omega arith) in
    omega (arith, e, pow_increases j d)

pub pow_le : (j k : ℕ) → j ≤ k → 2 ^ j ≤ 2 ^ k
pow_le j k h =
    let e : j + (k - j) ≡ k = omega arith in subst (λ x. 2 ^ j ≤ 2 ^ x) e (pow_increases j (k - j))

small_power : (k : ℕ) → 2 ^ k < 4294967296 → k < 32
small_power k h = elim (at_least k) [
  | inl big ↦ let up : 2 ^ 32 ≤ 2 ^ k = pow_le 32 k big in absurd (omega arith)
  | inr small ↦ small
]
  where
    at_least : (k : ℕ) → (32 ≤ k) ⊎ (k < 32)
    at_least k = omega arith

-- The number is ones from the top: 2 ^ 32 - 2 ^ k for some k below 32.
abbrev pub IsOnesFromTop : ℕ → Type 0
IsOnesFromTop n = (k : ℕ) × (k < 32) × (n + 2 ^ k ≡ 4294967296)

-- A 32-bit number is taken for a netmask exactly where it is ones from the top, and not 0.
pub is_mask_iff : (n : ℕ) → n < 4294967296 → (is_mask n ≡ true) ↔ IsOnesFromTop n
unfolding is_mask
is_mask_iff n h = (to, from)
  where
    to : is_mask n ≡ true → IsOnesFromTop n
    to e =
        let (k, p) =
          power_of_bit_and (suc (4294967295 - n)) (4294967295 - n) (omega arith) (ground arith) in
        let some_bits : 0 < n = ground arith in (k, small_power k (omega arith), omega arith)

    from : IsOnesFromTop n → is_mask n ≡ true
    from (k, lt, e) =
        let pos = pow_positive k in
        let low : 2 ^ k ≤ 2 ^ 31 = pow_le k 31 (omega arith) in
        let p : 4294967295 - n + 1 ≡ 2 ^ k = omega arith in
        let z = bit_and_of_power k (4294967295 - n) p in
        let some_bits : 0 < n = omega arith in ground arith

-- The text of an address is taken for a netmask exactly where the address is ones from the top: some
-- ones, at least one, and then only zeros.
pub is_netmask-print :
    (o : Octets) → IsAddress o → (is_netmask (print o) ≡ true) ↔ IsOnesFromTop (to_int o)
unfolding is_netmask mask_of
is_netmask-print o h = rw (parse_typed-print o h) (is_mask_iff (to_int o) (to_int_bound o h))
