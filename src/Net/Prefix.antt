-- ===== src/Net/Prefix.antt =====
-- Networks: what `addr & mask` keeps (web/src/app/(panel)/router/lan/page.tsx).
use Prim.Native.Nat.{bit_and}
use zte_u60_pro_mu5250_manag.Common.{
  ℕ, zero, suc, ◌+◌, ◌*◌, ◌/◌, ◌^◌, ◌<◌, ◌≡◌, ◌∙◌, sym, ap, ◌↔◌, true, arith, ◌==◌, ==_iff,
}
use zte_u60_pro_mu5250_manag.Net.Mask.{bit_and_low, pow_positive}

-- The number without its lowest digits.
abbrev pub prefix : ℕ → ℕ → ℕ
prefix zero x = x
prefix (suc k) x = prefix k (x / 2)

abbrev shift : ℕ → ℕ → ℕ
shift zero x = x
shift (suc k) x = 2 * shift k x

shift_injective : (k x y : ℕ) → shift k x ≡ shift k y → x ≡ y
shift_injective zero x y h = h
shift_injective (suc k) x y h = shift_injective k x y (omega (arith, h))

pub prefix_add : (k j x : ℕ) → prefix (k + j) x ≡ prefix j (prefix k x)
prefix_add zero j x = let e : 0 + j ≡ j = omega arith in ap (λ n. prefix n x) e
prefix_add (suc k) j x =
    let e : suc k + j ≡ suc (k + j) = omega arith in ap (λ n. prefix n x) e ∙ prefix_add k j (x / 2)

bit_and_all : (w x m : ℕ) → x < 2 ^ w → m + 1 ≡ 2 ^ w → bit_and x m ≡ x
bit_and_all zero x m h e =
    let x0 : x ≡ 0 = omega arith in
    let m0 : m ≡ 0 = omega arith in ap (λ n. bit_and n m) x0 ∙ ap (λ n. bit_and 0 n) m0 ∙ sym x0
bit_and_all (suc w) x m h e =
    omega (arith, bit_and_low x m, bit_and_all w (x / 2) (m / 2) (omega arith) (omega arith))

bit_and-shift :
    (k w x m : ℕ) → x < 2 ^ w → m + 2 ^ k ≡ 2 ^ w → 0 < m → bit_and x m ≡ shift k (prefix k x)
bit_and-shift zero w x m h e z = bit_and_all w x m h (omega arith)
bit_and-shift (suc k) zero x m h e z = absurd (omega (arith, pow_positive k))
bit_and-shift (suc k) (suc w) x m h e z = omega (
  arith,
  bit_and_low x m,
  bit_and-shift k w (x / 2) (m / 2) (omega arith) (omega arith) (omega arith),
)

-- Under a mask of ones from the top, two numbers agree exactly where their prefixes do.
pub bit_and-prefix :
    (k x y m : ℕ)
    → x < 4294967296
    → y < 4294967296
    → m + 2 ^ k ≡ 4294967296
    → 0 < m
    → ((bit_and x m == bit_and y m) ≡ true) ↔ (prefix k x ≡ prefix k y)
bit_and-prefix k x y m hx hy e z =
    let a = bit_and-shift k 32 x m hx e z in
    let b = bit_and-shift k 32 y m hy e z in
    (
      λ h. shift_injective k _ _ (sym a ∙ (==_iff _ _).0 h ∙ b),
      λ h. (==_iff _ _).1 (a ∙ ap (shift k) h ∙ sym b),
    )
