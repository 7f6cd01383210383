-- ===== src/Net/Ipv4.antt =====
-- Dotted addresses (`parseIPv4` of web/src/lib/api/remote.ts and of
-- web/src/app/(panel)/router/lan/page.tsx, and `toInt` of the latter).
use zte_u60_pro_mu5250_manag.Common.{
  ℕ, ◌+◌, ◌*◌, ◌%◌, ◌<◌, ◌≡◌, ◌∙◌, refl, ap, Bool, true, false, ◌&&◌, Option, none, some, List, [],
  ◌∷◌, ◌++◌, if◌then◌else◌, leb, ◌==◌, all, All, arith,
}
use zte_u60_pro_mu5250_manag.Common.Decimal.{number-decimal, All-decimal, is_digits-decimal}
use zte_u60_pro_mu5250_manag.Common.Texts.{
  Text, split, split-part, split-last, is_digit, is_digits, number, decimal, trim, is_space,
  trim-All,
}

-- The four numbers of an address.
pub record Octets : Type 0 where
  pub a : ℕ
  pub b : ℕ
  pub c : ℕ
  pub d : ℕ

abbrev pub is_octet : Text → Bool
is_octet p = is_digits 1 3 p && leb (number p) 255

unfoldable pub octets_of : List Text → Option Octets
unfolding is_digits number
octets_of (p ∷ q ∷ r ∷ s ∷ []) =
    if all is_octet (p ∷ q ∷ r ∷ s ∷ [])
    then some (record { a = number p; b = number q; c = number r; d = number s })
    else none
octets_of ps = none

-- `parseIPv4` of remote.ts.
unfoldable pub parse_ipv4 : Text → Option Octets
unfolding split octets_of
parse_ipv4 s = octets_of (split 46 s)

-- `parseIPv4` of the LAN page.
unfoldable pub parse_typed : Text → Option Octets
unfolding trim parse_ipv4
parse_typed s = parse_ipv4 (trim s)

-- `toInt`.
unfoldable pub to_int : Octets → ℕ
to_int o = o.a * 16777216 % 4294967296 + o.b * 65536 + o.c * 256 + o.d

abbrev pub IsAddress : Octets → Type 0
IsAddress o = (o.a < 256) × (o.b < 256) × (o.c < 256) × (o.d < 256)

-- The text of an address.
unfoldable pub print : Octets → Text
unfolding decimal
print o = decimal o.a ++ (46 ∷ (decimal o.b ++ (46 ∷ (decimal o.c ++ (46 ∷ decimal o.d)))))

All-weaken :
    (p q : ℕ → Bool) (s : Text)
    → ((c : ℕ) → p c ≡ true → q c ≡ false)
    → All (λ c. p c ≡ true) s
    → All (λ c. q c ≡ false) s
All-weaken p q [] f h = tt
All-weaken p q (c ∷ s) f (h, hs) = (f c h, All-weaken p q s f hs)

digit_not_dot : (c : ℕ) → is_digit c ≡ true → (c == 46) ≡ false
unfolding is_digit
digit_not_dot c h = ground arith

split-print :
    (o : Octets) → split 46 (print o) ≡ decimal o.a ∷ decimal o.b ∷ decimal o.c ∷ decimal o.d ∷ []
unfolding print
split-print o =
    split-part 46 (decimal o.a) _ (no_dot o.a)
    ∙ ap (λ ps. decimal o.a ∷ ps)
        (split-part 46 (decimal o.b) _ (no_dot o.b)
          ∙ ap (λ ps. decimal o.b ∷ ps)
              (split-part 46 (decimal o.c) _ (no_dot o.c)
                ∙ ap (λ ps. decimal o.c ∷ ps) (split-last 46 (decimal o.d) (no_dot o.d))))
  where
    no_dot : (n : ℕ) → All (λ c. (c == 46) ≡ false) (decimal n)
    no_dot n = All-weaken is_digit (λ c. c == 46) (decimal n) digit_not_dot (All-decimal n)

is_octet-decimal : (n : ℕ) → n < 256 → is_octet (decimal n) ≡ true
is_octet-decimal n h = ground (arith, is_digits-decimal n (omega arith), number-decimal n)

octets_of-decimal :
    (o : Octets)
    → IsAddress o
    → octets_of (decimal o.a ∷ decimal o.b ∷ decimal o.c ∷ decimal o.d ∷ []) ≡ some o
unfolding octets_of
octets_of-decimal o (ha, hb, hc, hd) =
    rw
      (
        is_octet-decimal o.a ha,
        is_octet-decimal o.b hb,
        is_octet-decimal o.c hc,
        is_octet-decimal o.d hd,
        number-decimal o.a,
        number-decimal o.b,
        number-decimal o.c,
        number-decimal o.d,
      )
      refl

-- An address is read from its text.
pub parse_ipv4-print : (o : Octets) → IsAddress o → parse_ipv4 (print o) ≡ some o
unfolding parse_ipv4
parse_ipv4-print o h = ap octets_of (split-print o) ∙ octets_of-decimal o h

All-append : (P : ℕ → Type 0) (s t : Text) → All P s → All P t → All P (s ++ t)
All-append P [] t h k = k
All-append P (c ∷ s) t (h, hs) k = (h, All-append P s t hs k)

-- What holds of the digits and of the dot holds of the text of an address.
pub All-print :
    (p : ℕ → Bool) (o : Octets)
    → ((c : ℕ) → is_digit c ≡ true → p c ≡ false)
    → p 46 ≡ false
    → All (λ c. p c ≡ false) (print o)
unfolding print
All-print p o f dot =
    let P : ℕ → Type 0 = λ c. p c ≡ false in
    All-append P (decimal o.a) _ (digits o.a) (
      dot,
      All-append P (decimal o.b) _ (digits o.b)
          (dot, All-append P (decimal o.c) _ (digits o.c) (dot, digits o.d)),
    )
  where
    digits : (n : ℕ) → All (λ c. p c ≡ false) (decimal n)
    digits n = All-weaken is_digit p (decimal n) f (All-decimal n)

digit_not_space : (c : ℕ) → is_digit c ≡ true → is_space c ≡ false
unfolding is_digit is_space
digit_not_space c h = ground arith

dot_not_space : is_space 46 ≡ false
unfolding is_space
dot_not_space = refl

pub trim-print : (o : Octets) → trim (print o) ≡ print o
trim-print o = trim-All (print o) (All-print is_space o digit_not_space dot_not_space)

pub parse_typed-print : (o : Octets) → IsAddress o → parse_typed (print o) ≡ some o
unfolding parse_typed
parse_typed-print o h = ap parse_ipv4 (trim-print o) ∙ parse_ipv4-print o h

pub to_int_bound : (o : Octets) → IsAddress o → to_int o < 4294967296
unfolding to_int
to_int_bound o (a, b, c, d) = omega arith

all-dot : (s t : Text) → all is_digit (s ++ (46 ∷ t)) ≡ false
unfolding is_digit
all-dot [] t = refl
all-dot (c ∷ s) t = ground (arith, all-dot s t)

-- The text of an address holds a dot, so it is no host number.
pub is_digits-print : (o : Octets) → is_digits 1 3 (print o) ≡ false
unfolding is_digits print
is_digits-print o =
    let dotted =
      all-dot (decimal o.a) (decimal o.b ++ (46 ∷ (decimal o.c ++ (46 ∷ decimal o.d)))) in
    ground (arith, dotted)
