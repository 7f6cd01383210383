-- ===== src/Firewall/Ports.antt =====
-- Which ports the firewall page takes (web/src/app/(panel)/router/firewall/page.tsx).
use zte_u60_pro_mu5250_manag.Common.{
  ℕ, ◌^◌, ◌≤◌, ◌<◌, ◌≡◌, ◌∙◌, ap, ◌↔◌, Bool, true, false, ◌&&◌, [], ◌∷◌, ◌++◌, leb, ◌==◌, All,
  arith,
}
use zte_u60_pro_mu5250_manag.Common.Decimal.{number-decimal, All-decimal, is_digits-decimal_below}
use zte_u60_pro_mu5250_manag.Common.Texts.{
  Text, split-part, split-last, is_digit, is_digits, decimal,
}
use zte_u60_pro_mu5250_manag.Firewall.Forms.{is_port}

abbrev pub IsPortNumber : ℕ → Type 0
IsPortNumber n = (1 ≤ n) × (n ≤ 65535)

not_hyphen : (c : ℕ) → is_digit c ≡ true → (c == 45) ≡ false
unfolding is_digit
not_hyphen c h = ground arith

digits-not_hyphen : (s : Text) → All (λ c. is_digit c ≡ true) s → All (λ c. (c == 45) ≡ false) s
digits-not_hyphen [] h = tt
digits-not_hyphen (c ∷ s) (h, hs) = (not_hyphen c h, digits-not_hyphen s hs)

no_hyphen : (n : ℕ) → All (λ c. (c == 45) ≡ false) (decimal n)
no_hyphen n = digits-not_hyphen (decimal n) (All-decimal n)

five_digits : (n : ℕ) → n ≤ 65535 → is_digits 1 5 (decimal n) ≡ true
five_digits n h = let small : n < 10 ^ 5 = omega arith in is_digits-decimal_below 4 n small

is_port_one : (a : ℕ) → is_port (decimal a) ≡ (is_digits 1 5 (decimal a) && leb 1 a && leb a 65535)
unfolding is_port
is_port_one a =
    rw (split-last 45 (decimal a) (no_hyphen a), number-decimal a)
      (one (is_digits 1 5 (decimal a)) (leb 1 a) (leb a 65535))
  where
    one : (d l h : Bool) → (d && ((l && h) && true)) ≡ (d && l && h)
    one d l h = ground arith

is_port_two :
    (a b : ℕ)
    → is_port (decimal a ++ (45 ∷ decimal b)) ≡ (
        (is_digits 1 5 (decimal a) && leb 1 a && leb a 65535)
        && (is_digits 1 5 (decimal b) && leb 1 b && leb b 65535))
unfolding is_port
is_port_two a b =
    let parts =
      split-part 45 (decimal a) (decimal b) (no_hyphen a)
      ∙ ap (λ ps. decimal a ∷ ps) (split-last 45 (decimal b) (no_hyphen b)) in
    rw (parts, number-decimal a, number-decimal b)
      (two (is_digits 1 5 (decimal a)) (is_digits 1 5 (decimal b)) (leb 1 a) (leb a 65535) (leb 1 b)
        (leb b 65535))
  where
    two :
        (d e l h m k : Bool)
        → ((d && e) && ((l && h) && ((m && k) && true))) ≡ ((d && l && h) && (e && m && k))
    two d e l h m k = ground arith

port_iff : (a : ℕ) → ((is_digits 1 5 (decimal a) && leb 1 a && leb a 65535) ≡ true) ↔ IsPortNumber a
port_iff a = (λ h. (ground arith, ground arith), λ (l, h). ground (arith, five_digits a h))

and_iff : (p q : Bool) → ((p && q) ≡ true) ↔ ((p ≡ true) × (q ≡ true))
and_iff p q = ground arith

-- A single number is taken exactly where it is a port, and two numbers with a hyphen between them
-- exactly where each of them is a port, in whatever order they stand.
pub is_port-decimal :
    (a b : ℕ)
    → ((is_port (decimal a) ≡ true) ↔ IsPortNumber a)
      × ((is_port (decimal a ++ (45 ∷ decimal b)) ≡ true) ↔ (IsPortNumber a × IsPortNumber b))
is_port-decimal a b = (
  rw (is_port_one a) (port_iff a),
  rw (is_port_two a b) (
    λ h. let (p, q) = (and_iff _ _).0 h in ((port_iff a).0 p, (port_iff b).0 q),
    λ (p, q). (and_iff _ _).1 ((port_iff a).1 p, (port_iff b).1 q),
  ),
)
