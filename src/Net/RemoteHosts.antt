-- ===== src/Net/RemoteHosts.antt =====
-- Which hosts are remote (`isRemoteHost` of web/src/lib/api/remote.ts).
use zte_u60_pro_mu5250_manag.Common.{
  ℕ, ◌/◌, ◌<◌, ◌≡◌, ◌≢◌, ◌∙◌, refl, sym, ◌↔◌, Bool, true, false, ◌&&◌, none, some, [], ◌∷◌, ◌++◌,
  map, leb, ◌==◌, All, arith,
}
use zte_u60_pro_mu5250_manag.Common.Decimal.{is_digits-decimal, All-decimal}
use zte_u60_pro_mu5250_manag.Common.Texts.{Text, is_digit, is_digits, decimal}
use zte_u60_pro_mu5250_manag.Net.Ipv4.{
  Octets, IsAddress, print, parse_ipv4, to_int, trim-print, parse_ipv4-print, All-print,
}
use zte_u60_pro_mu5250_manag.Net.Remote.{
  includes, ends, lower_unit, bare_host, name_or_v4, remote_of, is_remote_host,
}

abbrev is_upper : ℕ → Bool
is_upper c = leb 65 c && leb c 90

lower-All : (s : Text) → All (λ c. is_upper c ≡ false) s → map lower_unit s ≡ s
lower-All [] h = refl
lower-All (c ∷ s) (h, hs) = ground (arith, lower-All s hs)

includes-All : (d : ℕ) (s : Text) → All (λ c. (c == d) ≡ false) s → includes d s ≡ false
includes-All d [] h = refl
includes-All d (c ∷ s) (h, hs) = ground (arith, includes-All d s hs)

ends-append : (c : ℕ) (s t : Text) → t ≢ [] → ends c (s ++ t) ≡ ends c t
unfolding ends
ends-append c s [] n = absurd (n refl)
ends-append c [] (d ∷ t) n = refl
ends-append c (b ∷ []) (d ∷ t) n = refl
ends-append c (b ∷ e ∷ s) (d ∷ t) n = ends-append c (e ∷ s) (d ∷ t) n

ends-All : (s : Text) → All (λ c. is_digit c ≡ true) s → ends 46 s ≡ false
unfolding ends is_digit
ends-All [] h = refl
ends-All (c ∷ []) (h, hs) = ground arith
ends-All (c ∷ e ∷ s) (h, hs) = ends-All (e ∷ s) hs

decimal-not_empty : (n : ℕ) → n < 256 → decimal n ≢ []
unfolding is_digits
decimal-not_empty n h e = let size = is_digits-decimal n (omega arith) in ground (arith, e, size)

ends-dot : (s u : Text) → u ≢ [] → ends 46 (s ++ (46 ∷ u)) ≡ ends 46 u
unfolding ends
ends-dot s [] n = absurd (n refl)
ends-dot s (c ∷ u) n = ends-append 46 s (46 ∷ c ∷ u) (λ e. cc)

dotted-not_empty : (s u : Text) → s ++ (46 ∷ u) ≢ []
dotted-not_empty [] u e = absurd cc
dotted-not_empty (c ∷ s) u e = absurd cc

ends-print : (o : Octets) → IsAddress o → ends 46 (print o) ≡ false
unfolding print
ends-print o (ha, hb, hc, hd) =
    ends-dot (decimal o.a) _ (dotted-not_empty (decimal o.b) _)
    ∙ ends-dot (decimal o.b) _ (dotted-not_empty (decimal o.c) _)
    ∙ ends-dot (decimal o.c) _ (decimal-not_empty o.d hd)
    ∙ ends-All (decimal o.d) (All-decimal o.d)

bare_host-plain : (s : Text) → All (λ c. (c == 91) ≡ false) s → ends 46 s ≡ false → bare_host s ≡ s
unfolding bare_host
bare_host-plain [] h e = refl
bare_host-plain (c ∷ s) (h, hs) e = ground arith

parse_ipv4-empty : parse_ipv4 [] ≡ none
unfolding parse_ipv4
parse_ipv4-empty = refl

remote_of-v4 :
    (s : Text) (o : Octets)
    → parse_ipv4 s ≡ some o
    → includes 58 s ≡ false
    → remote_of s ≡ name_or_v4 s (some o)
remote_of-v4 [] o h e = absurd (cc parse_ipv4-empty)
remote_of-v4 (c ∷ s) o h e = rw (e, h) refl

digit_is_plain :
    (c : ℕ) → is_digit c ≡ true → (is_upper c ≡ false) × ((c == 91) ≡ false) × ((c == 58) ≡ false)
unfolding is_digit
digit_is_plain c h = (ground arith, ground arith, ground arith)

digit_is_not_open : (c : ℕ) → is_digit c ≡ true → (c == 91) ≡ false
digit_is_not_open c h = let (_, e, _) = digit_is_plain c h in e

digit_is_no_colon : (c : ℕ) → is_digit c ≡ true → (c == 58) ≡ false
digit_is_no_colon c h = let (_, _, e) = digit_is_plain c h in e

remote_of-print :
    (o : Octets) → IsAddress o → is_remote_host (print o) ≡ name_or_v4 (print o) (some o)
unfolding is_remote_host
remote_of-print o h =
    let lower = lower-All (print o) (All-print is_upper o (λ c d. (digit_is_plain c d).0) refl) in
    let open_ = All-print (λ c. c == 91) o digit_is_not_open refl in
    let colon = All-print (λ c. c == 58) o digit_is_no_colon refl in
    rw (trim-print o, lower, bare_host-plain (print o) open_ (ends-print o h))
      (remote_of-v4 (print o) o (parse_ipv4-print o h) (includes-All 58 (print o) colon))

-- An IPv4 address is remote exactly where it lies in 100.64.0.0/10: where its first ten binary digits
-- are those of 100.64.
pub is_remote_host-print :
    (o : Octets) → IsAddress o → (is_remote_host (print o) ≡ true) ↔ (to_int o / 4194304 ≡ 401)
unfolding to_int
is_remote_host-print o (ha, hb, hc, hd) =
    let e = remote_of-print o (ha, hb, hc, hd) in (λ h. in_range (sym e ∙ h), λ h. e ∙ from_range h)
  where
    in_range : name_or_v4 (print o) (some o) ≡ true → to_int o / 4194304 ≡ 401
    in_range h = ground arith

    from_range : to_int o / 4194304 ≡ 401 → name_or_v4 (print o) (some o) ≡ true
    from_range h = ground arith
