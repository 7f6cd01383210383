-- ===== src/Lan/Range.antt =====
-- The range of a DHCP server, of addresses and of host numbers (`hostOf`, `endpoint` and `errs` of
-- web/src/app/(panel)/router/lan/page.tsx).
use zte_u60_pro_mu5250_manag.Common.{
  ℕ, ◌+◌, ◌-◌, ◌/◌, ◌^◌, ◌≤◌, ◌<◌, ◌≡◌, ◌∙◌, refl, ap, sym, true, some, [], ◌∷◌, if◌then◌else◌, ltb,
  arith,
}
use zte_u60_pro_mu5250_manag.Common.Decimal.{number-decimal}
use zte_u60_pro_mu5250_manag.Common.Texts.{Text, decimal}
use zte_u60_pro_mu5250_manag.Net.Ipv4.{
  Octets, IsAddress, print, to_int, to_int_bound, trim-print, parse_typed-print, is_digits-print,
}
use zte_u60_pro_mu5250_manag.Net.Mask.{is_netmask-print, IsOnesFromTop, pow_le}
use zte_u60_pro_mu5250_manag.Net.Prefix.{prefix, prefix_add, bit_and-prefix}
use zte_u60_pro_mu5250_manag.Lan.Form.{
  LanForm, LanError, Which, host_of, lease_seconds, endpoint, field_errors, lan_errors, is_positive,
  same_network,
}

pub host_of-print : (o : Octets) → IsAddress o → host_of (print o) ≡ decimal o.d
unfolding host_of
host_of-print o h = rw (trim-print o, is_digits-print o, parse_typed-print o h) refl

endpoint-print :
    (i m o : Octets) (which : Which)
    → IsAddress o
    → endpoint (some i) (some m) which (print o)
      ≡ (if same_network m o i then [] else LanError.range_subnet which (print o) ∷ [])
unfolding endpoint
endpoint-print i m o which h = rw (trim-print o, is_digits-print o, parse_typed-print o h) refl

-- A form with full addresses and the DHCP server on.
abbrev pub address_form : Octets → Octets → Octets → Octets → Text → LanForm
address_form ip mask first last lease = record {
  lan_ipaddr = print ip;
  lan_netmask = print mask;
  dhcp_enable = true;
  dhcp_start = print first;
  dhcp_end = print last;
  dhcp_lease_time = lease;
}

-- A form of addresses with a contiguous netmask, a lease time above 0, and both ends of the range in
-- the LAN's network is refused exactly where the last number of the start is above that of the end.
pub lan_errors-address_form :
    (ip mask first last : Octets) (lease : Text)
    → IsAddress ip
    → IsAddress mask
    → IsAddress first
    → IsAddress last
    → IsOnesFromTop (to_int mask)
    → is_positive (lease_seconds lease) ≡ true
    → same_network mask first ip ≡ true
    → same_network mask last ip ≡ true
    → lan_errors (address_form ip mask first last lease)
      ≡ (if ltb last.d first.d then LanError.range_order ∷ [] else [])
unfolding lan_errors field_errors
lan_errors-address_form ip mask first last lease hi hm hf hl ones pos sf sl =
    let ok = (is_netmask-print mask hm).1 ones in
    let a : endpoint (some ip) (some mask) Which.start_address (print first) ≡ [] =
      endpoint-print ip mask first Which.start_address hf ∙ rw sf refl in
    let b : endpoint (some ip) (some mask) Which.end_address (print last) ≡ [] =
      endpoint-print ip mask last Which.end_address hl ∙ rw sl refl in
    rw
      (
        parse_typed-print ip hi,
        ok,
        parse_typed-print mask hm,
        pos,
        a,
        b,
        host_of-print first hf,
        host_of-print last hl,
        number-decimal first.d,
        number-decimal last.d,
      )
      refl

halves : (x : ℕ) → prefix 8 x ≡ x / 256
halves x = omega arith

eighth : (k x y : ℕ) → k ≤ 8 → prefix k x ≡ prefix k y → x / 256 ≡ y / 256
eighth k x y h e =
    let s : k + (8 - k) ≡ 8 = omega arith in
    let shorten : (x : ℕ) → prefix (8 - k) (prefix k x) ≡ x / 256 =
      λ x. sym (prefix_add k (8 - k) x) ∙ ap (λ n. prefix n x) s ∙ halves x in
    sym (shorten x) ∙ ap (prefix (8 - k)) e ∙ shorten y

last_decides :
    (o p : Octets)
    → IsAddress o
    → IsAddress p
    → to_int o / 256 ≡ to_int p / 256
    → ltb p.d o.d ≡ ltb (to_int p) (to_int o)
unfolding to_int
last_decides o p (ha, hb, hc, hd) (ka, kb, kc, kd) e = ground arith

-- With a netmask of 24 to 31 ones, a form of addresses whose range lies in the LAN's network is
-- refused exactly where the start is a later address than the end.
pub lan_errors-address_form_narrow :
    (k : ℕ) (ip mask first last : Octets) (lease : Text)
    → IsAddress ip
    → IsAddress mask
    → IsAddress first
    → IsAddress last
    → k ≤ 8
    → to_int mask + 2 ^ k ≡ 4294967296
    → is_positive (lease_seconds lease) ≡ true
    → same_network mask first ip ≡ true
    → same_network mask last ip ≡ true
    → lan_errors (address_form ip mask first last lease)
      ≡ (if ltb (to_int last) (to_int first) then LanError.range_order ∷ [] else [])
lan_errors-address_form_narrow k ip mask first last lease hi hm hf hl small e pos sf sl =
    let small_pow = pow_le k 8 small in
    let some_ones : 0 < to_int mask = omega arith in
    let agree : (o : Octets)
        → IsAddress o
        → same_network mask o ip ≡ true
        → prefix k (to_int o) ≡ prefix k (to_int ip) =
      λ o h s.
        (bit_and-prefix k (to_int o) (to_int ip) (to_int mask) (to_int_bound o h)
            (to_int_bound ip hi) e some_ones).0
          s in
    let same : prefix k (to_int first) ≡ prefix k (to_int last) =
      agree first hf sf ∙ sym (agree last hl sl) in
    let same_24 = eighth k (to_int first) (to_int last) small same in
    lan_errors-address_form ip mask first last lease hi hm hf hl (k, omega arith, e) pos sf sl
    ∙ ap (λ b. if b then LanError.range_order ∷ [] else []) (last_decides first last hf hl same_24)
