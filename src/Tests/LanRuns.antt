-- ===== src/Tests/LanRuns.antt =====
-- Addresses, hosts and the LAN form (web/src/lib/api/remote.ts,
-- web/src/app/(panel)/router/lan/page.tsx).
use zte_u60_pro_mu5250_manag.Common.{
  ℕ, ◌/◌, ◌≡◌, ◌↔◌, refl, true, false, some, none, [], ◌∷◌, if◌then◌else◌, ltb, arith,
}
use zte_u60_pro_mu5250_manag.Common.Texts.{codes}
use zte_u60_pro_mu5250_manag.Net.Ipv4.{Octets, print, to_int}
use zte_u60_pro_mu5250_manag.Net.Mask.{is_netmask, is_netmask-print, IsOnesFromTop}
use zte_u60_pro_mu5250_manag.Net.Remote.{is_remote_host}
use zte_u60_pro_mu5250_manag.Net.RemoteHosts.{is_remote_host-print}
use zte_u60_pro_mu5250_manag.Lan.Form.{LanForm, LanError, lan_errors, lease_seconds}
use zte_u60_pro_mu5250_manag.Lan.Apply.{Pending, ask_apply, describe}
use zte_u60_pro_mu5250_manag.Lan.Range.{address_form, lan_errors-address_form}

abbrev address : ℕ → ℕ → ℕ → ℕ → Octets
address a b c d = record { a = a; b = b; c = c; d = d }

remote_runs :
    (is_remote_host (codes "localhost") ≡ false)
    × (is_remote_host (codes "u60") ≡ true)
    × (is_remote_host (codes "U60.Tail1.ts.net.") ≡ true)
    × (is_remote_host (codes "[fd7a:115c:a1e0::1]") ≡ true)
    × (is_remote_host (codes "fe80::1") ≡ false)
    × (is_remote_host (codes "::ffff:100.64.0.1") ≡ false)
    × (is_remote_host (codes "1.2.3") ≡ false)
unfolding is_remote_host
remote_runs = (refl, refl, refl, refl, refl, refl, refl)

lease_runs :
    (lease_seconds (codes " 12h") ≡ some 43200)
    × (lease_seconds (codes "600") ≡ some 600)
    × (lease_seconds (codes "12x") ≡ none)
unfolding lease_seconds
lease_runs = (refl, refl, refl)

is_netmask-print_example :
    (is_netmask (print (address 255 255 254 0)) ≡ true)
    ↔ IsOnesFromTop (to_int (address 255 255 254 0))
is_netmask-print_example =
    is_netmask-print (address 255 255 254 0) (omega arith, omega arith, omega arith, omega arith)

is_remote_host-print_example :
    (is_remote_host (print (address 100 100 3 4)) ≡ true)
    ↔ (to_int (address 100 100 3 4) / 4194304 ≡ 401)
is_remote_host-print_example =
    is_remote_host-print (address 100 100 3 4) (omega arith, omega arith, omega arith, omega arith)

-- A network of 23 ones, and a range over both of its halves: the start is the lower address.
lan_errors-address_form_example :
    lan_errors (
      address_form
        (address 192 168 0 1)
        (address 255 255 254 0)
        (address 192 168 0 200)
        (address 192 168 1 10)
        (codes "12h"))
    ≡ (if ltb 10 200 then LanError.range_order ∷ [] else [])
unfolding to_int lease_seconds
lan_errors-address_form_example =
    lan_errors-address_form (address 192 168 0 1) (address 255 255 254 0) (address 192 168 0 200)
      (address 192 168 1 10) (codes "12h") (omega arith, omega arith, omega arith, omega arith)
      (omega arith, omega arith, omega arith, omega arith)
      (omega arith, omega arith, omega arith, omega arith)
      (omega arith, omega arith, omega arith, omega arith) (9, omega arith, refl) refl refl refl

abbrev old_form : LanForm
old_form = record {
  lan_ipaddr = codes "192.168.0.1";
  lan_netmask = codes "255.255.255.0";
  dhcp_enable = true;
  dhcp_start = codes "100";
  dhcp_end = codes "192.168.0.150";
  dhcp_lease_time = codes "12h";
}

abbrev new_form : LanForm
new_form = record old_form { lan_ipaddr = codes " 192.168.0.2"; dhcp_lease_time = codes "1d" }

abbrev new_body : LanForm
new_body = record new_form { lan_ipaddr = codes "192.168.0.2" }

abbrev asked : Pending
asked = record { tier = 2; body = new_body; described = describe false new_form old_form }

asked_run : ask_apply false false (some new_form) (some old_form) ≡ some asked
unfolding ask_apply
asked_run = refl
