-- ===== src/Tests/FirewallRuns.antt =====
-- Answers of the firewall (web/src/app/(panel)/router/firewall/normalize.ts).
use zte_u60_pro_mu5250_manag.Common.{
  refl, ◌↔◌, ◌++◌, ◌∷◌, ℕ, ◌≡◌, true, false, Option, none, some, String,
}
use zte_u60_pro_mu5250_manag.Common.Texts.{codes, decimal}
use zte_u60_pro_mu5250_manag.Firewall.Forms.{
  is_port, is_valid_ipv4, PfForm, AddError, AskedAdd, ask_add, AskedDmz, ask_dmz,
}
use zte_u60_pro_mu5250_manag.Firewall.Ports.{IsPortNumber, is_port-decimal}
use zte_u60_pro_mu5250_manag.Firewall.Json.{Json, Jsons, no_field, field, no_item, item}

abbrev same_text : String → String
same_text s = s

abbrev show_some : ℕ → String
show_some n = "8080"

abbrev whole_number : Json → Option ℕ
whole_number (Json.number n) = some n
whole_number v = none

abbrev upnp_answer : Json
upnp_answer = Json.object (
    field "enable_upnp" (Json.number 0)
      (field "notify_interval" (Json.number 30) (field "ttl" (Json.text "") no_field)))

abbrev one_rule : Jsons
one_rule = item (Json.object (field "id" (Json.number 3) no_field)) (item Json.null no_item)

-- The second number of a range can be the lower one.
port_runs :
    (is_port (codes "8000-8010") ≡ true)
    × (is_port (codes "8010-8000") ≡ true)
    × (is_port (codes "0") ≡ false)
    × (is_port (codes "65536") ≡ false)
    × (is_port (codes "1-2-3") ≡ false)
    × (is_valid_ipv4 (codes "192.168.0.7") ≡ true)
    × (is_valid_ipv4 (codes "192.168.0.256") ≡ false)
unfolding is_port is_valid_ipv4
port_runs = (refl, refl, refl, refl, refl, refl, refl)

is_port-decimal_example :
    ((is_port (decimal 9000) ≡ true) ↔ IsPortNumber 9000)
    × ((is_port (decimal 9000 ++ (45 ∷ decimal 80)) ≡ true) ↔ (IsPortNumber 9000 × IsPortNumber 80))
is_port-decimal_example = is_port-decimal 9000 80

abbrev pf_form : PfForm
pf_form = record {
  name = codes "web ";
  protocol = codes "TCP";
  wan = codes "80";
  lan_ip = codes " 192.168.0.7";
  lan_port = codes "8080";
  enabled = true;
}

add_runs :
    (ask_add pf_form
      ≡ AskedAdd.ready (record pf_form { name = codes "web"; lan_ip = codes "192.168.0.7" }))
    × (ask_add (record pf_form { lan_port = codes "x" }) ≡ AskedAdd.wrong AddError.invalid_port)
    × (ask_dmz true (codes "1.2.3") ≡ AskedDmz.invalid_dmz_ip)
unfolding ask_add ask_dmz
add_runs = (refl, refl, refl)
