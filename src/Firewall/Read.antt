-- ===== src/Firewall/Read.antt =====
-- What the firewall page reads back (web/src/app/(panel)/router/firewall/normalize.ts).
use zte_u60_pro_mu5250_manag.Common.{ℕ, ◌≡◌, refl, Option, none, some, [], String, arith}
use zte_u60_pro_mu5250_manag.Firewall.Json.{Json, Jsons, Fields, no_field, field}
use zte_u60_pro_mu5250_manag.Firewall.Normalize.{UpnpBody, normalize_port_forward}

abbrev optional : String → Option ℕ → Fields → Fields
optional k none o = o
optional k (some n) o = field k (Json.number n) o

-- A device that has taken a body answers with these values.
abbrev pub stored : UpnpBody → Json
stored b = Json.object (
    field "enable_upnp" (Json.number b.enable_upnp) (
      optional "notify_interval" b.notify_interval
        (optional "ttl" b.ttl (optional "enable_natpmp" b.natpmp no_field))))

abbrev answer : ℕ → Option ℕ → Option ℕ → Option ℕ → UpnpBody
answer e i t n = record { enable_upnp = e; notify_interval = i; ttl = t; natpmp = n }

module _ (lower : String → String) (show : ℕ → String) (number_of : Json → Option ℕ) where
  -- The rules are the same whether the device answers with a bare array, with `rule_list`, or with
  -- an object whose only field is the array, and there are none in an empty object.
  pub normalize_port_forward-shapes :
      (vs : Jsons) (k : String) (o : Fields)
      → (normalize_port_forward lower show number_of
            (Json.object (field "rule_list" (Json.array vs) o))
          ≡ normalize_port_forward lower show number_of (Json.array vs))
        × (normalize_port_forward lower show number_of
              (Json.object (field k (Json.array vs) no_field))
            ≡ normalize_port_forward lower show number_of (Json.array vs))
        × (normalize_port_forward lower show number_of (Json.object no_field) ≡ some [])
  unfolding normalize_port_forward
  normalize_port_forward-shapes vs k o = (refl, ground arith, refl)
