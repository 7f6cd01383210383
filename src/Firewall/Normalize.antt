-- ===== src/Firewall/Normalize.antt =====
-- The switches and rules of web/src/app/(panel)/router/firewall/normalize.ts. What JavaScript's
-- texts and numbers do is a parameter: `lower` is `trim().toLowerCase()`, `show` is `String` of a
-- number and `number_of` is `Number`, none where that is not finite.
use zte_u60_pro_mu5250_manag.Common.{
  ℕ, Bool, true, false, ◌||◌, Option, none, some, List, [], ◌∷◌, String, if◌then◌else◌, ◌==◌,
  str_eq, map,
}
use zte_u60_pro_mu5250_manag.Firewall.Json.{Json, Fields, get, pick, as_object, rule_list}

pub data Level : Type 0 where
  low medium high : Level

pub record FirewallState : Type 0 where
  pub enabled : Option Bool
  pub level : Option Level
  pub level_raw : Option String
  pub nat : Option Bool
  pub dmz : Option Bool
  pub dmz_ip : Option String
  pub port_forward : Option Bool
  pub wan_ping : Option Bool
  pub wan_ping_filter : Option Bool
  pub remote_web : Option Bool

pub record UpnpBody : Type 0 where
  pub enable_upnp : ℕ
  pub notify_interval : Option ℕ
  pub ttl : Option ℕ
  pub natpmp : Option ℕ

pub record PfRule : Type 0 where
  pub id : Option String
  pub name : Option String
  pub protocol : Option String
  pub wan_port : Option String
  pub lan_ip : Option String
  pub lan_port : Option String
  pub enabled : Option Bool

pub record FilterRule : Type 0 where
  pub id : Option String
  pub name : Option String
  pub protocol : Option String
  pub src_mac : Option String
  pub src_ip : Option String
  pub src_port : Option String
  pub dst_ip : Option String
  pub dst_port : Option String
  pub action : Option String
  pub enabled : Option Bool

-- The words for on and off, in lower case.
unfoldable pub tri_text : String → Option Bool
tri_text s =
    if str_eq s "1" || (str_eq s "true" || (str_eq s "on" || str_eq s "yes"))
    then some true
    else if str_eq s "0" || (str_eq s "false" || (str_eq s "off" || str_eq s "no"))
    then some false
    else none

unfoldable pub tri_number : ℕ → Option Bool
tri_number n = if n == 1 then some true else if n == 0 then some false else none

-- `lv === "low" || …`.
unfoldable pub level_of : String → Option Level
level_of s =
    if str_eq s "low"
    then some Level.low
    else if str_eq s "medium"
    then some Level.medium
    else if str_eq s "high"
    then some Level.high
    else none

abbrev pub non_empty_text : String → Option String
non_empty_text s = if str_eq s "" then none else some s

-- `??`.
abbrev pub or_else : Option Bool → Option Bool → Option Bool
or_else none b = b
or_else (some a) b = some a

module _ (lower : String → String) (show : ℕ → String) (number_of : Json → Option ℕ) where
  -- `tri`: unknown for a missing or another value.
  unfoldable pub tri : Json → Option Bool
  unfolding tri_text tri_number
  tri (Json.bool b) = some b
  tri (Json.number n) = tri_number n
  tri (Json.text s) = tri_text (lower s)
  tri _ = none

  -- `str`.
  unfoldable pub str : Json → Option String
  str (Json.text s) = some s
  str (Json.number n) = some (show n)
  str _ = none

  abbrev pub lowered : Option String → Option String
  lowered none = none
  lowered (some s) = some (lower s)

  abbrev pub raw_level : Option String → Option Level → Option String
  raw_level none l = none
  raw_level (some s) none = non_empty_text s
  raw_level (some s) (some l) = none

  abbrev pub known_level : Option String → Option Level
  known_level none = none
  known_level (some s) = level_of s

  -- `normalizeFirewall`.
  unfoldable pub normalize_firewall : Json → FirewallState
  unfolding tri str pick level_of
  normalize_firewall d =
      let o = as_object d in
      let lv = lowered (str (pick o ("level" ∷ "firewall_level" ∷ []))) in
      record {
        enabled = tri (pick o ("firewall_enable" ∷ "firewall_switch" ∷ []));
        level = known_level lv;
        level_raw = raw_level lv (known_level lv);
        nat = tri (pick o ("nat_enable" ∷ "nat_switch" ∷ []));
        dmz = tri (pick o ("dmz_enable" ∷ "dmz_enabled" ∷ []));
        dmz_ip = str (pick o ("dmz_ip" ∷ "dmz_hostname" ∷ []));
        port_forward = tri (pick o ("portforward_enable" ∷ "port_forward_switch" ∷ []));
        wan_ping = tri (pick o ("wan_ping_enable" ∷ []));
        wan_ping_filter = tri (pick o ("wan_ping_filter" ∷ []));
        remote_web = tri (pick o ("remote_web_access_enable" ∷ []));
      }

  -- `normalizeUpnp`.
  unfoldable pub normalize_upnp : Json → Option Bool
  unfolding tri pick
  normalize_upnp d =
      let o = as_object d in
      or_else (tri (pick o ("enable_upnp" ∷ []))) (tri (pick o ("upnp_switch" ∷ [])))

  -- `num` of `upnpBody`.
  unfoldable pub num : Json → Option ℕ
  num Json.absent = none
  num Json.null = none
  num (Json.text s) = if str_eq s "" then none else number_of (Json.text s)
  num v = number_of v

  abbrev pub field_of : Option Fields → String → Json
  field_of none k = Json.absent
  field_of (some o) k = get o k

  -- `upnpBody`.
  unfoldable pub upnp_body : Json → Bool → UpnpBody
  unfolding num get
  upnp_body d on =
      let o = as_object d in
      record {
        enable_upnp = if on then 1 else 0;
        notify_interval = num (field_of o "notify_interval");
        ttl = num (field_of o "ttl");
        natpmp = num (field_of o "enable_natpmp");
      }

  unfoldable pub pf_rule : Fields → PfRule
  unfolding str tri get
  pf_rule r = record {
    id = str (get r "id");
    name = str (get r "name");
    protocol = str (get r "protocol");
    wan_port = str (get r "wan_port");
    lan_ip = str (get r "lan_ip");
    lan_port = str (get r "lan_port");
    enabled = tri (get r "enabled");
  }

  unfoldable pub filter_rule : Fields → FilterRule
  unfolding str tri get pick
  filter_rule r = record {
    id = str (get r "id");
    name = str (get r "name");
    protocol = str (get r "protocol");
    src_mac = str (get r "src_mac");
    src_ip = str (get r "src_ip");
    src_port = str (get r "src_port");
    dst_ip = str (pick (some r) ("dst_ip" ∷ "dest_ip" ∷ []));
    dst_port = str (pick (some r) ("dst_port" ∷ "dest_port" ∷ []));
    action = str (get r "action");
    enabled = tri (get r "enabled");
  }

  abbrev pub map_rules : {A : Type 0} → (Fields → A) → Option (List Fields) → Option (List A)
  map_rules f none = none
  map_rules f (some rs) = some (map f rs)

  -- `normalizePortForward`.
  unfoldable pub normalize_port_forward : Json → Option (List PfRule)
  unfolding rule_list pf_rule
  normalize_port_forward d = map_rules pf_rule (rule_list d)

  -- `normalizeFilterRules`.
  unfoldable pub normalize_filter_rules : Json → Option (List FilterRule)
  unfolding rule_list filter_rule
  normalize_filter_rules d = map_rules filter_rule (rule_list d)
