-- ===== src/Lan/Form.antt =====
-- The form of the LAN page and its checks (web/src/app/(panel)/router/lan/page.tsx).
use Prim.Native.Nat.{bit_and}
use zte_u60_pro_mu5250_manag.Common.{
  ℕ, ◌*◌, Bool, true, false, ◌&&◌, ◌||◌, Option, none, some, List, [], ◌∷◌, ◌++◌, if◌then◌else◌,
  ltb, ◌==◌, get_or_else, is_some,
}
use zte_u60_pro_mu5250_manag.Common.Texts.{
  Text, text_eq, trim, is_digit, is_digits, number, decimal, codes,
}
use zte_u60_pro_mu5250_manag.Net.Ipv4.{Octets, parse_typed, to_int}
use zte_u60_pro_mu5250_manag.Net.Mask.{is_netmask}

-- `dhcp_enable` is "1" where it is true.
pub record LanForm : Type 0 where
  pub lan_ipaddr : Text
  pub lan_netmask : Text
  pub dhcp_enable : Bool
  pub dhcp_start : Text
  pub dhcp_end : Text
  pub dhcp_lease_time : Text

-- An answer of the device, where any field can be missing.
pub record RouterLan : Type 0 where
  pub lan_ipaddr : Option Text
  pub lan_netmask : Option Text
  pub dhcp_enable : Option Text
  pub dhcp_start : Option Text
  pub dhcp_end : Option Text
  pub dhcp_lease_time : Option Text

-- `hostOf`.
abbrev pub host_or : Text → Option Octets → Text
host_or v none = v
host_or v (some o) = decimal o.d

unfoldable pub host_of : Text → Text
unfolding trim is_digits number decimal parse_typed
host_of s =
    if is_digits 1 3 (trim s)
    then decimal (number (trim s))
    else host_or (trim s) (parse_typed (trim s))

-- `leaseSeconds`: the digits in front, and the unit behind them.
unfoldable pub lead_digits : Text → Text
unfolding is_digit
lead_digits [] = []
lead_digits (c ∷ s) = if is_digit c then c ∷ lead_digits s else []

unfoldable pub after_digits : Text → Text
unfolding is_digit
after_digits [] = []
after_digits (c ∷ s) = if is_digit c then after_digits s else c ∷ s

unfoldable pub unit_seconds : Text → Option ℕ
unit_seconds [] = some 1
unit_seconds (c ∷ []) =
    if c == 115
    then some 1
    else if c == 109
    then some 60
    else if c == 104
    then some 3600
    else if c == 100
    then some 86400
    else if c == 119
    then some 604800
    else none
unit_seconds (c ∷ d ∷ s) = none

abbrev pub lease_of : Text → Option ℕ → Option ℕ
lease_of [] unit = none
lease_of (c ∷ s) none = none
lease_of (c ∷ s) (some seconds) = some (number (c ∷ s) * seconds)

unfoldable pub lease_seconds : Text → Option ℕ
unfolding trim lead_digits after_digits unit_seconds number
lease_seconds s = lease_of (lead_digits (trim s)) (unit_seconds (after_digits (trim s)))

abbrev pub is_one : Option Text → Bool
is_one none = false
is_one (some s) = text_eq s (codes "1")

-- `seed`.
unfoldable pub seed : RouterLan → LanForm
unfolding text_eq
seed d = record {
  lan_ipaddr = get_or_else d.lan_ipaddr [];
  lan_netmask = get_or_else d.lan_netmask [];
  dhcp_enable = is_one d.dhcp_enable;
  dhcp_start = get_or_else d.dhcp_start [];
  dhcp_end = get_or_else d.dhcp_end [];
  dhcp_lease_time = get_or_else d.dhcp_lease_time [];
}

pub data Which : Type 0 where
  start_address end_address : Which

pub data LanError : Type 0 where
  invalid_ip invalid_netmask invalid_lease range_order : LanError
  range_host range_format : Which → LanError
  range_subnet : Which → Text → LanError

abbrev pub is_positive : Option ℕ → Bool
is_positive none = false
is_positive (some n) = ltb 0 n

abbrev pub same_network : Octets → Octets → Octets → Bool
same_network m o i = bit_and (to_int o) (to_int m) == bit_and (to_int i) (to_int m)

-- `endpoint` of an address that is read: it is compared where the LAN's address and netmask are read.
abbrev pub subnet_errors : Option Octets → Option Octets → Which → Text → Octets → List LanError
subnet_errors (some i) (some m) which v o =
    if same_network m o i then [] else LanError.range_subnet which v ∷ []
subnet_errors ip mask which v o = []

abbrev pub address_errors :
    Option Octets → Option Octets → Which → Text → Option Octets → List LanError
address_errors ip mask which v none = LanError.range_format which ∷ []
address_errors ip mask which v (some o) = subnet_errors ip mask which v o

-- `endpoint`; `mask` is the netmask where it is a valid one.
unfoldable pub endpoint : Option Octets → Option Octets → Which → Text → List LanError
unfolding trim is_digits number parse_typed
endpoint ip mask which s =
    let v = trim s in
    if is_digits 1 3 v
    then (if ltb (number v) 1 || ltb 254 (number v) then LanError.range_host which ∷ [] else [])
    else address_errors ip mask which v (parse_typed v)

abbrev pub no_errors : List LanError → Bool
no_errors [] = true
no_errors (e ∷ es) = false

-- `errs` before the order of the range is looked at.
unfoldable pub field_errors : LanForm → List LanError
unfolding parse_typed is_netmask lease_seconds endpoint
field_errors f =
    let ip = parse_typed f.lan_ipaddr in
    let mask_ok = is_netmask f.lan_netmask in
    let mask = if mask_ok then parse_typed f.lan_netmask else none in
    let lease =
      if is_positive (lease_seconds f.dhcp_lease_time) then [] else LanError.invalid_lease ∷ [] in
    (if is_some ip then [] else LanError.invalid_ip ∷ [])
    ++ ((if mask_ok then [] else LanError.invalid_netmask ∷ [])
        ++ (if f.dhcp_enable
            then lease
              ++ (endpoint ip mask Which.start_address f.dhcp_start
                  ++ endpoint ip mask Which.end_address f.dhcp_end)
            else []))

-- `errs`.
unfoldable pub lan_errors : LanForm → List LanError
unfolding field_errors host_of number
lan_errors f =
    let errs = field_errors f in
    if f.dhcp_enable
      && no_errors errs
      && ltb (number (host_of f.dhcp_end)) (number (host_of f.dhcp_start))
    then LanError.range_order ∷ []
    else errs
