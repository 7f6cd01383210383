-- ===== src/Lan/Apply.antt =====
-- One Apply of the LAN page: the body that it sends, what it tells before, and the check of what the
-- device says afterwards (web/src/app/(panel)/router/lan/page.tsx).
use zte_u60_pro_mu5250_manag.Common.{
  ℕ, ◌==◌, Bool, true, false, ◌&&◌, ◌||◌, not, Option, none, some, List, [], ◌∷◌, ◌++◌,
  if◌then◌else◌, bool_eq, get_or_else,
}
use zte_u60_pro_mu5250_manag.Common.Texts.{Text, text_eq, trim, codes}
use zte_u60_pro_mu5250_manag.Lan.Form.{
  LanForm, RouterLan, host_of, lease_seconds, is_one, lan_errors, no_errors,
}

abbrev pub same_lease : Option ℕ → Option ℕ → Bool
same_lease none none = true
same_lease none (some n) = false
same_lease (some m) none = false
same_lease (some m) (some n) = m == n

-- `readbackMatches`.
unfoldable pub readback_matches : LanForm → RouterLan → Bool
unfolding text_eq trim host_of lease_seconds
readback_matches sent d =
    text_eq (get_or_else d.lan_ipaddr []) (trim sent.lan_ipaddr)
    && text_eq (get_or_else d.lan_netmask []) (trim sent.lan_netmask)
    && bool_eq (is_one d.dhcp_enable) sent.dhcp_enable
    && (not sent.dhcp_enable
        || (text_eq (host_of (get_or_else d.dhcp_start [])) (host_of sent.dhcp_start)
            && text_eq (host_of (get_or_else d.dhcp_end [])) (host_of sent.dhcp_end)
            && same_lease (lease_seconds (get_or_else d.dhcp_lease_time []))
                (lease_seconds sent.dhcp_lease_time)))

-- `changed`: whether any of the six fields differs.
unfoldable pub is_changed : LanForm → LanForm → Bool
unfolding text_eq
is_changed f b =
    not (text_eq f.lan_ipaddr b.lan_ipaddr)
    || not (text_eq f.lan_netmask b.lan_netmask)
    || not (bool_eq f.dhcp_enable b.dhcp_enable)
    || not (text_eq f.dhcp_start b.dhcp_start)
    || not (text_eq f.dhcp_end b.dhcp_end)
    || not (text_eq f.dhcp_lease_time b.dhcp_lease_time)

-- `adminUrl`.
unfoldable pub admin_url : Text → Text
unfolding trim
admin_url ip = codes "http://" ++ (trim ip ++ codes ":9090")

-- The sentences of a confirmation, with the texts that they name.
pub data Line : Type 0 where
  new_ip : Text → Text → Line
  new_mask : Text → Line
  dhcp_off dhcp_on restart : Line
  range : Text → Text → Text → Line

pub data Recovery : Type 0 where
  open_new : Text → Recovery
  reload_same : Recovery

pub record Described : Type 0 where
  pub consequence : List Line
  pub recovery : Recovery
  pub new_ip : Option Text
  pub expect_down : Bool

abbrev pub line_if : Bool → Line → List Line
line_if b l = if b then l ∷ [] else []

-- `describe`; `remote` is `isRemoteAccess()`.
unfoldable pub describe : Bool → LanForm → LanForm → Described
unfolding text_eq trim admin_url
describe remote f b =
    let ip_changed = not (text_eq (trim f.lan_ipaddr) b.lan_ipaddr) in
    let ip = trim f.lan_ipaddr in
    let range_changed =
      not (text_eq f.dhcp_start b.dhcp_start)
      || not (text_eq f.dhcp_end b.dhcp_end)
      || not (text_eq f.dhcp_lease_time b.dhcp_lease_time) in
    record {
      consequence =
          line_if ip_changed (Line.new_ip ip (admin_url ip))
          ++ (line_if (not (text_eq f.lan_netmask b.lan_netmask))
                (Line.new_mask (trim f.lan_netmask))
              ++ (line_if (not (bool_eq f.dhcp_enable b.dhcp_enable))
                    (if f.dhcp_enable then Line.dhcp_on else Line.dhcp_off)
                  ++ (line_if (f.dhcp_enable && range_changed)
                        (Line.range (trim f.dhcp_start) (trim f.dhcp_end) (trim f.dhcp_lease_time))
                      ++ (Line.restart ∷ []))));
      recovery = if ip_changed then Recovery.open_new (admin_url ip) else Recovery.reload_same;
      new_ip = if ip_changed then some ip else none;
      expect_down = ip_changed && not remote;
    }

pub record Pending : Type 0 where
  pub tier : ℕ
  pub body : LanForm
  pub described : Described

-- `askApply`: the form and the values it was seeded with are there once the device has answered.
unfoldable pub ask_apply : Bool → Bool → Option LanForm → Option LanForm → Option Pending
unfolding is_changed lan_errors trim describe
ask_apply busy remote none base = none
ask_apply busy remote (some f) none = none
ask_apply busy remote (some f) (some b) =
    if busy || not (is_changed f b) || not (no_errors (lan_errors f))
    then none
    else some (record {
      tier = if remote then 3 else 2;
      body = record f { lan_ipaddr = trim f.lan_ipaddr; lan_netmask = trim f.lan_netmask };
      described = describe remote f b;
    })
