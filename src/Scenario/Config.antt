-- ===== src/Scenario/Config.antt =====
-- The scenarios that the device keeps (web/src/lib/api/schemas/scenario.ts), and what the page reads
-- in them (web/src/app/(panel)/router/scenario/page.tsx). A number is of any type. A state has the
-- fields that the page decides with.
use zte_u60_pro_mu5250_manag.Common.{
  ℕ, Bool, true, not, ◌&&◌, Option, none, some, List, [], ◌∷◌, filter, if◌then◌else◌,
}
use zte_u60_pro_mu5250_manag.Common.Texts.{Text, codes, text_eq}
use zte_u60_pro_mu5250_manag.Firewall.Json.{Json, Fields, no_field, field, get}

pub record ScenarioParams {ℓ} (N : Type ℓ) : Type ℓ where
  pub scan_interval_home_secs : N
  pub scan_interval_away_battery_secs : N
  pub scan_interval_away_charging_secs : N
  pub enter_hits : N
  pub exit_misses : N
  pub min_rssi_dbm : N

pub record SsidEntry : Type 0 where
  pub ssid : Text
  pub bssid : Option Text

pub data Detect : Type 0 where
  ssid : List SsidEntry → Detect
  mcc : List Text → Detect
  abroad fallback : Detect

pub record FieldCheck : Type 0 where
  pub path : Text
  pub pointer : Text
  pub equals : Json

pub record RestoreOnExit : Type 0 where
  pub read_path : Text
  pub read_pointer : Text
  pub restored_field : Text

pub record ScenarioAction : Type 0 where
  pub method : Text
  pub path : Text
  pub body : Option Fields
  pub snapshot : Option (List Text)
  pub verify_job : Option Text
  pub verify_field : Option FieldCheck
  pub best_effort : Option Bool
  pub restore_on_exit : Option RestoreOnExit

pub record ScenarioDef : Type 0 where
  pub id : Text
  pub name : Text
  pub detect : Detect
  pub actions : List ScenarioAction
  pub inhibit_sleep : Bool

pub record ScenarioConfig {ℓ} (N : Type ℓ) : Type ℓ where
  pub version : ℕ
  pub home_mcc : Text
  pub params : ScenarioParams N
  pub scenarios : List ScenarioDef

pub record ScenarioState {ℓ} (N : Type ℓ) : Type ℓ where
  pub enabled : Bool
  pub pin : Option Text
  pub guard_takeover : Bool
  pub current : Text
  pub candidate : Text
  pub hits : ℕ
  pub last_error : Option Text
  pub config : ScenarioConfig N

abbrev pub home_id : Text
home_id = codes "home"

abbrev pub wifi_path : Text
wifi_path = codes "/api/wifi/radio"

-- `find`, by the id.
unfoldable pub find_scenario : Text → List ScenarioDef → Option ScenarioDef
unfolding text_eq
find_scenario id [] = none
find_scenario id (s ∷ ss) = if text_eq s.id id then some s else find_scenario id ss

unfoldable pub is_wifi : ScenarioAction → Bool
unfolding text_eq
is_wifi a = text_eq a.path wifi_path

unfoldable pub find_wifi : List ScenarioAction → Option ScenarioAction
unfolding is_wifi
find_wifi [] = none
find_wifi (a ∷ bs) = if is_wifi a then some a else find_wifi bs

-- `v !== false`.
abbrev pub is_not_false : Json → Bool
is_not_false (Json.bool b) = b
is_not_false _ = true

unfoldable pub ap_2g_on : Option Fields → Bool
unfolding get
ap_2g_on none = true
ap_2g_on (some body) = is_not_false (get body "ap_2g")

unfoldable pub wifi_in : Option ScenarioAction → Option Bool
unfolding ap_2g_on
wifi_in none = none
wifi_in (some a) = some (ap_2g_on a.body)

-- `wifiOf`.
unfoldable pub wifi_of : ScenarioDef → Option Bool
unfolding find_wifi wifi_in
wifi_of s = wifi_in (find_wifi s.actions)

abbrev pub wifi_action : Bool → ScenarioAction
wifi_action on = record {
  method = codes "PUT";
  path = wifi_path;
  body = some (field "ap_2g" (Json.bool on) (field "ap_5g" (Json.bool on) no_field));
  snapshot = some (codes "wireless.main_2g.disabled" ∷ codes "wireless.main_5g.disabled" ∷ []);
  verify_job = none;
  verify_field = none;
  best_effort = none;
  restore_on_exit = none;
}

-- `withWifi`: the Wi-Fi action first, then the others.
unfoldable pub with_wifi : ScenarioDef → Bool → ScenarioDef
unfolding is_wifi
with_wifi s on = record s { actions = wifi_action on ∷ filter (λ a. not (is_wifi a)) s.actions }

abbrev pub entries_in : Detect → List SsidEntry
entries_in (Detect.ssid es) = es
entries_in _ = []

-- `entriesOf`.
unfoldable pub entries_of : Option ScenarioDef → List SsidEntry
entries_of none = []
entries_of (some s) = entries_in s.detect

-- `b ?? ""`.
abbrev pub or_empty : Option Text → Text
or_empty none = []
or_empty (some b) = b

-- `sameEntry`, with the lower case of a text.
unfoldable pub same_ssid_entry : (Text → Text) → SsidEntry → SsidEntry → Bool
unfolding text_eq
same_ssid_entry lower a b =
    text_eq a.ssid b.ssid && text_eq (lower (or_empty a.bssid)) (lower (or_empty b.bssid))

-- `homeEntries`.
unfoldable pub home_entries {ℓ} : {N : Type ℓ} → ScenarioConfig N → List SsidEntry
unfolding entries_of find_scenario
home_entries cfg = entries_of (find_scenario home_id cfg.scenarios)
