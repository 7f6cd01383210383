-- ===== src/Tests/ScenarioRuns.antt =====
-- Scenarios (web/src/app/(panel)/router/scenario/page.tsx).
use zte_u60_pro_mu5250_manag.Common.{
  ℕ, ◌≡◌, ◌≤◌, length, arith, refl, Bool, true, false, Option, some, none, [], ◌∷◌, ◌++◌, ltb, ◌==◌,
}
use zte_u60_pro_mu5250_manag.Common.Texts.{Text, codes, number, decimal, trim}
use zte_u60_pro_mu5250_manag.Common.Decimal.{trim-decimal, decimal_not_empty}
use zte_u60_pro_mu5250_manag.Scenario.Config.{
  SsidEntry, Detect, ScenarioDef, ScenarioParams, ScenarioConfig, ScenarioState, home_entries,
  home_id,
}
use zte_u60_pro_mu5250_manag.Scenario.Edits.{
  put_by, ask_create_defaults, Step, Pending, Adding, ask_add_entry, ask_wifi, add_pending,
  new_entry, is_listed, is_no_text,
}
use zte_u60_pro_mu5250_manag.Scenario.Home.{Sends, ask_add_entry-Sends}
use zte_u60_pro_mu5250_manag.Scenario.Reach.{FromFirst, Change, Reach, Edit, IsSound, Reach-IsSound}

abbrev no_case : Text → Text
no_case t = t

abbrev network : SsidEntry
network = record { ssid = codes "Flat"; bssid = some (codes "aa:bb") }

abbrev other_network : SsidEntry
other_network = record { ssid = codes " Office "; bssid = none }

abbrev at_home : ScenarioDef
at_home = record {
  id = home_id;
  name = codes "Home";
  detect = Detect.ssid (network ∷ []);
  actions = [];
  inhibit_sleep = false;
}

abbrev away : ScenarioDef
away = record {
  id = codes "away";
  name = codes "Away";
  detect = Detect.fallback;
  actions = [];
  inhibit_sleep = false;
}

abbrev params : ScenarioParams ℕ
params = record {
  scan_interval_home_secs = 60;
  scan_interval_away_battery_secs = 120;
  scan_interval_away_charging_secs = 30;
  enter_hits = 2;
  exit_misses = 3;
  min_rssi_dbm = 70;
}

abbrev config : ScenarioConfig ℕ
config = record {
  version = 1;
  home_mcc = codes "460";
  params = params;
  scenarios = at_home ∷ away ∷ [];
}

abbrev state : ScenarioState ℕ
state = record {
  enabled = true;
  pin = none;
  guard_takeover = false;
  current = codes "away";
  candidate = codes "away";
  hits = 0;
  last_error = none;
  config = config;
}

abbrev with_office : ScenarioConfig ℕ
with_office = record config {
  scenarios =
      record at_home {
        detect = Detect.ssid (network ∷ record { ssid = codes "Office"; bssid = none } ∷ []);
      }
      ∷ away
      ∷ [];
}

abbrev office_pending : Pending ℕ
office_pending = add_pending no_case (new_entry other_network) with_office

add_run : ask_add_entry no_case config other_network ≡ Adding.asked office_pending
unfolding ask_add_entry add_pending
add_run = refl

add_again_run : ask_add_entry no_case config network ≡ Adding.already_listed
unfolding ask_add_entry
add_again_run = refl

ask_add_entry-Sends_example :
    Sends no_case config
      (home_entries config ++ (new_entry other_network ∷ []))
      office_pending
      state
ask_add_entry-Sends_example =
    ask_add_entry-Sends no_case config other_network office_pending state add_run

config-IsSound : IsSound no_case config config
unfolding home_entries is_listed
config-IsSound = ((refl, tt), (refl, (refl, tt)), ((λ h. absurd cc), ((λ h. refl), tt)))

office_step : office_pending.steps ≡ Step.put_config with_office ∷ []
unfolding add_pending
office_step = refl

wifi_step :
    (ask_wifi true with_office
      (record at_home {
        detect = Detect.ssid (network ∷ record { ssid = codes "Office"; bssid = none } ∷ []);
      })
      false).tier
    ≡ 3
unfolding ask_wifi
wifi_step = refl

-- A device that has no scenarios yet, and whose template is the config above.
abbrev not_set_up : ScenarioConfig ℕ
not_set_up = record config { scenarios = [] }

not_set_up-IsSound : IsSound no_case config not_set_up
unfolding home_entries
not_set_up-IsSound = (tt, tt, tt)

defaults_run : put_by config none ask_create_defaults.steps ≡ some config
unfolding put_by ask_create_defaults
defaults_run = refl

office_reached : Reach no_case config not_set_up with_office
office_reached =
    Reach.step (Reach.step Reach.here (Edit.defaults refl defaults_run))
      (Edit.changes (Change.add other_network office_pending add_run office_step))

Reach-IsSound_example :
    IsSound no_case config with_office × FromFirst no_case config not_set_up with_office
Reach-IsSound_example =
    Reach-IsSound no_case config not_set_up with_office not_set_up-IsSound config-IsSound
      office_reached

abbrev below_one : ℕ → Bool
below_one n = ltb n 1

abbrev same_number : ℕ → ℕ → Bool
same_number a b = a == b

abbrev read_number : Text → Option ℕ
read_number t = some (number t)

shown_number : (n : ℕ) → is_no_text (trim (decimal n)) ≡ false
shown_number n = rw (trim-decimal n) (not_empty (decimal n) (decimal_not_empty n))
  where
    not_empty : (t : Text) → 1 ≤ length t → is_no_text t ≡ false
    not_empty [] h = absurd (omega arith)
    not_empty (c ∷ t) h = refl

abbrev shown_as : ScenarioDef → Text
shown_as s = s.name
