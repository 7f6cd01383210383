-- ===== src/Scenario/Edits.antt =====
-- The writes of the scenario page, and the checks of the state that is read back
-- (web/src/app/(panel)/router/scenario/page.tsx).
use zte_u60_pro_mu5250_manag.Common.{
  ℕ, Bool, true, false, not, ◌&&◌, Option, none, some, List, [], ◌∷◌, ◌++◌, map, filter, any,
  if◌then◌else◌, bool_eq, length, ltb,
}
use zte_u60_pro_mu5250_manag.Common.Texts.{Text, text_eq, trim}
use zte_u60_pro_mu5250_manag.Scenario.Config.{
  SsidEntry, Detect, ScenarioDef, ScenarioConfig, ScenarioState, home_id, find_scenario, wifi_of,
  with_wifi, home_entries, same_ssid_entry,
}

pub data Section : Type 0 where
  engine pin setup home nearby abroad does timing : Section

-- The requests of a write. The template that is read is the body that is sent next.
pub data Step {ℓ} (N : Type ℓ) : Type ℓ where
  put_config : ScenarioConfig N → Step N
  put_enabled : Bool → Step N
  post_pin : Option Text → Step N
  read_template put_template : Step N

pub record Pending {ℓ} (N : Type ℓ) : Type ℓ where
  pub section : Section
  pub tier : ℕ
  pub steps : List (Step N)
  pub check : ScenarioState N → Bool

pub data Adding {ℓ} (N : Type ℓ) : Type ℓ where
  ignored already_listed : Adding N
  asked : Pending N → Adding N

unfoldable pub same_pin : Option Text → Option Text → Bool
unfolding text_eq
same_pin none none = true
same_pin (some a) (some b) = text_eq a b
same_pin _ _ = false

-- `{ ...s, detect: { type: "ssid", entries } }` of the home scenario.
unfoldable pub set_entries : List SsidEntry → ScenarioDef → ScenarioDef
unfolding text_eq
set_entries es s = if text_eq s.id home_id then record s { detect = Detect.ssid es } else s

-- `s.id === next.id ? next : s`.
unfoldable pub replace : ScenarioDef → ScenarioDef → ScenarioDef
unfolding text_eq
replace next s = if text_eq s.id next.id then next else s

-- `e.bssid ? { ssid, bssid } : { ssid }`.
abbrev pub given_bssid : Option Text → Option Text
given_bssid (some (c ∷ b)) = some (c ∷ b)
given_bssid _ = none

unfoldable pub new_entry : SsidEntry → SsidEntry
unfolding trim
new_entry e = record { ssid = trim e.ssid; bssid = given_bssid e.bssid }

abbrev pub is_no_text : Text → Bool
is_no_text [] = true
is_no_text (_ ∷ _) = false

abbrev pub is_on : Option Bool → Bool
is_on none = true
is_on (some b) = b

unfoldable pub wifi_is : Bool → Option ScenarioDef → Bool
unfolding wifi_of
wifi_is on none = false
wifi_is on (some s) = bool_eq (is_on (wifi_of s)) on

module _ {ℓ} {N : Type ℓ} where
  -- `withEntries`.
  unfoldable pub entries_with :
      List SsidEntry → ScenarioConfig N → Option ScenarioDef → Option (ScenarioConfig N)
  unfolding set_entries
  entries_with es cfg none = none
  entries_with es cfg (some _) =
      some (record cfg { scenarios = map (set_entries es) cfg.scenarios })

  unfoldable pub with_entries : ScenarioConfig N → List SsidEntry → Option (ScenarioConfig N)
  unfolding find_scenario set_entries entries_with
  with_entries cfg es = entries_with es cfg (find_scenario home_id cfg.scenarios)

  unfoldable pub ask_engine : Bool → Pending N
  ask_engine on = record {
    section = Section.engine;
    tier = 2;
    steps = Step.put_enabled on ∷ [];
    check = λ s. bool_eq s.enabled on;
  }

  unfoldable pub ask_pin : Option Text → Pending N
  unfolding same_pin
  ask_pin id = record {
    section = Section.pin;
    tier = 2;
    steps = Step.post_pin id ∷ [];
    check = λ s. same_pin s.pin id;
  }

  unfoldable pub ask_create_defaults : Pending N
  ask_create_defaults = record {
    section = Section.setup;
    tier = 2;
    steps = Step.read_template ∷ Step.put_template ∷ [];
    check = λ s. ltb 0 (length s.config.scenarios);
  }

  -- `editStep`.
  unfoldable pub edit_config : ScenarioDef → ScenarioConfig N → ScenarioConfig N
  unfolding replace
  edit_config next cfg = record cfg { scenarios = map (replace next) cfg.scenarios }

  unfoldable pub check_wifi : ScenarioDef → Bool → ScenarioState N → Bool
  unfolding find_scenario wifi_is
  check_wifi s on st = wifi_is on (find_scenario s.id st.config.scenarios)

  -- `askWifi`, on a page that is reached remotely or not.
  unfoldable pub ask_wifi : Bool → ScenarioConfig N → ScenarioDef → Bool → Pending N
  unfolding edit_config with_wifi check_wifi
  ask_wifi remote cfg s on = record {
    section = Section.does;
    tier = if not on && remote then 3 else 2;
    steps = Step.put_config (edit_config (with_wifi s on) cfg) ∷ [];
    check = check_wifi s on;
  }

-- The config that a write's steps put on the device, where `template` is what the device answers;
-- `held` is the last template that was read (`tplRef`).
unfoldable pub put_by {ℓ} :
    {N : Type ℓ}
    → ScenarioConfig N
    → Option (ScenarioConfig N)
    → List (Step N)
    → Option (ScenarioConfig N)
put_by template held [] = none
put_by template held (Step.put_config c ∷ steps) = some c
put_by template held (Step.put_enabled on ∷ steps) = put_by template held steps
put_by template held (Step.post_pin id ∷ steps) = put_by template held steps
put_by template held (Step.read_template ∷ steps) = put_by template (some template) steps
put_by template held (Step.put_template ∷ steps) = held

module _ (lower : Text → Text) where
  unfoldable pub is_listed : SsidEntry → List SsidEntry → Bool
  unfolding same_ssid_entry
  is_listed e es = any (λ x. same_ssid_entry lower x e) es

  unfoldable pub without : SsidEntry → List SsidEntry → List SsidEntry
  unfolding same_ssid_entry
  without e es = filter (λ x. not (same_ssid_entry lower x e)) es

module _ {ℓ} {N : Type ℓ} (lower : Text → Text) where
  unfoldable pub add_pending : SsidEntry → ScenarioConfig N → Pending N
  unfolding is_listed home_entries
  add_pending e next = record {
    section = Section.nearby;
    tier = 2;
    steps = Step.put_config next ∷ [];
    check = λ s. is_listed lower e (home_entries s.config);
  }

  abbrev pub adding_of : SsidEntry → Option (ScenarioConfig N) → Adding N
  adding_of e none = Adding.ignored
  adding_of e (some next) = Adding.asked (add_pending e next)

  -- `askAddEntry`.
  unfoldable pub ask_add_entry : ScenarioConfig N → SsidEntry → Adding N
  unfolding new_entry is_listed home_entries with_entries
  ask_add_entry cfg e =
      if is_no_text (new_entry e).ssid
      then Adding.ignored
      else if is_listed lower (new_entry e) (home_entries cfg)
      then Adding.already_listed
      else adding_of (new_entry e) (with_entries cfg (home_entries cfg ++ (new_entry e ∷ [])))

  unfoldable pub remove_pending : SsidEntry → ScenarioConfig N → Pending N
  unfolding is_listed home_entries
  remove_pending e next = record {
    section = Section.home;
    tier = 2;
    steps = Step.put_config next ∷ [];
    check = λ s. not (is_listed lower e (home_entries s.config));
  }

  abbrev pub removing_of : SsidEntry → Option (ScenarioConfig N) → Option (Pending N)
  removing_of e none = none
  removing_of e (some next) = some (remove_pending e next)

  -- `askRemoveEntry`.
  unfoldable pub ask_remove_entry : ScenarioConfig N → SsidEntry → Option (Pending N)
  unfolding without home_entries with_entries
  ask_remove_entry cfg e = removing_of e (with_entries cfg (without lower e (home_entries cfg)))
