-- ===== src/Scenario/Timing.antt =====
-- The timing form of the scenario page (web/src/app/(panel)/router/scenario/page.tsx). A number is of
-- any type: `show` stands for `String(n)`, and `number_of` for `Number(text)` where that is finite.
use zte_u60_pro_mu5250_manag.Common.{
  ◌≡◌, refl, Bool, false, ◌&&◌, ◌||◌, Option, none, some, [], ◌∷◌, if◌then◌else◌,
}
use zte_u60_pro_mu5250_manag.Common.Texts.{Text, trim}
use zte_u60_pro_mu5250_manag.Scenario.Config.{ScenarioParams, ScenarioConfig}
use zte_u60_pro_mu5250_manag.Scenario.Edits.{Section, Step, Pending, is_no_text}

pub data Timing {ℓ} (N : Type ℓ) : Type ℓ where
  bad_number min_one : Timing N
  asked : Pending N → Timing N

abbrev pub map_params {ℓ κ} :
    {A : Type ℓ} {B : Type κ} → (A → B) → ScenarioParams A → ScenarioParams B
map_params f p = record {
  scan_interval_home_secs = f p.scan_interval_home_secs;
  scan_interval_away_battery_secs = f p.scan_interval_away_battery_secs;
  scan_interval_away_charging_secs = f p.scan_interval_away_charging_secs;
  enter_hits = f p.enter_hits;
  exit_misses = f p.exit_misses;
  min_rssi_dbm = f p.min_rssi_dbm;
}

-- The six values, where each is there.
abbrev pub given_values {ℓ} :
    {N : Type ℓ}
    → Option N
    → Option N
    → Option N
    → Option N
    → Option N
    → Option N
    → Option (ScenarioParams N)
given_values (some charging) (some battery) (some home) (some hits) (some misses) (some rssi) =
    some (record {
      scan_interval_home_secs = home;
      scan_interval_away_battery_secs = battery;
      scan_interval_away_charging_secs = charging;
      enter_hits = hits;
      exit_misses = misses;
      min_rssi_dbm = rssi;
    })
given_values _ _ _ _ _ _ = none

abbrev pub all_given {ℓ} : {N : Type ℓ} → ScenarioParams (Option N) → Option (ScenarioParams N)
all_given p =
    given_values p.scan_interval_away_charging_secs p.scan_interval_away_battery_secs
      p.scan_interval_home_secs p.enter_hits p.exit_misses p.min_rssi_dbm

module _ {ℓ} {N : Type ℓ} (same : N → N → Bool) where
  unfoldable pub same_params : ScenarioParams N → ScenarioParams N → Bool
  same_params p q =
      same p.scan_interval_away_charging_secs q.scan_interval_away_charging_secs
      && same p.scan_interval_away_battery_secs q.scan_interval_away_battery_secs
      && same p.scan_interval_home_secs q.scan_interval_home_secs
      && same p.enter_hits q.enter_hits
      && same p.exit_misses q.exit_misses
      && same p.min_rssi_dbm q.min_rssi_dbm

  unfoldable pub timing_pending : ScenarioConfig N → ScenarioParams N → Pending N
  unfolding same_params
  timing_pending cfg p = record {
    section = Section.timing;
    tier = 2;
    steps = Step.put_config (record cfg { params = p }) ∷ [];
    check = λ s. same_params s.config.params p;
  }

module _ {ℓ} {N : Type ℓ} (number_of : Text → Option N) where
  -- `Number(text)`, or NaN of a blank text.
  unfoldable pub value_of : Text → Option N
  unfolding trim
  value_of text = if is_no_text (trim text) then none else number_of text

module _ {ℓ} {N : Type ℓ} (number_of : Text → Option N) (below_one : N → Bool)
    (same : N → N → Bool) where
  abbrev pub timing_of : ScenarioConfig N → Option (ScenarioParams N) → Timing N
  timing_of cfg none = Timing.bad_number
  timing_of cfg (some p) =
      if below_one p.enter_hits || below_one p.exit_misses
      then Timing.min_one
      else Timing.asked (timing_pending same cfg p)

  -- `askParams`.
  unfoldable pub ask_params : ScenarioConfig N → ScenarioParams Text → Timing N
  unfolding value_of
  ask_params cfg form = timing_of cfg (all_given (map_params (value_of number_of) form))

-- The form of the device's numbers, where there is no draft.
module _ {ℓ} {N : Type ℓ} (show : N → Text) where
  unfoldable pub form_of : Option (ScenarioParams Text) → ScenarioConfig N → ScenarioParams Text
  form_of none cfg = map_params show cfg.params
  form_of (some draft) cfg = draft

module _ {ℓ} {N : Type ℓ} (number_of : Text → Option N) (show : N → Text) (below_one : N → Bool)
    (same : N → N → Bool) (number_of_show : (n : N) → number_of (show n) ≡ some n)
    (shown : (n : N) → is_no_text (trim (show n)) ≡ false) where
  value_of-show : (n : N) → value_of number_of (show n) ≡ some n
  unfolding value_of
  value_of-show n = rw (shown n) (number_of_show n)

  -- A form that was not edited sends the device's config as it is, unless a number of confirmations
  -- in it is below one.
  pub ask_params-form_of :
      (cfg : ScenarioConfig N)
      → ask_params number_of below_one same cfg (form_of show none cfg) ≡ (
          if below_one cfg.params.enter_hits || below_one cfg.params.exit_misses
          then Timing.min_one
          else Timing.asked (timing_pending same cfg cfg.params))
  unfolding ask_params form_of
  ask_params-form_of cfg =
      rw
        (
          value_of-show cfg.params.scan_interval_away_charging_secs,
          value_of-show cfg.params.scan_interval_away_battery_secs,
          value_of-show cfg.params.scan_interval_home_secs,
          value_of-show cfg.params.enter_hits,
          value_of-show cfg.params.exit_misses,
          value_of-show cfg.params.min_rssi_dbm,
        )
        refl
