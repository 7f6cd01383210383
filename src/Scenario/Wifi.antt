-- ===== src/Scenario/Wifi.antt =====
-- What the Wi-Fi switch of a scenario sends, and what its check accepts
-- (web/src/app/(panel)/router/scenario/page.tsx).
use zte_u60_pro_mu5250_manag.Common.{
  ◌≡◌, refl, ap, sym, ◌∙◌, Bool, not, Option, none, some, List, [], ◌∷◌, filter, Bool-cases, inl,
  inr, is_some, bool_eq, bool_eq_refl,
}
use zte_u60_pro_mu5250_manag.Common.Texts.{text_eq, text_eq_sound}
use zte_u60_pro_mu5250_manag.Firewall.Json.{get}
use zte_u60_pro_mu5250_manag.Scenario.Config.{
  ScenarioAction, ScenarioDef, ScenarioConfig, ScenarioState, find_scenario, find_wifi, is_wifi,
  wifi_of, wifi_in, ap_2g_on, with_wifi, wifi_action,
}
use zte_u60_pro_mu5250_manag.Scenario.Edits.{replace, edit_config, check_wifi, wifi_is, is_on}
use zte_u60_pro_mu5250_manag.Scenario.Lists.{
  KeepsId, map_found, find_scenario-map, find_scenario_id,
}

abbrev pub others : List ScenarioAction → List ScenarioAction
others bs = filter (λ a. not (is_wifi a)) bs

filter-filter : (xs : List ScenarioAction) → others (others xs) ≡ others xs
filter-filter [] = refl
filter-filter (x ∷ xs) = elim (Bool-cases (is_wifi x)) [
  | inl e ↦ rw e (filter-filter xs)
  | inr e ↦ rw (e, e) (ap (λ l. x ∷ l) (filter-filter xs))
]

-- Setting a scenario's Wi-Fi makes the switch show it, keeps the other actions in their order, and
-- leaves nothing of an earlier setting.
pub with_wifi_lem :
    (s : ScenarioDef) (old on : Bool)
    → (wifi_of (with_wifi s on) ≡ some on)
      × (others (with_wifi s on).actions ≡ others s.actions)
      × (with_wifi (with_wifi s old) on ≡ with_wifi s on)
unfolding wifi_of with_wifi wifi_in find_wifi is_wifi ap_2g_on get
with_wifi_lem s old on = (
  refl,
  filter-filter s.actions,
  ap (λ l. record s { actions = wifi_action on ∷ l }) (filter-filter s.actions),
)

pub replace-KeepsId : (next : ScenarioDef) → KeepsId (replace next)
unfolding replace
replace-KeepsId next s = elim (Bool-cases (text_eq s.id next.id)) [
  | inl e ↦ let same : s.id ≡ next.id = text_eq_sound s.id next.id e in rw e (sym same)
  | inr e ↦ rw e refl
]

check_found :
    (s : ScenarioDef) (on : Bool) (ss : List ScenarioDef) (o : Option ScenarioDef)
    → find_scenario s.id ss ≡ o
    → wifi_is on (map_found (replace (with_wifi s on)) o) ≡ is_some o
unfolding wifi_is replace with_wifi
check_found s on ss none h = refl
check_found s on ss (some x) h =
    let same = find_scenario_id s.id ss x h in
    rw same (ap (λ w. bool_eq (is_on w) on) (with_wifi_lem s on on).0 ∙ bool_eq_refl on)

module _ {ℓ} {N : Type ℓ} where
  -- The check of a scenario's Wi-Fi accepts the config that the page sent exactly where the config
  -- before has a scenario of that id.
  pub check_wifi-edit_config :
      (cfg : ScenarioConfig N) (st : ScenarioState N) (s : ScenarioDef) (on : Bool)
      → check_wifi s on (record st { config = edit_config (with_wifi s on) cfg })
        ≡ is_some (find_scenario s.id cfg.scenarios)
  unfolding check_wifi edit_config
  check_wifi-edit_config cfg st s on =
      rw
        (find_scenario-map (replace (with_wifi s on)) s.id cfg.scenarios
          (replace-KeepsId (with_wifi s on)))
        (check_found s on cfg.scenarios (find_scenario s.id cfg.scenarios) refl)
