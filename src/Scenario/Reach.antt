-- ===== src/Scenario/Reach.antt =====
-- The configs that the writes of the scenario page lead to, one after the other
-- (web/src/app/(panel)/router/scenario/page.tsx).
use zte_u60_pro_mu5250_manag.Common.{
  ◌≡◌, refl, ap, sym, ◌∙◌, Bool, false, Option, none, some, List, [], ◌∷◌, ◌++◌, map, Bool-cases,
  Option-cases, inl, inr, All, get_or_else, arith, ◌⊎◌,
}
use mathlib.Core.Path.{subst}
use zte_u60_pro_mu5250_manag.Common.Texts.{Text, text_eq, text_eq_sound}
use zte_u60_pro_mu5250_manag.Scenario.Config.{
  SsidEntry, ScenarioDef, ScenarioConfig, ScenarioParams, home_id, find_scenario, home_entries,
  with_wifi, entries_of,
}
use zte_u60_pro_mu5250_manag.Scenario.Edits.{
  put_by, ask_create_defaults, Step, Pending, Adding, replace, edit_config, ask_wifi, set_entries,
  with_entries, entries_with, is_listed, without, new_entry, ask_add_entry, ask_remove_entry,
  add_pending, remove_pending, adding_of, removing_of, is_no_text,
}
use zte_u60_pro_mu5250_manag.Scenario.Timing.{timing_pending}
use zte_u60_pro_mu5250_manag.Scenario.Lists.{
  KeepsId, map_found, find_scenario-map, find_scenario_id, IsDistinct, IsDistinct-append,
  IsDistinct-without,
}
use zte_u60_pro_mu5250_manag.Scenario.Home.{home_entries-with_entries, set_entries-KeepsId}
use zte_u60_pro_mu5250_manag.Scenario.Wifi.{replace-KeepsId}
use zte_u60_pro_mu5250_manag.Scenario.Fallbacks.{
  is_fallback, fallbacks, IsFound, IsNotHome, LeavesFallbacks, fallbacks-map, IsFound-map,
  IsNotHome-map, set_entries-LeavesFallbacks, replace-LeavesFallbacks,
}

with_wifi-LeavesFallbacks :
    (s : ScenarioDef) (on : Bool) (ss : List ScenarioDef)
    → IsFound ss s
    → is_fallback s.detect ≡ false
    → All (IsFound ss) ss
    → All (LeavesFallbacks (replace (with_wifi s on))) ss
unfolding with_wifi
with_wifi-LeavesFallbacks s on ss found kind all_found =
    replace-LeavesFallbacks s (with_wifi s on) ss ss found kind refl refl all_found

replaced_entries :
    (s : ScenarioDef) (on : Bool) (ss : List ScenarioDef) (o : Option ScenarioDef)
    → find_scenario home_id ss ≡ o
    → IsFound ss s
    → entries_of (map_found (replace (with_wifi s on)) o) ≡ entries_of o
unfolding entries_of replace with_wifi
replaced_entries s on ss none h found = refl
replaced_entries s on ss (some x) h found = elim (Bool-cases (text_eq x.id s.id)) [
  | inl e ↦
      let x_home = text_eq_sound x.id home_id (find_scenario_id home_id ss x h) in
      let id : s.id ≡ home_id = sym (text_eq_sound x.id s.id e) ∙ x_home in
      let same : s ≡ x =
        ap (λ o. get_or_else o s) (sym found ∙ ap (λ i. find_scenario i ss) id ∙ h) in
      rw e (ap (λ y. entries_of (some y)) same)
  | inr e ↦ rw e refl
]

-- A Wi-Fi switch leaves the home networks.
home_entries-edit_config {ℓ} :
    {N : Type ℓ} (s : ScenarioDef) (on : Bool) (cfg : ScenarioConfig N)
    → IsFound cfg.scenarios s
    → home_entries (edit_config (with_wifi s on) cfg) ≡ home_entries cfg
unfolding home_entries edit_config
home_entries-edit_config s on cfg found =
    rw
      (find_scenario-map (replace (with_wifi s on)) home_id cfg.scenarios
        (replace-KeepsId (with_wifi s on)))
      (replaced_entries s on cfg.scenarios (find_scenario home_id cfg.scenarios) refl found)

module _ {ℓ} {N : Type ℓ} (lower : Text → Text) (template : ScenarioConfig N) where
  -- A change of the config by the page, taken by the device as it was sent. The page shows no Wi-Fi
  -- switch for a fallback scenario.
  pub data Change (cfg next : ScenarioConfig N) : Type ℓ where
    add :
        (e : SsidEntry) (p : Pending N)
        → ask_add_entry lower cfg e ≡ Adding.asked p
        → p.steps ≡ Step.put_config next ∷ []
        → Change cfg next
    remove :
        (e : SsidEntry) (p : Pending N)
        → ask_remove_entry lower cfg e ≡ some p
        → p.steps ≡ Step.put_config next ∷ []
        → Change cfg next
    wifi :
        (remote : Bool) (s : ScenarioDef) (on : Bool)
        → IsFound cfg.scenarios s
        → is_fallback s.detect ≡ false
        → (ask_wifi remote cfg s on).steps ≡ Step.put_config next ∷ []
        → Change cfg next
    timing :
        (same : N → N → Bool) (params : ScenarioParams N)
        → (timing_pending same cfg params).steps ≡ Step.put_config next ∷ []
        → Change cfg next

  -- A write of the page that puts a config: a change, or the default scenarios, which it reads from the
  -- device and offers only where there are none.
  pub data Edit (cfg next : ScenarioConfig N) : Type ℓ where
    changes : Change cfg next → Edit cfg next
    defaults :
        cfg.scenarios ≡ []
        → put_by template none ask_create_defaults.steps ≡ some next
        → Edit cfg next

  pub data Reach (cfg : ScenarioConfig N) : ScenarioConfig N → Type ℓ where
    here : Reach cfg cfg
    step : {c d : ScenarioConfig N} → Reach cfg c → Edit c d → Reach cfg d

  -- The home networks are distinct, each id finds its scenario, and no fallback is the home scenario.
  abbrev pub IsSound : ScenarioConfig N → Type 0
  IsSound cfg =
      IsDistinct lower (home_entries cfg)
      × All (IsFound cfg.scenarios) cfg.scenarios
      × All IsNotHome cfg.scenarios

  Keeps : ScenarioConfig N → ScenarioConfig N → Type 0
  Keeps cfg next =
      IsSound next
      × (fallbacks next.scenarios ≡ fallbacks cfg.scenarios)
      × (next.scenarios ≡ [] → cfg.scenarios ≡ [])

  -- Where the fallback scenarios come from: the first config, or the defaults where it had none.
  abbrev pub FromFirst : ScenarioConfig N → ScenarioConfig N → Type 0
  FromFirst cfg after =
      ((fallbacks after.scenarios ≡ fallbacks cfg.scenarios)
        × (after.scenarios ≡ [] → cfg.scenarios ≡ []))
      ⊎ ((cfg.scenarios ≡ []) × (fallbacks after.scenarios ≡ fallbacks template.scenarios))

  sent_config : ScenarioConfig N → List (Step N) → ScenarioConfig N
  sent_config cfg (Step.put_config c ∷ _) = c
  sent_config cfg _ = cfg

  no_scenario : (f : ScenarioDef → ScenarioDef) (ss : List ScenarioDef) → map f ss ≡ [] → ss ≡ []
  no_scenario f [] h = refl
  no_scenario f (s ∷ ss) h = absurd cc

  -- A config whose scenarios were mapped, with a distinct home list.
  mapped-Keeps :
      (f : ScenarioDef → ScenarioDef) (cfg next : ScenarioConfig N)
      → KeepsId f
      → IsSound cfg
      → All (LeavesFallbacks f) cfg.scenarios
      → next.scenarios ≡ map f cfg.scenarios
      → IsDistinct lower (home_entries next)
      → Keeps cfg next
  unfolding Keeps
  mapped-Keeps f cfg next k (d, found, home) leaves e distinct = (
    (
      distinct,
      rw e (IsFound-map f cfg.scenarios cfg.scenarios k found),
      rw e (IsNotHome-map f cfg.scenarios leaves home),
    ),
    rw e (fallbacks-map f cfg.scenarios leaves),
    λ none_left. no_scenario f cfg.scenarios (sym e ∙ none_left),
  )

  step_Keeps :
      (cfg after : ScenarioConfig N) (es : List SsidEntry)
      → IsSound cfg
      → IsDistinct lower es
      → with_entries cfg es ≡ some after
      → Keeps cfg after
  unfolding with_entries entries_with
  step_Keeps cfg after es sound distinct w =
      elim (Option-cases (find_scenario home_id cfg.scenarios)) [
        | inl e ↦ let no : none ≡ some after = ground (arith, w, e) in absurd cc
        | inr (s, e) ↦
            let sent : some (record cfg { scenarios = map (set_entries es) cfg.scenarios })
                ≡ some after =
              ground (arith, w, e) in
            mapped-Keeps (set_entries es) cfg after (set_entries-KeepsId es) sound
              (set_entries-LeavesFallbacks es cfg.scenarios sound.2)
              (ap (λ o. (get_or_else o after).scenarios) (sym sent))
              (rw (home_entries-with_entries cfg after es w) distinct)
      ]

  sent-config :
      (cfg c after : ScenarioConfig N)
      → Step.put_config c ∷ [] ≡ Step.put_config after ∷ []
      → c ≡ after
  unfolding sent_config
  sent-config cfg c after h = ap (sent_config cfg) h

  adding-with_entries :
      (cfg after : ScenarioConfig N) (e : SsidEntry) (p : Pending N) (o : Option (ScenarioConfig N))
      → adding_of lower e o ≡ Adding.asked p
      → p.steps ≡ Step.put_config after ∷ []
      → o ≡ some after
  unfolding add_pending
  adding-with_entries cfg after e p none h s = absurd cc
  adding-with_entries cfg after e p (some c) h s =
      ap some (sent-config cfg c after (ap steps_of h ∙ s))
    where
      steps_of : Adding N → List (Step N)
      steps_of (Adding.asked p) = p.steps
      steps_of _ = []

  removing-with_entries :
      (cfg after : ScenarioConfig N) (e : SsidEntry) (p : Pending N) (o : Option (ScenarioConfig N))
      → removing_of lower e o ≡ some p
      → p.steps ≡ Step.put_config after ∷ []
      → o ≡ some after
  unfolding remove_pending
  removing-with_entries cfg after e p none h s = absurd cc
  removing-with_entries cfg after e p (some c) h s =
      ap some (sent-config cfg c after (ap (λ r. (get_or_else r p).steps) h ∙ s))

  add-Keeps :
      (cfg after : ScenarioConfig N) (e : SsidEntry) (p : Pending N)
      → IsSound cfg
      → ask_add_entry lower cfg e ≡ Adding.asked p
      → p.steps ≡ Step.put_config after ∷ []
      → Keeps cfg after
  unfolding ask_add_entry
  add-Keeps cfg after e p sound h s = elim (Bool-cases (is_no_text (new_entry e).ssid)) [
    | inl b ↦ let no : Adding.ignored ≡ Adding.asked p = rw⁻¹ h (rw b refl) in absurd cc
    | inr b ↦ elim (Bool-cases (is_listed lower (new_entry e) (home_entries cfg))) [
      | inl l ↦
          let no : Adding.already_listed ≡ Adding.asked p = rw⁻¹ h (rw (b, l) refl) in absurd cc
      | inr l ↦
          let es = home_entries cfg ++ (new_entry e ∷ []) in
          step_Keeps cfg after es sound
            (IsDistinct-append lower (new_entry e) (home_entries cfg) sound.0 l)
            (adding-with_entries cfg after (new_entry e) p (with_entries cfg es)
              (rw⁻¹ h (rw (b, l) refl)) s)
    ]
  ]

  Change-Keeps : (cfg after : ScenarioConfig N) → IsSound cfg → Change cfg after → Keeps cfg after
  unfolding ask_remove_entry ask_wifi edit_config timing_pending Keeps home_entries
  Change-Keeps cfg after sound (Change.add e p h s) = add-Keeps cfg after e p sound h s
  Change-Keeps cfg after sound (Change.remove e p h s) =
      let es = without lower e (home_entries cfg) in
      step_Keeps cfg after es sound (IsDistinct-without lower e (home_entries cfg) sound.0)
        (removing-with_entries cfg after e p (with_entries cfg es) h s)
  Change-Keeps cfg after sound (Change.wifi remote s on found kind h) =
      let sent = sent-config cfg (edit_config (with_wifi s on) cfg) after h in
      mapped-Keeps (replace (with_wifi s on)) cfg after (replace-KeepsId (with_wifi s on)) sound
        (with_wifi-LeavesFallbacks s on cfg.scenarios found kind sound.1)
        (ap (λ c. c.scenarios) (sym sent))
        (rw⁻¹ sent (rw (home_entries-edit_config s on cfg found) sound.0))
  Change-Keeps cfg after sound (Change.timing same params h) =
      rw⁻¹ (sent-config cfg (record cfg { params = params }) after h) (sound, refl, λ e. e)

  put_defaults :
      (after : ScenarioConfig N)
      → put_by template none ask_create_defaults.steps ≡ some after
      → template ≡ after
  unfolding put_by ask_create_defaults
  put_defaults after h = ap (λ o. get_or_else o after) h

  step_FromFirst :
      (cfg c after : ScenarioConfig N)
      → IsSound template
      → IsSound c
      → FromFirst cfg c
      → Edit c after
      → IsSound after × FromFirst cfg after
  unfolding Keeps
  step_FromFirst cfg c after tpl sound from (Edit.defaults e h) =
      let sent = put_defaults after h in
      let same : fallbacks after.scenarios ≡ fallbacks template.scenarios =
        ap (λ d. fallbacks d.scenarios) (sym sent) in
      (subst IsSound sent tpl, inr (first_empty from e, same))
    where
      first_empty : FromFirst cfg c → c.scenarios ≡ [] → cfg.scenarios ≡ []
      first_empty (inl (_, back)) e = back e
      first_empty (inr (e', _)) e = e'
  step_FromFirst cfg c after tpl sound from (Edit.changes e) =
      let (next, same, back) = Change-Keeps c after sound e in (next, later same back from)
    where
      later :
          fallbacks after.scenarios ≡ fallbacks c.scenarios
          → (after.scenarios ≡ [] → c.scenarios ≡ [])
          → FromFirst cfg c
          → FromFirst cfg after
      later same back (inl (kept, first)) = inl (same ∙ kept, λ e. first (back e))
      later same back (inr (none_first, kept)) = inr (none_first, same ∙ kept)

  -- Whatever the page writes of the config, one change after the other, when the home networks of the
  -- first config and of the device's template are distinct, each id finds its scenario there, and the
  -- home scenario is no fallback: all this stays so. The fallback scenarios stay as they were, with
  -- their Wi-Fi; but where the first config has no scenario, they may be those of the template.
  pub Reach-IsSound :
      (cfg after : ScenarioConfig N)
      → IsSound cfg
      → IsSound template
      → Reach cfg after
      → IsSound after × FromFirst cfg after
  Reach-IsSound cfg after sound tpl Reach.here = (sound, inl (refl, λ e. e))
  Reach-IsSound cfg after sound tpl (Reach.step {c} r e) =
      let before = Reach-IsSound cfg c sound tpl r in
      step_FromFirst cfg c after tpl before.0 before.1 e
