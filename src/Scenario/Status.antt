-- ===== src/Scenario/Status.antt =====
-- The status block and the nearby networks of the scenario page
-- (web/src/app/(panel)/router/scenario/page.tsx). The shown name of a scenario is of any function.
use zte_u60_pro_mu5250_manag.Common.{
  ℕ, ◌≡◌, refl, ◌↔◌, Bool, true, false, not, ◌&&◌, Option, none, some, List, [], ◌∷◌, filter, any,
  if◌then◌else◌,
}
use zte_u60_pro_mu5250_manag.Common.Texts.{Text, text_eq}
use zte_u60_pro_mu5250_manag.Scenario.Config.{
  SsidEntry, ScenarioDef, ScenarioState, find_scenario, same_ssid_entry,
}
use zte_u60_pro_mu5250_manag.Scenario.Edits.{is_no_text}

pub data Tone : Type 0 where
  neutral ok warn bad stale : Tone

pub data StateWords : Type 0 where
  loading unreadable none_yet engine_off not_decided : StateWords
  named : Text → StateWords

pub data Reason : Type 0 where
  no_reason none_yet_next engine_off_reason guard_takeover : Reason
  message : Text → Reason
  pinned : Text → Reason

pub record Status : Type 0 where
  pub tone : Tone
  pub state : StateWords
  pub reason : Reason

abbrev pub status_with : Tone → StateWords → Reason → Status
status_with t s r = record { tone = t; state = s; reason = r }

abbrev pub is_empty_list {ℓ} : {A : Type ℓ} → List A → Bool
is_empty_list [] = true
is_empty_list (_ ∷ _) = false

-- `tone` of a text that is there and not empty.
abbrev pub truthy : Option Text → Option Text
truthy (some (c ∷ t)) = some (c ∷ t)
truthy _ = none

abbrev pub non_empty_text : Text → Option Text
non_empty_text [] = none
non_empty_text (c ∷ t) = some (c ∷ t)

abbrev pub tone_of_name : Option Text → Tone
tone_of_name (some (c ∷ t)) = Tone.ok
tone_of_name _ = Tone.neutral

abbrev pub words_of : Option Text → StateWords
words_of none = StateWords.not_decided
words_of (some name) = StateWords.named name

module _ (shown_name : ScenarioDef → Text) where
  abbrev pub name_or : Text → Option ScenarioDef → Text
  name_or id none = id
  name_or id (some s) = shown_name s

  -- `nameOf`.
  unfoldable pub name_of : Text → List ScenarioDef → Text
  unfolding find_scenario
  name_of id ss = name_or id (find_scenario id ss)

  abbrev pub current_name : Option Text → List ScenarioDef → Option Text
  unfolding name_of
  current_name none ss = none
  current_name (some id) ss = some (name_of id ss)

  abbrev pub pin_reason : Option Text → List ScenarioDef → Reason
  unfolding name_of
  pin_reason none ss = Reason.no_reason
  pin_reason (some id) ss = Reason.pinned (name_of id ss)

  -- What stands behind a scenario that runs: the watchdog, then an error, then a pin.
  abbrev pub reason_status :
      Tone → StateWords → Bool → Option Text → Option Text → List ScenarioDef → Status
  reason_status t w true error pin ss = status_with Tone.warn w Reason.guard_takeover
  reason_status t w false (some e) pin ss = status_with Tone.warn w (Reason.message e)
  reason_status t w false none pin ss = status_with t w (pin_reason pin ss)

module _ {ℓ} {N : Type ℓ} (shown_name : ScenarioDef → Text) where
  -- The status of a state that is read, before its age counts.
  unfoldable pub status_of_state : ScenarioState N → Status
  unfolding current_name
  status_of_state s =
      let name = current_name shown_name (non_empty_text s.current) s.config.scenarios in
      if is_empty_list s.config.scenarios
      then status_with Tone.neutral StateWords.none_yet Reason.none_yet_next
      else if not s.enabled
      then status_with Tone.neutral StateWords.engine_off Reason.engine_off_reason
      else reason_status shown_name (tone_of_name name) (words_of name) s.guard_takeover
          (truthy s.last_error) (truthy s.pin) s.config.scenarios

  -- The status block of the page: what is read, the error of a read, and whether what is read is old.
  unfoldable pub status_of : Option (ScenarioState N) → Option Text → Bool → Status
  unfolding status_of_state
  status_of none none old = status_with Tone.neutral StateWords.loading Reason.no_reason
  status_of none (some e) old = status_with Tone.bad StateWords.unreadable (Reason.message e)
  status_of (some s) e old =
      if old then record (status_of_state s) { tone = Tone.stale } else status_of_state s

abbrev pub is_none {ℓ} : {A : Type ℓ} → Option A → Bool
is_none none = true
is_none (some _) = false

-- The candidate that is seen, where it is not the current scenario: its id, and how many of the
-- confirmations that it needs it has.
unfoldable pub candidate_of {ℓ} : {N : Type ℓ} → ScenarioState N → Option (Text × (ℕ × N))
unfolding text_eq
candidate_of s =
    if not (is_no_text s.candidate) && not (text_eq s.candidate s.current)
    then some (s.candidate, (s.hits, s.config.params.enter_hits))
    else none

-- `pickable`: the networks of the last scan that are not listed.
unfoldable pub pickable : (Text → Text) → Option (List SsidEntry) → List SsidEntry → List SsidEntry
unfolding same_ssid_entry
pickable lower none entries = []
pickable lower (some scanned) entries =
    filter (λ n. not (any (λ e. same_ssid_entry lower e n) entries)) scanned

-- `nameless`: the entries that match on the name alone.
unfoldable pub nameless : List SsidEntry → List SsidEntry
nameless entries = filter (λ e. is_none (truthy e.bssid)) entries

-- The page is green exactly on a fresh state with scenarios, an engine that is on, a current scenario
-- with a name, no takeover by the watchdog and no error.
abbrev pub IsRunning {ℓ} : {N : Type ℓ} → (ScenarioDef → Text) → ScenarioState N → Type 0
IsRunning shown_name s =
    (is_empty_list s.config.scenarios ≡ false)
    × (s.enabled ≡ true)
    × (tone_of_name (current_name shown_name (non_empty_text s.current) s.config.scenarios)
        ≡ Tone.ok)
    × (s.guard_takeover ≡ false)
    × (truthy s.last_error ≡ none)

tone_of_reason :
    (shown_name : ScenarioDef → Text) (t : Tone) (w : StateWords) (guard : Bool)
    (error pin : Option Text) (ss : List ScenarioDef)
    → ((reason_status shown_name t w guard error pin ss).tone ≡ Tone.ok)
      ↔ ((t ≡ Tone.ok) × (guard ≡ false) × (error ≡ none))
tone_of_reason shown_name t w true error pin ss = ((λ h. absurd cc), λ h. absurd cc)
tone_of_reason shown_name t w false (some e) pin ss = ((λ h. absurd cc), λ h. absurd cc)
tone_of_reason shown_name t w false none pin ss = ((λ h. (h, refl, refl)), λ h. h.0)

module _ {ℓ} {N : Type ℓ} (shown_name : ScenarioDef → Text) where
  status_of_state_iff :
      (s : ScenarioState N) (none_yet on : Bool)
      → is_empty_list s.config.scenarios ≡ none_yet
      → s.enabled ≡ on
      → ((status_of_state shown_name s).tone ≡ Tone.ok) ↔ IsRunning shown_name s
  unfolding status_of_state
  status_of_state_iff s true on e h = rw e ((λ t. absurd cc), λ r. absurd cc)
  status_of_state_iff s false false e h = rw (e, h) ((λ t. absurd cc), λ r. absurd cc)
  status_of_state_iff s false true e h =
      let name = current_name shown_name (non_empty_text s.current) s.config.scenarios in
      let reasons =
        tone_of_reason shown_name (tone_of_name name) (words_of name) s.guard_takeover
          (truthy s.last_error) (truthy s.pin) s.config.scenarios in
      rw (e, h)
        (
          (λ t. let (a, b, c) = reasons.0 t in (refl, refl, a, b, c)),
          λ r. let (_, _, a, b, c) = r in reasons.1 (a, b, c),
        )

  -- The status of a state that is read is green exactly where the state is fresh and runs: it has
  -- scenarios, its engine is on, its current scenario has a name, the watchdog has not taken over and
  -- there is no error.
  pub status_of_iff :
      (s : ScenarioState N) (e : Option Text) (old : Bool)
      → ((status_of shown_name (some s) e old).tone ≡ Tone.ok)
        ↔ ((old ≡ false) × IsRunning shown_name s)
  unfolding status_of
  status_of_iff s e true = ((λ t. absurd cc), λ r. absurd cc)
  status_of_iff s e false =
      let r = status_of_state_iff s (is_empty_list s.config.scenarios) s.enabled refl refl in
      ((λ t. (refl, r.0 t)), λ r'. r.1 r'.1)
