-- ===== src/Scenario/Home.antt =====
-- What adding and removing a home network sends, and what its check accepts
-- (web/src/app/(panel)/router/scenario/page.tsx).
use zte_u60_pro_mu5250_manag.Common.{
  ◌≡◌, refl, ap, true, false, Option, none, some, List, [], ◌∷◌, ◌++◌, map, Bool-cases, get_or_else,
  Option-cases, inl, inr, arith,
}
use zte_u60_pro_mu5250_manag.Common.Texts.{Text, text_eq}
use zte_u60_pro_mu5250_manag.Scenario.Config.{
  SsidEntry, ScenarioDef, ScenarioConfig, ScenarioState, home_id, find_scenario, home_entries,
  entries_of,
}
use zte_u60_pro_mu5250_manag.Scenario.Edits.{
  Step, Pending, Adding, with_entries, entries_with, set_entries, is_listed, without, new_entry,
  is_no_text, ask_add_entry, adding_of, ask_remove_entry, removing_of, add_pending, remove_pending,
}
use zte_u60_pro_mu5250_manag.Scenario.Lists.{
  KeepsId, find_scenario-map, find_scenario_id, without_gone, is_listed-append,
  same_ssid_entry_refl,
}

pub set_entries-KeepsId : (es : List SsidEntry) → KeepsId (set_entries es)
unfolding set_entries
set_entries-KeepsId es s = elim (Bool-cases (text_eq s.id home_id)) [
  | inl e ↦ rw e refl
  | inr e ↦ rw e refl
]

entries_of-set_entries :
    (es : List SsidEntry) (s : ScenarioDef)
    → text_eq s.id home_id ≡ true
    → entries_of (some (set_entries es s)) ≡ es
unfolding entries_of set_entries
entries_of-set_entries es s h = rw h refl

module _ {ℓ} {N : Type ℓ} where
  -- The config that an edit of the home list sends has that list.
  pub home_entries-with_entries :
      (cfg next : ScenarioConfig N) (es : List SsidEntry)
      → with_entries cfg es ≡ some next
      → home_entries next ≡ es
  unfolding with_entries entries_with home_entries
  home_entries-with_entries cfg next es h =
      elim (Option-cases (find_scenario home_id cfg.scenarios)) [
        | inl e ↦ let w : none ≡ some next = ground (arith, h, e) in absurd cc
        | inr (s, e) ↦
            let sent : some (record cfg { scenarios = map (set_entries es) cfg.scenarios })
                ≡ some next =
              ground (arith, h, e) in
            let kept : map (set_entries es) cfg.scenarios ≡ next.scenarios = ap scenarios_of sent in
            rw⁻¹ kept (
              rw
                (
                  find_scenario-map (set_entries es) home_id cfg.scenarios (set_entries-KeepsId es),
                  e,
                )
                (entries_of-set_entries es s (find_scenario_id home_id cfg.scenarios s e)))
      ]
    where
      scenarios_of : Option (ScenarioConfig N) → List ScenarioDef
      scenarios_of none = []
      scenarios_of (some c) = c.scenarios

module _ {ℓ} {N : Type ℓ} (lower : Text → Text) where
  -- The write sends one config, with these home networks. Its check accepts the config that was sent
  -- and refuses the one before, whatever else the state says.
  unfoldable pub Sends : ScenarioConfig N → List SsidEntry → Pending N → ScenarioState N → Type ℓ
  unfolding home_entries
  Sends cfg es p st =
      (next : ScenarioConfig N) × (p.steps ≡ Step.put_config next ∷ [])
      × (home_entries next ≡ es)
      × (p.check (record st { config = next }) ≡ true)
      × (p.check (record st { config = cfg }) ≡ false)

  pending_in : Pending N → Adding N → Pending N
  pending_in d (Adding.asked p) = p
  pending_in d _ = d

  adding_of-Sends :
      (cfg : ScenarioConfig N) (e : SsidEntry) (p : Pending N) (st : ScenarioState N)
      (o : Option (ScenarioConfig N))
      → with_entries cfg (home_entries cfg ++ (e ∷ [])) ≡ o
      → is_listed lower e (home_entries cfg) ≡ false
      → adding_of lower e o ≡ Adding.asked p
      → Sends cfg (home_entries cfg ++ (e ∷ [])) p st
  unfolding pending_in Sends add_pending
  adding_of-Sends cfg e p st none w new h = absurd cc
  adding_of-Sends cfg e p st (some next) w new h =
      let kept = home_entries-with_entries cfg next (home_entries cfg ++ (e ∷ [])) w in
      let q : add_pending lower e next ≡ p = ap (λ a. pending_in p a) h in
      rw⁻¹ q (
        next,
        refl,
        kept,
        rw (kept, is_listed-append lower e e (home_entries cfg), new)
            (same_ssid_entry_refl lower e),
        new,
      )

  -- A network that is added is sent behind the home networks before it, and its check then accepts
  -- what was sent, and would not have accepted the state before.
  pub ask_add_entry-Sends :
      (cfg : ScenarioConfig N) (e : SsidEntry) (p : Pending N) (st : ScenarioState N)
      → ask_add_entry lower cfg e ≡ Adding.asked p
      → Sends cfg (home_entries cfg ++ (new_entry e ∷ [])) p st
  unfolding ask_add_entry
  ask_add_entry-Sends cfg e p st h = elim (Bool-cases (is_no_text (new_entry e).ssid)) [
    | inl b ↦ let no : Adding.ignored ≡ Adding.asked p = rw⁻¹ h (rw b refl) in absurd cc
    | inr b ↦ elim (Bool-cases (is_listed lower (new_entry e) (home_entries cfg))) [
      | inl l ↦
          let no : Adding.already_listed ≡ Adding.asked p = rw⁻¹ h (rw (b, l) refl) in absurd cc
      | inr l ↦
          adding_of-Sends cfg (new_entry e) p st
            (with_entries cfg (home_entries cfg ++ (new_entry e ∷ []))) refl l
            (rw⁻¹ h (rw (b, l) refl))
    ]
  ]

  removing_of-Sends :
      (cfg : ScenarioConfig N) (e : SsidEntry) (p : Pending N) (st : ScenarioState N)
      (o : Option (ScenarioConfig N))
      → with_entries cfg (without lower e (home_entries cfg)) ≡ o
      → is_listed lower e (home_entries cfg) ≡ true
      → removing_of lower e o ≡ some p
      → Sends cfg (without lower e (home_entries cfg)) p st
  unfolding Sends remove_pending
  removing_of-Sends cfg e p st none w old h = absurd cc
  removing_of-Sends cfg e p st (some next) w old h =
      let kept = home_entries-with_entries cfg next (without lower e (home_entries cfg)) w in
      let q : remove_pending lower e next ≡ p = ap (λ r. get_or_else r p) h in
      rw⁻¹ q
        (next, refl, kept, rw (kept, without_gone lower e (home_entries cfg)) refl, rw old refl)

  -- The removal of a network that is listed sends the home networks without it, and its check then
  -- accepts what was sent, and would not have accepted the state before.
  pub ask_remove_entry-Sends :
      (cfg : ScenarioConfig N) (e : SsidEntry) (p : Pending N) (st : ScenarioState N)
      → is_listed lower e (home_entries cfg) ≡ true
      → ask_remove_entry lower cfg e ≡ some p
      → Sends cfg (without lower e (home_entries cfg)) p st
  unfolding ask_remove_entry
  ask_remove_entry-Sends cfg e p st old h =
      removing_of-Sends cfg e p st (with_entries cfg (without lower e (home_entries cfg))) refl old
        h
