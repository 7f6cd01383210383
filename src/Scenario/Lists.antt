-- ===== src/Scenario/Lists.antt =====
-- Entries of the home list and scenarios with their ids, as the scenario page compares and edits them
-- (web/src/app/(panel)/router/scenario/page.tsx).
use zte_u60_pro_mu5250_manag.Common.{
  ◌≡◌, refl, ap, ◌∙◌, true, false, Option, none, some, List, [], ◌∷◌, ◌++◌, map, if◌then◌else◌,
  Bool-cases, inl, inr, arith,
}
use zte_u60_pro_mu5250_manag.Common.Texts.{Text, text_eq, text_eq_refl, text_eq_sym}
use zte_u60_pro_mu5250_manag.Scenario.Config.{
  SsidEntry, ScenarioDef, same_ssid_entry, or_empty, find_scenario,
}
use zte_u60_pro_mu5250_manag.Scenario.Edits.{is_listed, without}

module _ (lower : Text → Text) where
  pub same_ssid_entry_refl : (a : SsidEntry) → same_ssid_entry lower a a ≡ true
  unfolding same_ssid_entry
  same_ssid_entry_refl a = rw (text_eq_refl a.ssid, text_eq_refl (lower (or_empty a.bssid))) refl

  pub same_ssid_entry_sym :
      (a b : SsidEntry) → same_ssid_entry lower a b ≡ same_ssid_entry lower b a
  unfolding same_ssid_entry
  same_ssid_entry_sym a b =
      rw
        (
          text_eq_sym a.ssid b.ssid,
          text_eq_sym (lower (or_empty a.bssid)) (lower (or_empty b.bssid)),
        )
        refl

  -- Each entry differs from all that follow it.
  abbrev pub IsDistinct : List SsidEntry → Type 0
  IsDistinct [] = Unit {0}
  IsDistinct (e ∷ es) = (is_listed lower e es ≡ false) × IsDistinct es

  pub is_listed-append :
      (e f : SsidEntry) (es : List SsidEntry)
      → is_listed lower e (es ++ (f ∷ []))
        ≡ (if is_listed lower e es then true else same_ssid_entry lower f e)
  unfolding is_listed
  is_listed-append e f [] = ground arith
  is_listed-append e f (x ∷ es) = ground (arith, is_listed-append e f es)

  pub IsDistinct-append :
      (f : SsidEntry) (es : List SsidEntry)
      → IsDistinct es
      → is_listed lower f es ≡ false
      → IsDistinct (es ++ (f ∷ []))
  unfolding is_listed
  IsDistinct-append f [] h n = (refl, tt)
  IsDistinct-append f (x ∷ es) (h, hs) n = (
    is_listed-append x f es ∙ ground (arith, h, n, same_ssid_entry_sym f x),
    IsDistinct-append f es hs (ground (arith, n)),
  )

  is_listed-without :
      (e f : SsidEntry) (es : List SsidEntry)
      → is_listed lower e es ≡ false
      → is_listed lower e (without lower f es) ≡ false
  unfolding is_listed without
  is_listed-without e f [] h = refl
  is_listed-without e f (x ∷ es) h = ground (arith, h, is_listed-without e f es)

  pub IsDistinct-without :
      (f : SsidEntry) (es : List SsidEntry) → IsDistinct es → IsDistinct (without lower f es)
  unfolding without
  IsDistinct-without f [] h = tt
  IsDistinct-without f (x ∷ es) (h, hs) = elim (Bool-cases (same_ssid_entry lower x f)) [
    | inl e ↦ rw e (IsDistinct-without f es hs)
    | inr e ↦ rw e (is_listed-without x f es h, IsDistinct-without f es hs)
  ]

  pub without_gone :
      (e : SsidEntry) (es : List SsidEntry) → is_listed lower e (without lower e es) ≡ false
  unfolding is_listed without
  without_gone e [] = refl
  without_gone e (x ∷ es) = ground (arith, without_gone e es)

  pub without_new :
      (e : SsidEntry) (es : List SsidEntry)
      → is_listed lower e es ≡ false
      → without lower e (es ++ (e ∷ [])) ≡ es
  unfolding is_listed without
  without_new e [] h = ground (arith, same_ssid_entry_refl e)
  without_new e (x ∷ es) h = elim (Bool-cases (same_ssid_entry lower x e)) [
    | inl s ↦ absurd (ground (arith, h, s))
    | inr s ↦ rw s (ap (λ l. x ∷ l) (without_new e es (ground (arith, h, s))))
  ]

abbrev pub map_found : (ScenarioDef → ScenarioDef) → Option ScenarioDef → Option ScenarioDef
map_found f none = none
map_found f (some s) = some (f s)

abbrev pub KeepsId : (ScenarioDef → ScenarioDef) → Type 0
KeepsId f = (s : ScenarioDef) → (f s).id ≡ s.id

pub find_scenario-map :
    (f : ScenarioDef → ScenarioDef) (id : Text) (ss : List ScenarioDef)
    → KeepsId f
    → find_scenario id (map f ss) ≡ map_found f (find_scenario id ss)
unfolding find_scenario
find_scenario-map f id [] h = refl
find_scenario-map f id (s ∷ ss) h = elim (Bool-cases (text_eq s.id id)) [
  | inl e ↦ let e' : text_eq (f s).id id ≡ true = rw (h s) e in rw (e', e) refl
  | inr e ↦
      let e' : text_eq (f s).id id ≡ false = rw (h s) e in rw (e', e) (find_scenario-map f id ss h)
]

pub find_scenario_id :
    (id : Text) (ss : List ScenarioDef) (s : ScenarioDef)
    → find_scenario id ss ≡ some s
    → text_eq s.id id ≡ true
unfolding find_scenario
find_scenario_id id [] s h = absurd cc
find_scenario_id id (x ∷ ss) s h = elim (Bool-cases (text_eq x.id id)) [
  | inl e ↦ let same : some x ≡ some s = ground (arith, h, e) in ground (arith, e, same)
  | inr e ↦ find_scenario_id id ss s (ground (arith, h, e))
]
