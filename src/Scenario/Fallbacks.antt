-- ===== src/Scenario/Fallbacks.antt =====
-- Edits of the scenarios that keep their ids and let the fallback scenarios alone
-- (web/src/app/(panel)/router/scenario/page.tsx).
use zte_u60_pro_mu5250_manag.Common.{
  ◌≡◌, refl, ap, sym, ◌∙◌, Bool, true, false, List, [], ◌∷◌, filter, map, some, Bool-cases, inl,
  inr, All, get_or_else,
}
use zte_u60_pro_mu5250_manag.Common.Texts.{text_eq, text_eq_sound}
use zte_u60_pro_mu5250_manag.Scenario.Config.{
  SsidEntry, Detect, ScenarioDef, home_id, find_scenario,
}
use zte_u60_pro_mu5250_manag.Scenario.Edits.{replace, set_entries}
use zte_u60_pro_mu5250_manag.Scenario.Lists.{KeepsId, map_found, find_scenario-map}

abbrev pub is_fallback : Detect → Bool
is_fallback Detect.fallback = true
is_fallback _ = false

abbrev pub fallbacks : List ScenarioDef → List ScenarioDef
fallbacks ss = filter (λ s. is_fallback s.detect) ss

-- Each scenario of `xs` is the one that its id finds in `ss`.
abbrev pub IsFound : List ScenarioDef → ScenarioDef → Type 0
IsFound ss s = find_scenario s.id ss ≡ some s

-- A change of the scenarios that keeps their ids, and lets the fallback scenarios alone.
abbrev pub LeavesFallbacks : (ScenarioDef → ScenarioDef) → ScenarioDef → Type 0
LeavesFallbacks f s =
    (is_fallback (f s).detect ≡ is_fallback s.detect) × (is_fallback s.detect ≡ true → f s ≡ s)

pub fallbacks-map :
    (f : ScenarioDef → ScenarioDef) (ss : List ScenarioDef)
    → All (LeavesFallbacks f) ss
    → fallbacks (map f ss) ≡ fallbacks ss
fallbacks-map f [] h = refl
fallbacks-map f (s ∷ ss) ((same, fixed), hs) = elim (Bool-cases (is_fallback s.detect)) [
  | inl e ↦
      let e' : is_fallback (f s).detect ≡ true = same ∙ e in
      rw (e, e') (ap (λ l. f s ∷ l) (fallbacks-map f ss hs) ∙ ap (λ x. x ∷ fallbacks ss) (fixed e))
  | inr e ↦
      let e' : is_fallback (f s).detect ≡ false = same ∙ e in rw (e, e') (fallbacks-map f ss hs)
]

pub IsFound-map :
    (f : ScenarioDef → ScenarioDef) (ss xs : List ScenarioDef)
    → KeepsId f
    → All (IsFound ss) xs
    → All (IsFound (map f ss)) (map f xs)
IsFound-map f ss [] k h = tt
IsFound-map f ss (x ∷ xs) k (h, hs) = (
  ap (λ id. find_scenario id (map f ss)) (k x) ∙ find_scenario-map f x.id ss k ∙ ap (map_found f) h,
  IsFound-map f ss xs k hs,
)

-- The id of the home list is not a fallback scenario's.
abbrev pub IsNotHome : ScenarioDef → Type 0
IsNotHome s = is_fallback s.detect ≡ true → text_eq s.id home_id ≡ false

pub IsNotHome-map :
    (f : ScenarioDef → ScenarioDef) (ss : List ScenarioDef)
    → All (LeavesFallbacks f) ss
    → All IsNotHome ss
    → All IsNotHome (map f ss)
IsNotHome-map f [] h n = tt
IsNotHome-map f (s ∷ ss) ((same, fixed), hs) (n, ns) = (
  (λ e. let e' = sym same ∙ e in ap (λ x. text_eq x.id home_id) (fixed e') ∙ n e'),
  IsNotHome-map f ss hs ns,
)

pub set_entries-LeavesFallbacks :
    (es : List SsidEntry) (ss : List ScenarioDef)
    → All IsNotHome ss
    → All (LeavesFallbacks (set_entries es)) ss
unfolding set_entries
set_entries-LeavesFallbacks es [] h = tt
set_entries-LeavesFallbacks es (s ∷ ss) (n, ns) = (
  elim (Bool-cases (text_eq s.id home_id)) [
    | inl e ↦ elim (Bool-cases (is_fallback s.detect)) [
      | inl b ↦ let no : true ≡ false = sym e ∙ n b in absurd cc
      | inr b ↦ rw (e, b) (refl, λ w. absurd cc)
    ]
    | inr e ↦ rw e (refl, λ w. refl)
  ],
  set_entries-LeavesFallbacks es ss ns,
)

-- Replacing a found scenario by one with its id and its kind of detection.
pub replace-LeavesFallbacks :
    (s next : ScenarioDef) (ss xs : List ScenarioDef)
    → IsFound ss s
    → is_fallback s.detect ≡ false
    → next.id ≡ s.id
    → next.detect ≡ s.detect
    → All (IsFound ss) xs
    → All (LeavesFallbacks (replace next)) xs
unfolding replace
replace-LeavesFallbacks s next ss [] found kind id detect h = tt
replace-LeavesFallbacks s next ss (x ∷ xs) found kind id detect (h, hs) = (
  elim (Bool-cases (text_eq x.id next.id)) [
    | inl e ↦
        let to_s : x.id ≡ s.id = text_eq_sound x.id next.id e ∙ id in
        let same : x ≡ s =
          ap (λ o. get_or_else o x) (sym h ∙ ap (λ i. find_scenario i ss) to_s ∙ found) in
        let not_fallback : is_fallback x.detect ≡ false =
          ap (λ y. is_fallback y.detect) same ∙ kind in
        let next_not : is_fallback next.detect ≡ false = ap is_fallback detect ∙ kind in
        rw (e, not_fallback, next_not) (refl, λ w. absurd cc)
    | inr e ↦ rw e (refl, λ w. refl)
  ],
  replace-LeavesFallbacks s next ss xs found kind id detect hs,
)
