-- ===== src/Api/Store.antt =====
-- The shared store over any sequence of fetches (web/src/lib/api/freshness.ts).
use text.Mathlib.TextEquality.{eq_iff}
use zte_u60_pro_mu5250_manag.Common.{
  ℕ, ◌≡◌, ◌∙◌, refl, ap, inl, inr, Option, none, some, List, [], ◌∷◌, String, if◌then◌else◌, str_eq,
  Option-cases, Bool-cases, arith,
}
use zte_u60_pro_mu5250_manag.Api.Freshness.{
  FreshState, FetchOutcome, next_fresh, ValidResult, check_valid, States, get_fresh, record_outcome,
  Fetched, validating_fetcher,
}
use zte_u60_pro_mu5250_manag.Api.Ageing.{History, after_history, get_fresh-record_outcome}

-- A fetch that has ended: its endpoint, the endpoint's validator, what came of it, and the time.
pub record Fetch {ℓ} (T : Type ℓ) : Type ℓ where
  pub endpoint : String
  pub is_valid : Option (T → ValidResult)
  pub fetched : Fetched T
  pub now : ℕ

abbrev pub checked_as : Option String → FetchOutcome
checked_as none = FetchOutcome.ok
checked_as (some reason) = FetchOutcome.invalid reason

next_outcome :
    (j k : String) (get : String → FreshState) (h : History) (o : FetchOutcome) (now : ℕ)
    → get k ≡ after_history h
    → (if str_eq j k then next_fresh (get j) o now else get k)
      ≡ after_history (if str_eq j k then (now, o) ∷ h else h)
next_outcome j k get h o now e = elim (Bool-cases (str_eq j k)) [
  | inl same ↦ rw (same, (eq_iff j k).0 same) (ap (λ s. next_fresh s o now) e)
  | inr other ↦ rw other e
]

module _ {ℓ} {T : Type ℓ} where
  -- The store after fetches, of which the last comes first.
  abbrev pub store_after : List (Fetch T) → States
  store_after [] = []
  store_after (f ∷ fs) =
      (validating_fetcher f.endpoint f.is_valid f.fetched f.now (store_after fs)).0

  -- What a fetch means for the age of its endpoint.
  abbrev pub meaning : Option (T → ValidResult) → Fetched T → FetchOutcome
  meaning is_valid (Fetched.raised e) = FetchOutcome.error
  meaning is_valid (Fetched.returned x) = checked_as (check_valid is_valid x)

  -- The outcomes of one endpoint.
  abbrev pub history_of : String → List (Fetch T) → History
  history_of k [] = []
  history_of k (f ∷ fs) =
      let rest = history_of k fs in
      if str_eq f.endpoint k then (f.now, meaning f.is_valid f.fetched) ∷ rest else rest

  validating_fetcher-meaning :
      (k : String) (is_valid : Option (T → ValidResult)) (f : Fetched T) (now : ℕ) (m : States)
      → (validating_fetcher k is_valid f now m).0 ≡ record_outcome k (meaning is_valid f) now m
  unfolding validating_fetcher
  validating_fetcher-meaning k is_valid (Fetched.raised e) now m = refl
  validating_fetcher-meaning k is_valid (Fetched.returned x) now m =
      elim (Option-cases (check_valid is_valid x)) [
        | inl e ↦ ground (arith, e)
        | inr (r, e) ↦ ground (arith, e)
      ]

  -- After any fetches of any endpoints, valid, rejected or failed, the store holds for each endpoint
  -- what that endpoint's own outcomes, in order, make of a fresh state.
  pub get_fresh-store_after :
      (k : String) (fs : List (Fetch T))
      → get_fresh k (store_after fs) ≡ after_history (history_of k fs)
  unfolding get_fresh
  get_fresh-store_after k [] = refl
  get_fresh-store_after k (f ∷ fs) =
      let o = meaning f.is_valid f.fetched in
      ap (get_fresh k)
        (validating_fetcher-meaning f.endpoint f.is_valid f.fetched f.now (store_after fs))
      ∙ get_fresh-record_outcome f.endpoint k o f.now (store_after fs)
      ∙ next_outcome f.endpoint k (λ j. get_fresh j (store_after fs)) (history_of k fs) o f.now
          (get_fresh-store_after k fs)
