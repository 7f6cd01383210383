-- ===== src/Api/Ageing.antt =====
-- When the numbers of an endpoint count as stopped (web/src/lib/api/freshness.ts).
use text.Mathlib.TextEquality.{eq_iff}
use zte_u60_pro_mu5250_manag.Common.{
  ℕ, ◌+◌, ◌*◌, ◌≤◌, max, ◌≡◌, refl, inl, inr, false, ◌&&◌, ◌||◌, Option, none, some, List, [], ◌∷◌,
  String, if◌then◌else◌, ltb, leb, str_eq, Option-cases, arith,
}
use zte_u60_pro_mu5250_manag.Api.Errors.{Thrown}
use zte_u60_pro_mu5250_manag.Api.Freshness.{
  FreshState, initial_fresh, FetchOutcome, next_fresh, is_stale, ValidResult, check_valid, States,
  get_fresh, put_fresh, record_outcome, Fetched, validating_fetcher, is_older,
}

-- The outcomes of one endpoint with their times, the last one first.
abbrev pub History : Type 0
History = List (ℕ × FetchOutcome)

abbrev pub after_history : History → FreshState
after_history [] = initial_fresh
after_history ((now, o) ∷ h) = next_fresh (after_history h) o now

-- The failures since the last valid answer, and the time of that answer.
abbrev pub recent_failures : History → ℕ
recent_failures [] = 0
recent_failures ((now, FetchOutcome.ok) ∷ h) = 0
recent_failures ((now, FetchOutcome.invalid r) ∷ h) = recent_failures h + 1
recent_failures ((now, FetchOutcome.error) ∷ h) = recent_failures h + 1

abbrev pub last_valid : History → Option ℕ
last_valid [] = none
last_valid ((now, FetchOutcome.ok) ∷ h) = some now
last_valid ((now, FetchOutcome.invalid r) ∷ h) = last_valid h
last_valid ((now, FetchOutcome.error) ∷ h) = last_valid h

failures-history : (h : History) → (after_history h).failures ≡ recent_failures h
unfolding next_fresh
failures-history [] = refl
failures-history ((now, FetchOutcome.ok) ∷ h) = refl
failures-history ((now, FetchOutcome.invalid r) ∷ h) = omega (arith, failures-history h)
failures-history ((now, FetchOutcome.error) ∷ h) = omega (arith, failures-history h)

last_ok_at-history : (h : History) → (after_history h).last_ok_at ≡ last_valid h
unfolding next_fresh
last_ok_at-history [] = refl
last_ok_at-history ((now, FetchOutcome.ok) ∷ h) = refl
last_ok_at-history ((now, FetchOutcome.invalid r) ∷ h) = last_ok_at-history h
last_ok_at-history ((now, FetchOutcome.error) ∷ h) = last_ok_at-history h

-- After any history an endpoint is stale exactly when its last two answers were failures since
-- the last valid one, or when it is polled and its last valid answer is older than three poll
-- intervals and than 10 seconds.
pub is_stale-history :
    (h : History) (now interval : ℕ)
    → is_stale (after_history h) now interval ≡ (
        leb 2 (recent_failures h)
        || (ltb 0 interval && is_older (last_valid h) now (max (3 * interval) 10000)))
unfolding is_stale
is_stale-history h now interval = ground (arith, failures-history h, last_ok_at-history h)

-- The next valid answer clears the mark without a reload, and for the next 10 seconds.
pub recovers :
    (s : FreshState) (at now interval : ℕ)
    → now ≤ at + 10000
    → is_stale (next_fresh s FetchOutcome.ok at) now interval ≡ false
unfolding is_stale next_fresh
recovers s at now interval h = ground arith

get_fresh-put :
    (k j : String) (v : FreshState) (m : States)
    → get_fresh j (put_fresh k v m) ≡ (if str_eq k j then v else get_fresh j m)
unfolding get_fresh put_fresh
get_fresh-put k j v [] = refl
get_fresh-put k j v ((i, w) ∷ m) =
    ground (arith, eq_iff k j, eq_iff i k, eq_iff i j, get_fresh-put k j v m)

-- Recording an outcome advances the endpoint that it is about and no other.
pub get_fresh-record_outcome :
    (k j : String) (o : FetchOutcome) (now : ℕ) (m : States)
    → get_fresh j (record_outcome k o now m)
      ≡ (if str_eq k j then next_fresh (get_fresh k m) o now else get_fresh j m)
unfolding record_outcome
get_fresh-record_outcome k j o now m = get_fresh-put k j (next_fresh (get_fresh k m) o now) m

-- Data reaches the page only if the endpoint's validator accepts it, and is then recorded as
-- valid: the failures are 0 and the time is now.
pub validating_fetcher_sound {ℓ} :
    {T : Type ℓ} (k : String) (is_valid : Option (T → ValidResult)) (f : Fetched T) (now : ℕ)
    (m : States) (x : T)
    → (validating_fetcher k is_valid f now m).1 ≡ Fetched.returned x
    → (check_valid is_valid x ≡ none)
      × (get_fresh k (validating_fetcher k is_valid f now m).0
          ≡ record { last_ok_at = some now; failures = 0; invalid_reason = none })
unfolding validating_fetcher next_fresh
validating_fetcher_sound k is_valid (Fetched.raised e) now m x h = cc
validating_fetcher_sound k is_valid (Fetched.returned y) now m x h =
    elim (Option-cases (check_valid is_valid y)) [
      | inr (r, e) ↦ absurd (ground arith)
      | inl e ↦ (
        ground arith,
        ground (arith, eq_iff k k, get_fresh-record_outcome k k FetchOutcome.ok now m),
      )
    ]

-- A failed or rejected fetch is thrown on, keeps the time of the last valid answer, and counts.
pub validating_fetcher_failed {ℓ} :
    {T : Type ℓ} (k : String) (is_valid : Option (T → ValidResult)) (f : Fetched T) (now : ℕ)
    (m : States) (e : Thrown)
    → (validating_fetcher k is_valid f now m).1 ≡ Fetched.raised e
    → let s = get_fresh k (validating_fetcher k is_valid f now m).0 in
      (s.failures ≡ (get_fresh k m).failures + 1) × (s.last_ok_at ≡ (get_fresh k m).last_ok_at)
unfolding validating_fetcher next_fresh
validating_fetcher_failed k is_valid (Fetched.raised d) now m e h =
    ground (arith, eq_iff k k, get_fresh-record_outcome k k FetchOutcome.error now m)
validating_fetcher_failed k is_valid (Fetched.returned y) now m e h =
    elim (Option-cases (check_valid is_valid y)) [
      | inl q ↦ absurd (ground arith)
      | inr (r, q) ↦
          ground (arith, eq_iff k k, get_fresh-record_outcome k k (FetchOutcome.invalid r) now m)
    ]
