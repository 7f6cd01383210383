-- ===== src/Api/Freshness.antt =====
-- web/src/lib/api/freshness.ts: the age of an endpoint's data, its validators, and the shared
-- store. Times are browser milliseconds; a difference of times is only compared with a limit, so
-- that truncated subtraction loses nothing.
use zte_u60_pro_mu5250_manag.Common.{
  ℕ, ◌+◌, ◌-◌, ◌*◌, max, Bool, true, false, Option, none, some, List, [], ◌∷◌, String,
  if◌then◌else◌, ltb, leb, str_eq,
}
use zte_u60_pro_mu5250_manag.Api.Errors.{Thrown}

abbrev pub stale_failures : ℕ
stale_failures = 2

abbrev pub stale_min_ms : ℕ
stale_min_ms = 10000

pub record FreshState : Type 0 where
  pub last_ok_at : Option ℕ
  pub failures : ℕ
  pub invalid_reason : Option String

abbrev pub initial_fresh : FreshState
initial_fresh = record { last_ok_at = none; failures = 0; invalid_reason = none }

pub data FetchOutcome : Type 0 where
  ok : FetchOutcome
  invalid : String → FetchOutcome
  error : FetchOutcome

unfoldable pub next_fresh : FreshState → FetchOutcome → ℕ → FreshState
next_fresh s FetchOutcome.ok now = record {
  last_ok_at = some now;
  failures = 0;
  invalid_reason = none;
}
next_fresh s (FetchOutcome.invalid reason) now = record {
  last_ok_at = s.last_ok_at;
  failures = s.failures + 1;
  invalid_reason = some reason;
}
next_fresh s FetchOutcome.error now = record {
  last_ok_at = s.last_ok_at;
  failures = s.failures + 1;
  invalid_reason = none;
}

unfoldable pub stale_after_ms : ℕ → ℕ
stale_after_ms refresh_interval = max (3 * refresh_interval) stale_min_ms

abbrev pub is_older : Option ℕ → ℕ → ℕ → Bool
is_older none now limit = false
is_older (some at) now limit = ltb limit (now - at)

unfoldable pub is_stale : FreshState → ℕ → ℕ → Bool
unfolding stale_after_ms
is_stale s now refresh_interval =
    if leb stale_failures s.failures
    then true
    else if ltb 0 refresh_interval
    then is_older s.last_ok_at now (stale_after_ms refresh_interval)
    else false

-- `ValidResult`: true, false, or false with a reason.
pub data ValidResult : Type 0 where
  valid : ValidResult
  not_valid : ValidResult
  rejected : String → ValidResult

-- `checkValid`: none for valid data. An empty reason is replaced.
unfoldable pub check_valid {ℓ} : {T : Type ℓ} → Option (T → ValidResult) → T → Option String
check_valid none x = none
check_valid (some is_valid) x = elim (is_valid x) [
  | ValidResult.valid ↦ none
  | ValidResult.not_valid ↦ some "invalid data"
  | ValidResult.rejected reason ↦ some (if str_eq reason "" then "invalid data" else reason)
]

-- The map `states` as an association list.
abbrev pub States : Type 0
States = List (String × FreshState)

unfoldable pub get_fresh : String → States → FreshState
get_fresh k [] = initial_fresh
get_fresh k ((j, s) ∷ m) = if str_eq j k then s else get_fresh k m

unfoldable pub put_fresh : String → FreshState → States → States
put_fresh k v [] = (k, v) ∷ []
put_fresh k v ((j, s) ∷ m) = if str_eq j k then (k, v) ∷ m else (j, s) ∷ put_fresh k v m

unfoldable pub record_outcome : String → FetchOutcome → ℕ → States → States
unfolding next_fresh get_fresh put_fresh
record_outcome k o now m = put_fresh k (next_fresh (get_fresh k m) o now) m

-- The end of a fetch.
pub data Fetched {ℓ} (T : Type ℓ) : Type ℓ where
  returned : T → Fetched T
  raised : Thrown → Fetched T

-- `validatingFetcher`, once its fetcher has ended.
unfoldable pub validating_fetcher {ℓ} :
    {T : Type ℓ} → String → Option (T → ValidResult) → Fetched T → ℕ → States → States × Fetched T
unfolding check_valid record_outcome
validating_fetcher k is_valid (Fetched.raised e) now m =
    (record_outcome k FetchOutcome.error now m, Fetched.raised e)
validating_fetcher k is_valid (Fetched.returned x) now m = elim (check_valid is_valid x) [
  | none ↦ (record_outcome k FetchOutcome.ok now m, Fetched.returned x)
  | some reason ↦ (
    record_outcome k (FetchOutcome.invalid reason) now m,
    Fetched.raised (Thrown.invalid_data reason),
  )
]
