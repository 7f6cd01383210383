-- ===== src/Tests/ApiRuns.antt =====
-- Requests and answers (web/src/lib/api/client.ts and web/src/lib/api/freshness.ts).
use zte_u60_pro_mu5250_manag.Common.{
  zero, suc, ◌+◌, arith, Bool, ℕ, ◌*◌, ◌≡◌, ◌≢◌, refl, ap, inl, inr, max, true, false, ◌&&◌, ◌||◌,
  not, Option, none, some, List, [], ◌∷◌, String, ltb, leb, str_eq, if◌then◌else◌, ◌==◌,
}
use zte_u60_pro_mu5250_manag.Api.Errors.{Thrown}
use zte_u60_pro_mu5250_manag.Api.Client.{
  Method, Store, SessionEvent, FetchOptions, Read, Body, Reply, Answer, api_fetch,
}
use zte_u60_pro_mu5250_manag.Api.Session.{current_401_ends_session, api_fetch-keeps_session}
use zte_u60_pro_mu5250_manag.Api.Kinds.{classify_error-api_fetch, kind_of_answer, expected_kind}
use zte_u60_pro_mu5250_manag.Api.Freshness.{
  FetchOutcome, is_stale, is_older, ValidResult, get_fresh, Fetched, validating_fetcher,
}
use zte_u60_pro_mu5250_manag.Api.Ageing.{
  History, after_history, recent_failures, last_valid, is_stale-history,
}
use zte_u60_pro_mu5250_manag.Api.Reboot.{
  Reading, verify_reboot, IsSpaced, IsEnd, verify_reboot-ends,
}
use zte_u60_pro_mu5250_manag.Api.Store.{Fetch, store_after, history_of, get_fresh-store_after}
use zte_u60_pro_mu5250_manag.Api.Ticker
use zte_u60_pro_mu5250_manag.Api.Ticker.{
  Ticker, new_ticker, Event, is_empty, timer_runs_iff_subscribed,
}

abbrev show_some : ℕ → String
show_some n = "8000"

abbrev logged_in : Store
logged_in = record { token = some "t1"; fired = [] }

abbrev logged_in_again : Store
logged_in_again = record { token = some "t2"; fired = SessionEvent.login ∷ [] }

abbrev plain_read : FetchOptions
plain_read = record { method = Method.get; raw = false; no_auth = false; timeout_ms = none }

abbrev no_page : Body ℕ
no_page = Body.text (Read.value "login")

current_401_ends_session_example :
    api_fetch show_some logged_in logged_in plain_read "/api/home" (Reply.response 401 no_page) ≡ (
      record { token = none; fired = SessionEvent.unauthorized ∷ [] },
      Answer.thrown (Thrown.unauthorized "unauthorized" false),
    )
current_401_ends_session_example =
    current_401_ends_session show_some logged_in logged_in plain_read "/api/home" no_page refl refl

other_token : logged_in.token ≢ logged_in_again.token
other_token = λ h.
    let e : true ≡ false =
      ap (λ (t : Option String). elim t [ none ↦ false | some s ↦ str_eq s "t1" ]) h in
    cc

api_fetch-keeps_session_example :
    (api_fetch show_some logged_in logged_in_again plain_read "/api/home"
      (Reply.response 401 no_page)).0
    ≡ logged_in_again
api_fetch-keeps_session_example =
    api_fetch-keeps_session show_some logged_in logged_in_again plain_read "/api/home"
      (Reply.response 401 no_page) (inr (inl other_token))

abbrev held : Reply ℕ
held = Reply.response 409 (
    Body.json (
      Read.value (record {
        ok = false;
        payload = none;
        error = some "busy";
        error_en = none;
        busy = some "scan";
        retry_after_s = some 5;
      })))

classify_error-api_fetch_example :
    kind_of_answer (api_fetch show_some logged_in logged_in plain_read "/api/home" held).1
    ≡ expected_kind logged_in logged_in plain_read held
classify_error-api_fetch_example =
    classify_error-api_fetch show_some logged_in logged_in plain_read "/api/home" held tt

abbrev two_failures : History
two_failures =
    (9000, FetchOutcome.error)
    ∷ (6000, FetchOutcome.invalid "no rows")
    ∷ (3000, FetchOutcome.ok)
    ∷ []

is_stale-history_example : is_stale (after_history two_failures) 9000 3000 ≡ (
    leb 2 (recent_failures two_failures)
    || (ltb 0 3000 && is_older (last_valid two_failures) 9000 (max (3 * 3000) 10000)))
is_stale-history_example = is_stale-history two_failures 9000 3000

abbrev is_positive : ℕ → ValidResult
is_positive n = if ltb 0 n then ValidResult.valid else ValidResult.rejected "no rows"

returns_three :
    (validating_fetcher "a" (some is_positive) (Fetched.returned 3) 7 []).1 ≡ Fetched.returned 3
unfolding validating_fetcher
returns_three = refl

refuses_zero :
    (validating_fetcher "a" (some is_positive) (Fetched.returned 0) 7 []).1
    ≡ Fetched.raised (Thrown.invalid_data "no rows")
unfolding validating_fetcher
refuses_zero = refl

abbrev two_pages : List (ℕ × Event)
two_pages =
    (1, Event.subscribed 1)
    ∷ (2, Event.subscribed 2)
    ∷ (3, Event.unsubscribed 1)
    ∷ (3, Event.unsubscribed 1)
    ∷ (4, Event.ticked)
    ∷ []

timer_runs_iff_subscribed_example :
    (Ticker.run (new_ticker 0) two_pages).running
    ≡ not (is_empty (Ticker.run (new_ticker 0) two_pages).listeners)
timer_runs_iff_subscribed_example = timer_runs_iff_subscribed 0 two_pages

abbrev some_bytes : Read ℕ
some_bytes = Read.value 7

-- Two endpoints, the second one with a validator that rejects its second answer.
abbrev fetch_of : String → Fetched ℕ → ℕ → Fetch ℕ
fetch_of k end now = record {
  endpoint = k;
  is_valid = some (λ n. if n == 0 then ValidResult.rejected "empty" else ValidResult.valid);
  fetched = end;
  now = now;
}

abbrev fetches : List (Fetch ℕ)
fetches =
    fetch_of "b" (Fetched.returned 0) 30
    ∷ fetch_of "a" (Fetched.returned 5) 20
    ∷ fetch_of "b" (Fetched.returned 7) 10
    ∷ []

get_fresh-store_after_example :
    get_fresh "b" (store_after fetches) ≡ after_history (history_of "b" fetches)
get_fresh-store_after_example = get_fresh-store_after "b" fetches

-- The old uptime is read once more before the device goes down.
abbrev readings : ℕ → Reading
readings zero = record { uptime = some 5000; at = 1000 }
readings (suc n) = record { uptime = if ltb n 3 then none else some 20; at = 1000 + 3000 * suc n }

verify_reboot-ends_example :
    (b : Bool) × (verify_reboot 42 (some 4990) 1000 readings ≡ some b)
    × IsEnd 4990 (1000 + 120000) readings 0 b
verify_reboot-ends_example = verify_reboot-ends 4990 1000 readings spaced (omega arith)
  where
    spaced : IsSpaced readings
    spaced zero = omega arith
    spaced (suc n) = omega arith
