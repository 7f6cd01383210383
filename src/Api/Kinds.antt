-- ===== src/Api/Kinds.antt =====
-- How a write operation reads each way a request can fail (web/src/lib/api/client.ts and
-- web/src/lib/api/writeOp.ts).
use zte_u60_pro_mu5250_manag.Common.{
  ℕ, ◌≡◌, ◌&&◌, ◌||◌, not, Option, none, some, String, ◌==◌, leb, if◌then◌else◌, arith,
}
use zte_u60_pro_mu5250_manag.Api.Errors.{Thrown, as_api_error, non_empty, new_api_error}
use zte_u60_pro_mu5250_manag.Api.Client.{
  Store, FetchOptions, Reply, Body, Read, Answer, is_ok_status, same_token, token_at_send,
  api_fetch,
}
use zte_u60_pro_mu5250_manag.WriteOp.State.{ErrorKind}
use zte_u60_pro_mu5250_manag.WriteOp.Controller.{classify_error}

abbrev by_status : ℕ → ErrorKind
by_status status =
    if status == 0
    then ErrorKind.network
    else if leb 400 status
    then ErrorKind.device
    else ErrorKind.other

-- The kind of a failed request, read off the network's answer: `none` where it succeeds.
abbrev pub expected_kind : {A : Type 0} → Store → Store → FetchOptions → Reply A → Option ErrorKind
expected_kind before st opts (Reply.failed timed_out e) =
    some (if timed_out then ErrorKind.timeout else ErrorKind.network)
expected_kind before st opts (Reply.response status body) =
    if status == 401
    then some (
        if not opts.no_auth && not (same_token (token_at_send before opts.no_auth) st.token)
        then ErrorKind.stale_unauthorized
        else ErrorKind.unauthorized)
    else (elim body [
      | Body.text (Read.value t) ↦ if is_ok_status status then none else some (by_status status)
      | Body.text (Read.broke timed_out e) ↦ some (
          if is_ok_status status
          then if timed_out then ErrorKind.timeout else ErrorKind.network
          else by_status status)
      | Body.json (Read.broke timed_out e) ↦
          some (if timed_out then ErrorKind.timeout else by_status status)
      | Body.json (Read.value j) ↦
          if opts.raw || j.ok
          then none
          else some (elim (non_empty j.busy) [
            | none ↦ by_status status
            | some _ ↦ if status == 0 then ErrorKind.network else ErrorKind.busy
          ])
    ])

-- The kind of what a request throws.
abbrev pub kind_of_answer : {A : Type 0} → Answer A → Option ErrorKind
kind_of_answer (Answer.thrown e) = some (classify_error e)
kind_of_answer (Answer.plain t) = none
kind_of_answer (Answer.whole j) = none
kind_of_answer (Answer.unwrapped p) = none

-- The errors of the network and of the body are none of the program's own.
abbrev IsForeign : Thrown → Type 0
IsForeign e = as_api_error e ≡ none

abbrev pub HasForeignErrors : {A : Type 0} → Reply A → Type 0
HasForeignErrors (Reply.failed timed_out e) = as_api_error e ≡ none
HasForeignErrors (Reply.response status (Body.text (Read.broke timed_out e))) =
    as_api_error e ≡ none
HasForeignErrors (Reply.response status (Body.json (Read.broke timed_out e))) =
    as_api_error e ≡ none
HasForeignErrors _ = Unit

-- Where the browser's own errors are none of the program's classes, a failed request is read as
-- its cause: an elapsed timer as a timeout, a dropped connection as a network error, a 401 as
-- unauthorised or, if a newer login came in between, as stale, a refusal that names a holder as
-- busy, and any other status from 400 on as an error of the device; a request that succeeds throws
-- nothing.
pub classify_error-api_fetch :
    (show : ℕ → String) {A : Type 0} (before st : Store) (opts : FetchOptions) (path : String)
    (reply : Reply A)
    → HasForeignErrors reply
    → kind_of_answer (api_fetch show before st opts path reply).1
      ≡ expected_kind before st opts reply
unfolding api_fetch classify_error new_api_error
classify_error-api_fetch show before st opts path (Reply.failed timed_out e) h = ground arith
classify_error-api_fetch show before st opts path (Reply.response status (Body.text (Read.value t)))
      h =
    ground arith
classify_error-api_fetch show before st opts path
      (Reply.response status (Body.text (Read.broke timed_out e))) h =
    ground arith
classify_error-api_fetch show before st opts path
      (Reply.response status (Body.json (Read.broke timed_out e))) h =
    ground arith
classify_error-api_fetch show before st opts path (Reply.response status (Body.json (Read.value j)))
      h =
    ground arith
