-- ===== src/Api/Client.antt =====
-- The request lifecycle of web/src/lib/api/client.ts. The browser's store is `Store`, the network's
-- answer a `Reply`; `show` is the text that JavaScript gives a number.
use Prim.Native.String
use Prim.Native.Char.{code}
use zte_u60_pro_mu5250_manag.Common.{
  ℕ, Bool, true, false, ◌&&◌, Option, none, some, List, [], ◌∷◌, String, if◌then◌else◌, ◌==◌, leb,
  str_eq, get_or_else,
}
use zte_u60_pro_mu5250_manag.Api.Errors.{Thrown, as_api_error, message_of, new_api_error}

pub data Method : Type 0 where
  get post put delete : Method

abbrev pub method_text : Method → String
method_text Method.get = "GET"
method_text Method.post = "POST"
method_text Method.put = "PUT"
method_text Method.delete = "DELETE"

abbrev pub read_timeout_ms : ℕ
read_timeout_ms = 8000

abbrev pub write_timeout_ms : ℕ
write_timeout_ms = 15000

abbrev pub timeout_overrides : List (String × ℕ)
timeout_overrides =
    ("GET /api/homemode/scan", 120000)
    ∷ ("GET /api/scenario/scan", 30000)
    ∷ ("POST /api/scenario/apply", 120000)
    ∷ ("PUT /api/scenario/enabled", 120000)
    ∷ ("PUT /api/wifi/radio", 60000)
    ∷ ("PUT /api/wifi/settings", 60000)
    ∷ ("PUT /api/wifi/guest", 60000)
    ∷ []

unfoldable pub lookup {ℓ} : {V : Type ℓ} → String → List (String × V) → Option V
lookup k [] = none
lookup k ((j, v) ∷ m) = if str_eq j k then some v else lookup k m

-- `path.split("?")[0]`.
unfoldable pub bare_path : String → String
bare_path String.[] = String.[]
bare_path (String.◌∷◌ c s) = if code c == b'?' then String.[] else String.◌∷◌ c (bare_path s)

abbrev pub is_get : Method → Bool
is_get Method.get = true
is_get _ = false

unfoldable pub default_timeout_ms : Method → String → ℕ
unfolding lookup bare_path
default_timeout_ms m path =
    get_or_else
      (lookup (String.◌++◌ (method_text m) (String.◌++◌ " " (bare_path path))) timeout_overrides)
      (if is_get m then read_timeout_ms else write_timeout_ms)

pub data SessionEvent : Type 0 where
  login unauthorized : SessionEvent

-- `localStorage` and the events that were fired on the window, the last one first.
pub record Store : Type 0 where
  pub token : Option String
  pub fired : List SessionEvent

-- `setToken`: an empty token counts as none.
unfoldable pub set_token : Store → Option String → Store
set_token st none = record st { token = none }
set_token st (some t) =
    if str_eq t ""
    then record st { token = none }
    else record { token = some t; fired = SessionEvent.login ∷ st.fired }

unfoldable pub handle_unauthorized : Store → Store
unfolding set_token
handle_unauthorized st =
    let cleared = set_token st none in
    record cleared { fired = SessionEvent.unauthorized ∷ cleared.fired }

-- `tokenAtSend === getToken()`.
abbrev pub same_token : Option String → Option String → Bool
same_token none none = true
same_token none (some _) = false
same_token (some _) none = false
same_token (some a) (some b) = str_eq a b

-- `on401`, in the store as it is when the answer comes.
unfoldable pub on_401 : Store → Option String → Bool → Store × Thrown
unfolding handle_unauthorized
on_401 st sent no_auth =
    if no_auth
    then (st, Thrown.unauthorized "unauthorized" false)
    else if same_token sent st.token
    then (handle_unauthorized st, Thrown.unauthorized "unauthorized" false)
    else (st, Thrown.unauthorized "unauthorized" true)

pub record FetchOptions : Type 0 where
  pub method : Method
  pub raw : Bool
  pub no_auth : Bool
  pub timeout_ms : Option ℕ

-- What a body reads as, or the error and whether the timer had fired.
pub data Read (A : Type 0) : Type 0 where
  value : A → Read A
  broke : Bool → Thrown → Read A

-- The agent's `{ok, data, error, …}`.
pub record Envelope (A : Type 0) : Type 0 where
  pub ok : Bool
  pub payload : Option A
  pub error : Option String
  pub error_en : Option String
  pub busy : Option String
  pub retry_after_s : Option ℕ

pub data Body (A : Type 0) : Type 0 where
  json : Read (Envelope A) → Body A
  text : Read String → Body A

-- The end of `fetch`.
pub data Reply (A : Type 0) : Type 0 where
  failed : Bool → Thrown → Reply A
  response : ℕ → Body A → Reply A

-- What `apiFetch` resolves to.
pub data Answer (A : Type 0) : Type 0 where
  plain : String → Answer A
  whole : Envelope A → Answer A
  unwrapped : Option A → Answer A
  thrown : Thrown → Answer A

-- `res.ok`.
abbrev pub is_ok_status : ℕ → Bool
is_ok_status s = leb 200 s && leb s 299

-- `tokenAtSend`.
abbrev pub token_at_send : Store → Bool → Option String
token_at_send st no_auth = if no_auth then none else st.token

-- `x || d` for an optional text.
abbrev pub text_or : Option String → String → String
text_or none d = d
text_or (some s) d = if str_eq s "" then d else s

module _ (show : ℕ → String) where
  abbrev pub timeout_error : ℕ → Thrown
  timeout_error ms = Thrown.timeout ms (String.◌++◌ "timeout after " (String.◌++◌ (show ms) " ms"))

  abbrev pub plain_error : String → ℕ → Thrown
  plain_error message status = Thrown.api (new_api_error message status none none none)

  abbrev pub http_text : ℕ → String
  http_text status = String.◌++◌ "HTTP " (show status)

  -- `failure`: the timer, else an `ApiError` as it is, else a network error of status 0.
  unfoldable pub failure : Thrown → Bool → ℕ → Thrown
  failure e timed_out ms = if timed_out then timeout_error ms else (elim (as_api_error e) [
    | some _ ↦ e
    | none ↦ plain_error (String.◌++◌ "network error: " (message_of e)) 0
  ])

  -- A body that is not JSON.
  unfoldable pub read_text : {A : Type 0} → ℕ → ℕ → Read String → Answer A
  unfolding failure
  read_text ms status (Read.value t) =
      if is_ok_status status
      then Answer.plain t
      else Answer.thrown (plain_error (http_text status) status)
  read_text ms status (Read.broke timed_out e) =
      if is_ok_status status
      then Answer.thrown (failure e timed_out ms)
      else Answer.thrown (plain_error (http_text status) status)

  -- A JSON body: with `raw` as it is, else the payload or the agent's error.
  unfoldable pub read_json : {A : Type 0} → Bool → ℕ → ℕ → Read (Envelope A) → Answer A
  read_json raw ms status (Read.broke timed_out e) =
      if timed_out
      then Answer.thrown (timeout_error ms)
      else Answer.thrown (plain_error (String.◌++◌ "invalid JSON: " (message_of e)) status)
  read_json raw ms status (Read.value j) =
      if raw
      then Answer.whole j
      else if j.ok
      then Answer.unwrapped j.payload
      else (Answer.thrown (
          Thrown.api (
            new_api_error (text_or j.error (http_text status)) status j.error_en j.busy
              j.retry_after_s)))

  unfoldable pub read_body : {A : Type 0} → Bool → ℕ → ℕ → Body A → Answer A
  unfolding read_text read_json
  read_body raw ms status (Body.text r) = read_text ms status r
  read_body raw ms status (Body.json r) = read_json raw ms status r

  -- `apiFetch`: `before` is the store when the request is sent, `st` when its answer comes.
  unfoldable pub api_fetch :
      {A : Type 0} → Store → Store → FetchOptions → String → Reply A → Store × Answer A
  unfolding failure on_401 read_body
  api_fetch before st opts path (Reply.failed timed_out e) =
      let ms = get_or_else opts.timeout_ms (default_timeout_ms opts.method path) in
      (st, Answer.thrown (failure e timed_out ms))
  api_fetch before st opts path (Reply.response status body) =
      let ms = get_or_else opts.timeout_ms (default_timeout_ms opts.method path) in
      if status == 401
      then (let (after, e) = on_401 st (token_at_send before opts.no_auth) opts.no_auth in
          (after, Answer.thrown e))
      else (st, read_body opts.raw ms status body)
