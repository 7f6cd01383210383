-- ===== src/Api/Binary.antt =====
-- The base address and binary downloads of web/src/lib/api/client.ts.
use Prim.Native.Char.{code}
use zte_u60_pro_mu5250_manag.Common.{
  ℕ, ◌≡◌, Bool, false, ◌||◌, Option, none, some, String, if◌then◌else◌, ◌==◌, str_eq, get_or_else,
  arith,
}
use zte_u60_pro_mu5250_manag.Api.Errors.{Thrown}
use zte_u60_pro_mu5250_manag.Api.Client.{
  Method, Store, Read, Body, Reply, default_timeout_ms, on_401, is_ok_status, failure, plain_error,
  http_text, api_fetch,
}

abbrev pub default_base : String
default_base = "http://192.168.0.1:9090"

-- `url.replace(/\/$/, "")`.
unfoldable pub strip_slash : String → String
strip_slash String.[] = String.[]
strip_slash (String.◌∷◌ c String.[]) = if code c == b'/' then String.[] else String.◌∷◌ c String.[]
strip_slash (String.◌∷◌ c (String.◌∷◌ d s)) = String.◌∷◌ c (strip_slash (String.◌∷◌ d s))

-- The page's address.
pub record Location : Type 0 where
  pub hostname : String
  pub origin : String

abbrev pub own_base : Location → String
own_base l =
    if str_eq l.hostname "localhost" || str_eq l.hostname "127.0.0.1"
    then default_base
    else l.origin

-- `getApiBase` in a browser, `stored` being what the storage holds.
unfoldable pub get_api_base : Option String → Location → String
unfolding strip_slash
get_api_base none l = own_base l
get_api_base (some s) l = if str_eq s "" then own_base l else strip_slash s

-- What `setApiBase` stores.
unfoldable pub set_api_base : String → Option String
unfolding strip_slash
set_api_base url = some (strip_slash url)

-- The end of a `fetch` of bytes.
pub data BinaryReply (A : Type 0) : Type 0 where
  failed : Bool → Thrown → BinaryReply A
  response : ℕ → Read A → BinaryReply A

pub data BinaryAnswer (A : Type 0) : Type 0 where
  bytes : A → BinaryAnswer A
  thrown : Thrown → BinaryAnswer A

module _ (show : ℕ → String) where
  unfoldable pub read_bytes : {A : Type 0} → ℕ → ℕ → Read A → BinaryAnswer A
  unfolding failure
  read_bytes ms status (Read.value x) =
      if is_ok_status status
      then BinaryAnswer.bytes x
      else BinaryAnswer.thrown (plain_error show (http_text show status) status)
  read_bytes ms status (Read.broke timed_out e) =
      if is_ok_status status
      then BinaryAnswer.thrown (failure show e timed_out ms)
      else BinaryAnswer.thrown (plain_error show (http_text show status) status)

  -- `apiFetchBinary`: `before` is the store when the request is sent, `st` when its answer comes.
  unfoldable pub api_fetch_binary :
      {A : Type 0} → Store → Store → Option ℕ → String → BinaryReply A → Store × BinaryAnswer A
  unfolding failure on_401 read_bytes default_timeout_ms
  api_fetch_binary before st timeout_ms path (BinaryReply.failed timed_out e) =
      let ms = get_or_else timeout_ms (default_timeout_ms Method.get path) in
      (st, BinaryAnswer.thrown (failure show e timed_out ms))
  api_fetch_binary before st timeout_ms path (BinaryReply.response status body) =
      let ms = get_or_else timeout_ms (default_timeout_ms Method.get path) in
      if status == 401
      then (let (after, e) = on_401 st before.token false in (after, BinaryAnswer.thrown e))
      else (st, read_bytes ms status body)

  -- A download treats the session as any other read does: the same store is left by both, whatever
  -- the status and the body.
  pub api_fetch_binary-session :
      {A B : Type 0} (before st : Store) (timeout_ms : Option ℕ) (path : String) (status : ℕ)
      (download : Read A) (body : Body B)
      → (api_fetch_binary before st timeout_ms path (BinaryReply.response status download)).0
        ≡ (api_fetch show before st
            (record { method = Method.get; raw = false; no_auth = false; timeout_ms = timeout_ms })
            path
            (Reply.response status body)).0
  unfolding api_fetch_binary api_fetch
  api_fetch_binary-session before st timeout_ms path status download body = ground arith
