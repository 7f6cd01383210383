-- ===== src/Api/Errors.antt =====
-- The errors of web/src/lib/api/types.ts as one type of thrown values, a constructor for each
-- class. `retryAfterS` is kept; an empty `error_en` or `busy` is not set, as in the constructor.
use zte_u60_pro_mu5250_manag.Common.{ℕ, Bool, Option, none, some, String, if◌then◌else◌, str_eq}

pub record ApiError : Type 0 where
  pub message : String
  pub status : ℕ
  pub message_en : Option String
  pub busy : Option String
  pub retry_after_s : Option ℕ

-- `if (x) this.field = x`: an empty text counts as absent.
abbrev pub non_empty : Option String → Option String
non_empty none = none
non_empty (some s) = if str_eq s "" then none else some s

unfoldable pub new_api_error : String → ℕ → Option String → Option String → Option ℕ → ApiError
new_api_error message status message_en busy retry_after_s = record {
  message = message;
  status = status;
  message_en = non_empty message_en;
  busy = non_empty busy;
  retry_after_s = retry_after_s;
}

pub data Thrown : Type 0 where
  -- A plain `ApiError`.
  api : ApiError → Thrown
  -- `UnauthorizedError(message, staleToken)`: status 401.
  unauthorized : String → Bool → Thrown
  -- `TimeoutError(timeoutMs, message)`: status 0.
  timeout : ℕ → String → Thrown
  -- `InvalidDataError(reason)`, no `ApiError`.
  invalid_data : String → Thrown
  -- Any other value, by the text that `String(e)` or its `message` gives.
  foreign : String → Thrown

-- `e instanceof ApiError`, with its fields: the two subclasses pass a message and a status.
unfoldable pub as_api_error : Thrown → Option ApiError
unfolding new_api_error
as_api_error (Thrown.api e) = some e
as_api_error (Thrown.unauthorized message stale) = some (new_api_error message 401 none none none)
as_api_error (Thrown.timeout ms message) = some (new_api_error message 0 none none none)
as_api_error (Thrown.invalid_data reason) = none
as_api_error (Thrown.foreign message) = none

unfoldable pub message_of : Thrown → String
message_of (Thrown.api e) = e.message
message_of (Thrown.unauthorized message stale) = message
message_of (Thrown.timeout ms message) = message
message_of (Thrown.invalid_data reason) = reason
message_of (Thrown.foreign message) = message

unfoldable pub message_en_of : Thrown → Option String
message_en_of (Thrown.api e) = e.message_en
message_en_of _ = none

pub data Lang : Type 0 where
  zh en : Lang

-- `errorText`: the agent's English in English mode, else the message.
unfoldable pub error_text : Thrown → Lang → String
unfolding message_of message_en_of
error_text e Lang.zh = message_of e
error_text e Lang.en = elim (message_en_of e) [ none ↦ message_of e | some m ↦ m ]
