-- ===== src/Api/Session.antt =====
-- What a request does to the session (web/src/lib/api/client.ts, R11), and its time limit.
use Prim.Native.String
use text.Mathlib.TextEquality.{eq_iff}
use zte_u60_pro_mu5250_manag.Common.{
  ℕ, ◌≤◌, ◌≡◌, ◌≢◌, refl, ◌⊎◌, inl, inr, true, false, Option, none, some, List, [], ◌∷◌, String,
  ◌==◌, Bool-cases, Option-cases, str_eq, All, if◌then◌else◌, arith,
}
use zte_u60_pro_mu5250_manag.Api.Errors.{Thrown}
use zte_u60_pro_mu5250_manag.Api.Client.{
  Method, Store, SessionEvent, FetchOptions, Reply, Body, Answer, set_token, same_token, api_fetch,
  lookup, default_timeout_ms, timeout_overrides, read_timeout_ms, write_timeout_ms, is_get,
  bare_path, method_text,
}

pub same_token_iff : (a b : Option String) → same_token a b ≡ true → a ≡ b
same_token_iff none none h = refl
same_token_iff none (some b) h = cc
same_token_iff (some a) none h = cc
same_token_iff (some a) (some b) h = ground (arith, eq_iff a b)

same_token_refl : (a : Option String) → same_token a a ≡ true
same_token_refl none = refl
same_token_refl (some a) = ground (arith, eq_iff a a)

module _ (show : ℕ → String) {A : Type 0} (before st : Store) (opts : FetchOptions)
    (path : String) where
  -- A 401 to a request that asks for authorisation and was sent with the current token clears the
  -- token, tells the page once, and is thrown as one that is not stale.
  pub current_401_ends_session :
      (body : Body A)
      → opts.no_auth ≡ false
      → before.token ≡ st.token
      → api_fetch show before st opts path (Reply.response 401 body) ≡ (
        record { token = none; fired = SessionEvent.unauthorized ∷ st.fired },
        Answer.thrown (Thrown.unauthorized "unauthorized" false),
      )
  unfolding api_fetch set_token
  current_401_ends_session body n t = ground (arith, same_token_refl st.token)

  -- A request leaves the store as it is if it asks for no authorisation, if its token is no longer
  -- the current one, or if its answer is a failure or another status than 401.
  pub api_fetch-keeps_session :
      (reply : Reply A)
      → (opts.no_auth ≡ true)
        ⊎ (before.token ≢ st.token)
        ⊎ ((body : Body A) → reply ≢ Reply.response 401 body)
      → (api_fetch show before st opts path reply).0 ≡ st
  unfolding api_fetch
  api_fetch-keeps_session (Reply.failed timed_out e) h = refl
  api_fetch-keeps_session (Reply.response status body) (inl n) = ground arith
  api_fetch-keeps_session (Reply.response status body) (inr (inl t)) =
      ground (arith, same_token_iff before.token st.token)
  api_fetch-keeps_session (Reply.response status body) (inr (inr other)) =
      elim (Bool-cases (status == 401)) [
        | inl e ↦ absurd (other body (ground arith))
        | inr ne ↦ ground arith
      ]

lookup-All :
    (P : ℕ → Type 0) (k : String) (m : List (String × ℕ)) (n : ℕ)
    → All (λ e. P e.1) m
    → lookup k m ≡ some n
    → P n
unfolding lookup
lookup-All P k [] n a h = cc
lookup-All P k ((j, v) ∷ m) n (p, ps) h = elim (Bool-cases (str_eq j k)) [
  | inl e ↦ let q : v ≡ n = ground arith in mathlib.Core.Path.subst P q p
  | inr e ↦ lookup-All P k m n ps (ground arith)
]

-- The default time limit of a request is between 8 seconds and 2 minutes, for a write at least 15
-- seconds: an override never lowers it.
pub default_timeout_bounds :
    (m : Method) (path : String)
    → ((if is_get m then read_timeout_ms else write_timeout_ms) ≤ default_timeout_ms m path)
      × (default_timeout_ms m path ≤ 120000)
unfolding default_timeout_ms
default_timeout_bounds m path =
    let key = String.◌++◌ (method_text m) (String.◌++◌ " " (bare_path path)) in
    elim (Option-cases (lookup key timeout_overrides)) [
      | inl e ↦ ground arith
      | inr (n, e) ↦
          let low = lookup-All (λ v. 15000 ≤ v) key timeout_overrides n (omega arith) e in
          let high = lookup-All (λ v. v ≤ 120000) key timeout_overrides n (omega arith) e in
          ground arith
    ]
