-- ===== src/Api/Once.antt =====
-- A read that is sent once more (`fetchOnce` of web/src/lib/hooks/useApi.ts).
use zte_u60_pro_mu5250_manag.Common.{
  ℕ, ◌≡◌, ◌≢◌, refl, ◌⊎◌, inl, inr, true, false, String, Bool, Bool-cases, if◌then◌else◌,
}
use zte_u60_pro_mu5250_manag.Api.Errors.{Thrown}
use zte_u60_pro_mu5250_manag.Api.Client.{
  Store, FetchOptions, Reply, Body, Answer, same_token, api_fetch,
}
use zte_u60_pro_mu5250_manag.Api.Session.{api_fetch-keeps_session, same_token_iff}

module _ (show : ℕ → String) {A : Type 0} where
  -- The answer of a stale 401.
  abbrev pub is_stale_answer : Answer A → Bool
  is_stale_answer (Answer.thrown (Thrown.unauthorized message stale)) = stale
  is_stale_answer a = false

  -- `fetchOnce`: `later` is the store when the answer to the second request comes.
  unfoldable pub fetch_once :
      Store → Store → FetchOptions → String → Reply A → Store → Reply A → Store × Answer A
  unfolding api_fetch
  fetch_once before st opts path reply later second =
      let first = api_fetch show before st opts path reply in
      let again = api_fetch show first.0 later opts path second in
      if is_stale_answer first.1 then again else first

  module _ (before st later : Store) (opts : FetchOptions) (path : String) (second : Reply A) where
    stale_answer :
        (body : Body A)
        → opts.no_auth ≡ false
        → before.token ≢ st.token
        → is_stale_answer (api_fetch show before st opts path (Reply.response 401 body)).1 ≡ true
    unfolding api_fetch
    stale_answer body n t =
        let differ : same_token before.token st.token ≡ false = other (Bool-cases _) in
        rw (n, differ) refl
      where
        other :
            (same_token before.token st.token ≡ true) ⊎ (same_token before.token st.token ≡ false)
            → same_token before.token st.token ≡ false
        other (inl e) = absurd (t (same_token_iff before.token st.token e))
        other (inr e) = e

    -- A 401 to a read whose token is no longer the current one leaves the session as it is, and the
    -- read is sent again with the current token: what it ends with is what that request ends with.
    pub fetch_once_stale :
        (body : Body A)
        → opts.no_auth ≡ false
        → before.token ≢ st.token
        → fetch_once before st opts path (Reply.response 401 body) later second
          ≡ api_fetch show st later opts path second
    unfolding fetch_once
    fetch_once_stale body n t =
        rw
          (
            stale_answer body n t,
            api_fetch-keeps_session show before st opts path (Reply.response 401 body)
                (inr (inl t)),
          )
          refl
