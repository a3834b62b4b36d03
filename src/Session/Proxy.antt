-- ===== src/Session/Proxy.antt =====
-- proxy.go: modifyProxyResponse, as far as it touches the session.
use soha_app.Base.{
  ℕ, String, Bool, true, false, not, ◌&&◌, ◌||◌, Option, none, some, List, ltb, leb, ◌==◌,
  if◌then◌else◌,
}
use soha_app.Session.State.{Environment, Host, Target, same_target}
use soha_app.Session.Cookies.{Cookie, refresh_token_from_set_cookies}
use soha_app.Session.Credentials.{block_session, mark_authenticated, mark_refreshed}

-- The request of a response, by method and path.
pub data Kind : Type 0 where
  password_login refresh logout desktop_exchange other : Kind

pub record Response : Type 0 where
  pub kind : Kind
  -- the target the request was sent to, none for one without
  pub request_target : Option Target
  -- the request's own refresh cookie, "" for none
  pub request_token : String
  pub status : ℕ
  pub set_cookies : List String
  -- redactAuthRefreshToken found a body that it could read
  pub redactable : Bool

unfoldable pub is_redirect : ℕ → Bool
is_redirect status = leb 300 status && ltb status 400

-- rejectUpstreamRedirect: a redirect becomes a 502 without cookies.
unfoldable pub effective_status : ℕ → ℕ
effective_status status = if is_redirect status then 502 else status

unfoldable pub is_unauthorized : ℕ → Bool
is_unauthorized status = status == 401 || status == 403

unfoldable pub is_success : ℕ → Bool
is_success status = leb 200 status && ltb status 300

module _ (env : Environment) (parse_set_cookie : String → Option Cookie) where
  unfoldable pub mark_session : Kind → Response → Target → String → Host → Bool × Host
  mark_session refresh response target token h =
      mark_refreshed env target response.request_token token h
  mark_session _ response target token h = mark_authenticated env target token h

  -- The session of a successful login, exchange or refresh; `false` is errContractMismatch.
  unfoldable pub accept_session : Kind → Response → Target → Host → Bool × Host
  accept_session kind response target h =
      elim (refresh_token_from_set_cookies parse_set_cookie response.set_cookies target.secure) [
        | none ↦ (false, h)
        | some token ↦
            if response.redactable then mark_session kind response target token h else (false, h)
      ]

  unfoldable pub answer : Kind → Response → Target → Host → Bool × Host
  answer logout response target h = (true, block_session env target "" h)
  answer other response target h = (true, h)
  answer kind response target h = accept_session kind response target h

  is_refresh_kind : Kind → Bool
  is_refresh_kind refresh = true
  is_refresh_kind _ = false

  unfoldable pub current_response : Response → Target → Host → Bool × Host
  unfolding is_refresh_kind
  current_response response target h =
      let status = effective_status response.status in
      if is_refresh_kind response.kind && is_unauthorized status
      then (true, block_session env target response.request_token h)
      else if not (is_success status)
      then (true, h)
      else answer response.kind response target h

  -- modifyProxyResponse
  unfoldable pub modify_proxy_response : Response → Host → Bool × Host
  modify_proxy_response response h = elim response.request_target [
    | none ↦ (false, h)
    | some target ↦
        if same_target target h.target then current_response response target h else (false, h)
  ]
