-- ===== src/Session/Secure.antt =====
-- session_credentials.go: what a token taken from the cookies of a response rests on.
use soha_app.Base.{
  inr, inl, String, Bool, true, false, ◌≡◌, Option, none, some, List, [], ◌∷◌, arith, All,
  Option-cases, blank,
}
use soha_app.Session.Cookies.{
  Cookie, is_session, refresh_token_from, refresh_token_from_set_cookies, session_prefix,
  take_cookie, take_value,
}

module _ (parse_set_cookie : String → Option Cookie) where
  -- A session cookie that was parsed is secure, and a cookie that was not parsed is no session cookie.
  abbrev pub IsSecure : String → Type 0
  IsSecure value =
      ((cookie : Cookie)
        → parse_set_cookie value ≡ some cookie
        → is_session cookie ≡ true
        → cookie.secure ≡ true)
      × (parse_set_cookie value ≡ none → session_prefix value ≡ false)

  take_value-IsSecure :
      (token token' value : String)
      → take_value parse_set_cookie true token value ≡ some token'
      → IsSecure value
  unfolding take_value take_cookie
  take_value-IsSecure token token' value h = (λ cookie e s. ground arith, λ e. ground arith)

  refresh_token_from-IsSecure :
      (token token' : String) (values : List String)
      → refresh_token_from parse_set_cookie true token values ≡ some token'
      → All IsSecure values
  unfolding refresh_token_from
  refresh_token_from-IsSecure token token' [] h = tt
  refresh_token_from-IsSecure token token' (value ∷ values) h =
      elim (Option-cases (take_value parse_set_cookie true token value)) [
        | inl e ↦ ground (arith, e)
        | inr (next, e) ↦ (
          take_value-IsSecure token next value e,
          refresh_token_from-IsSecure next token' values (ground (arith, e)),
        )
      ]

  refresh_token_from-nonblank :
      (require_secure : Bool) (token token' : String) (values : List String)
      → refresh_token_from parse_set_cookie require_secure token values ≡ some token'
      → blank token' ≡ false
  unfolding refresh_token_from
  refresh_token_from-nonblank require_secure token token' [] h = ground arith
  refresh_token_from-nonblank require_secure token token' (value ∷ values) h =
      elim (Option-cases (take_value parse_set_cookie require_secure token value)) [
        | inl e ↦ ground (arith, e)
        | inr (next, e) ↦
            refresh_token_from-nonblank require_secure next token' values (ground (arith, e))
      ]

  -- Over https a token is taken only from a response whose session cookies are all marked secure and can
  -- all be parsed, and the token is not empty.
  pub refresh_token_from_set_cookies-IsSecure :
      (values : List String) (token : String)
      → refresh_token_from_set_cookies parse_set_cookie values true ≡ some token
      → (blank token ≡ false) × All IsSecure values
  unfolding refresh_token_from_set_cookies
  refresh_token_from_set_cookies-IsSecure values token h = (
    refresh_token_from-nonblank true "" token values h,
    refresh_token_from-IsSecure "" token values h,
  )
