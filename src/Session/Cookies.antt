-- ===== src/Session/Cookies.antt =====
-- session_credentials.go: refreshTokenFromSetCookies.
use soha_app.Base.{
  ℕ, String, Bool, true, false, not, ◌&&◌, ◌||◌, Option, none, some, List, [], ◌∷◌, ◌==◌, str_eq,
  blank, codes, if◌then◌else◌,
}

-- http.Cookie, as far as the code reads it: whether MaxAge is negative, for its value.
pub record Cookie : Type 0 where
  pub name : String
  pub value : String
  pub secure : Bool
  pub expired : Bool

-- strings.HasPrefix
unfoldable pub has_prefix : List ℕ → List ℕ → Bool
has_prefix cs [] = true
has_prefix [] (p ∷ ps) = false
has_prefix (c ∷ cs) (p ∷ ps) = c == p && has_prefix cs ps

unfoldable pub session_prefix : String → Bool
unfolding has_prefix
session_prefix value =
    has_prefix (codes value) (codes "soha_refresh_token=")
    || has_prefix (codes value) (codes "soha_protocol_access_token=")

unfoldable pub is_refresh : Cookie → Bool
is_refresh cookie = str_eq cookie.name "soha_refresh_token"

unfoldable pub is_session : Cookie → Bool
unfolding is_refresh
is_session cookie = is_refresh cookie || str_eq cookie.name "soha_protocol_access_token"

-- One round of the loop: the token so far after this cookie, `none` for errContractMismatch.
unfoldable pub take_cookie : Bool → String → Cookie → Option String
unfolding is_refresh is_session
take_cookie require_secure token cookie =
    if require_secure && is_session cookie && not cookie.secure
    then none
    else if not (is_refresh cookie)
    then some token
    else if not (blank token) || blank cookie.value || cookie.expired
    then none
    else some cookie.value

-- http.ParseSetCookie is an argument; its error counts only for a session cookie.
module _ (parse_set_cookie : String → Option Cookie) where
  unfoldable pub take_value : Bool → String → String → Option String
  take_value require_secure token value = elim (parse_set_cookie value) [
    | none ↦ if session_prefix value then none else some token
    | some cookie ↦ take_cookie require_secure token cookie
  ]

  unfoldable pub refresh_token_from : Bool → String → List String → Option String
  refresh_token_from require_secure token [] = if blank token then none else some token
  refresh_token_from require_secure token (value ∷ values) =
      elim (take_value require_secure token value) [
        | none ↦ none
        | some token' ↦ refresh_token_from require_secure token' values
      ]

  -- refreshTokenFromSetCookies
  unfoldable pub refresh_token_from_set_cookies : List String → Bool → Option String
  refresh_token_from_set_cookies values require_secure = refresh_token_from require_secure "" values
