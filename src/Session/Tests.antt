-- ===== src/Session/Tests.antt =====
-- The session on a concrete host: signed in at one server, with another server's token beside.
use soha_app.Session.Secure.{refresh_token_from_set_cookies-IsSecure, IsSecure}
use soha_app.Base.{
  All, String, true, false, ◌≡◌, ◌⊎◌, Option, none, some, List, [], ◌∷◌, refl, str_eq, blank,
}
use soha_app.Session.Cookies.{
  take_cookie, take_value, refresh_token_from, refresh_token_from_set_cookies, Cookie,
}
use soha_app.Session.State.{Environment, Host, Target, lookup, same_target}
use soha_app.Session.Credentials.{
  block_session, inject_stored, mark_authenticated, mark_refreshed, read_superseded,
}
use soha_app.Session.Proxy.{Response, refresh}
use soha_app.Session.Blocking.{
  Event, clears, proxies, responds, run, run-inject_stored, switches, activates,
}
use soha_app.Session.Keyring.Isolation.{IsIsolated, mark_refreshed-IsIsolated}
use soha_app.Session.Keyring.Superseded.{HasNewer, IsNewest, IsUntouched}
use soha_app.Session.Keyring.{
  IsEnded, IsTaken, block_session-stored, mark_authenticated-inject_stored,
  mark_authenticated-stored, mark_refreshed-superseded,
}

abbrev target : Target
target = record { handle = 1; url = "https://soha.example"; secure = true }

abbrev other_target : Target
other_target = record { handle = 2; url = "https://other.example"; secure = true }

abbrev env : Environment
env = record {
  has_keyring = true;
  has_config = true;
  fails = λ call. false;
  replaces = λ call. false;
}

abbrev host : Host
host = record {
  target = target;
  blocked = false;
  source = "saved";
  pending = none;
  pending_code = "";
  stored =
      record { account = "https://soha.example"; token = "first" }
      ∷ record { account = "https://other.example"; token = "elsewhere" }
      ∷ [];
  saved = none;
  clock = 0;
}

abbrev blocked_host : Host
blocked_host = record host { blocked = true }

abbrev cookie : String → Option Cookie
cookie value =
    some (record { name = "soha_refresh_token"; value = value; secure = true; expired = false })

abbrev refreshed : Response
refreshed = record {
  kind = refresh;
  request_target = some target;
  request_token = "first";
  status = 200;
  set_cookies = "second" ∷ [];
  redactable = true;
}

abbrev events : List Event
events =
    responds refreshed
    ∷ proxies "" target
    ∷ switches target other_target "code" ""
    ∷ activates "code"
    ∷ clears
    ∷ []

run-inject_stored_example :
    ((run env cookie events blocked_host).blocked ≡ true)
    × ((inject_stored env "" other_target (run env cookie events blocked_host)).0 ≡ none)
run-inject_stored_example =
    run-inject_stored env cookie events "" other_target blocked_host refl refl

mark_refreshed-IsIsolated_example :
    IsIsolated env target host (mark_refreshed env target "first" "second" host).1
    × IsIsolated env target host (mark_authenticated env target "second" host).1
    × IsIsolated env target host (block_session env target "first" host)
mark_refreshed-IsIsolated_example = mark_refreshed-IsIsolated env target "first" "second" host

mark_authenticated-stored_example :
    let h = (mark_authenticated env target "second" host).1 in
    (h.blocked ≡ false)
    × ((lookup "https://soha.example" h.stored ≡ some "second")
        ⊎ (lookup "https://soha.example" h.stored ≡ none)
        ⊎ ((false ≡ true) × (false ≡ true)))
unfolding blank same_target
mark_authenticated-stored_example =
    mark_authenticated-stored env target "second" host refl refl refl

block_session-stored_example :
    let h = block_session env target "first" host in
    (HasNewer target "first" host × IsUntouched host h)
    ⊎ (IsNewest target "first" host × IsEnded env target h)
unfolding same_target
block_session-stored_example =
    block_session-stored env target "first" host refl refl refl (λ n. refl)

mark_authenticated-inject_stored_example :
    (inject_stored env "" target (mark_authenticated env target "second" host).1).0 ≡ some "second"
unfolding blank same_target
mark_authenticated-inject_stored_example =
    mark_authenticated-inject_stored env target "second" host refl refl refl refl refl

mark_refreshed-superseded_example :
    let (worked, h) = mark_refreshed env target "stale" "second" host in
    ((worked ≡ false)
      × IsUntouched host h
      × ((same_target target host.target ≡ false)
          ⊎ (host.blocked ≡ true)
          ⊎ HasNewer target "stale" host))
    ⊎ ((worked ≡ true)
        × (same_target target host.target ≡ true)
        × (host.blocked ≡ false)
        × IsNewest target "stale" host
        × IsTaken env target "second" (read_superseded env target "stale" host).1.clock h)
unfolding blank
mark_refreshed-superseded_example =
    mark_refreshed-superseded env target "stale" "second" host refl refl refl

refresh_token_from_set_cookies-IsSecure_example :
    (blank "second" ≡ false) × All (IsSecure cookie) ("second" ∷ [])
unfolding refresh_token_from_set_cookies refresh_token_from take_value take_cookie blank str_eq
refresh_token_from_set_cookies-IsSecure_example =
    refresh_token_from_set_cookies-IsSecure cookie ("second" ∷ []) "second" refl
