-- ===== src/Session/Blocking.antt =====
-- proxy.go: a blocked session over any sequence of events.
use soha_app.Session.Cookies.{refresh_token_from_set_cookies, Cookie}
use soha_app.Session.Proxy.{
  mark_session, Kind, Response, accept_session, answer, current_response, desktop_exchange, logout,
  modify_proxy_response, other, password_login, refresh,
}
use soha_app.Base.{
  String, Bool, true, false, ◌≡◌, Option, none, some, List, [], ◌∷◌, arith, any, Option-cases, inl,
  inr,
}
use soha_app.Session.State.{Environment, Host, Target, keyring_delete, keyring_get}
use soha_app.Session.Credentials.{
  block_session, delete_credential, inject_stored, mark_refreshed, read_superseded,
}
use soha_app.Session.Switch.{activate, activate_pending, begin_switch, clear_session}

-- What reaches the host: a response of the server, a request that may get the stored credential, the
-- two halves of a switch, and the end of the session.
pub data Event : Type 0 where
  responds : Response → Event
  proxies : String → Target → Event
  switches : Target → Target → String → String → Event
  activates : String → Event
  clears : Event

-- A response to a password login or to the exchange of a desktop login
abbrev pub signs_in_kind : Kind → Bool
signs_in_kind password_login = true
signs_in_kind desktop_exchange = true
signs_in_kind _ = false

abbrev pub signs_in : Event → Bool
signs_in (responds response) = signs_in_kind response.kind
signs_in _ = false

module _ (env : Environment) (parse_set_cookie : String → Option Cookie) where
  unfoldable pub step : Event → Host → Host
  step (responds response) h = (modify_proxy_response env parse_set_cookie response h).1
  step (proxies present target) h = (inject_stored env present target h).1
  step (switches old_target target code present) h =
      (begin_switch env old_target target code present h).1
  step (activates code) h = (activate env code h).1
  step clears h = clear_session env h

  unfoldable pub run : List Event → Host → Host
  run [] h = h
  run (e ∷ es) h = run es (step e h)

  read_superseded-blocked :
      (target : Target) (token : String) (h : Host)
      → (read_superseded env target token h).1.blocked ≡ h.blocked
  unfolding read_superseded keyring_get
  read_superseded-blocked target token h = ground arith

  block_session-blocked :
      (target : Target) (token : String) (h : Host)
      → h.blocked ≡ true
      → (block_session env target token h).blocked ≡ true
  unfolding block_session
  block_session-blocked target token h b = ground (arith, read_superseded-blocked target token h)

  inject_stored-blocked :
      (present : String) (target : Target) (h : Host)
      → h.blocked ≡ true
      → ((inject_stored env present target h).0 ≡ none)
        × ((inject_stored env present target h).1.blocked ≡ true)
  unfolding inject_stored
  inject_stored-blocked present target h b = ground arith

  accept_session-blocked :
      (response : Response) (target : Target) (h : Host)
      → h.blocked ≡ true
      → (accept_session env parse_set_cookie refresh response target h).1.blocked ≡ true
  unfolding accept_session mark_session mark_refreshed
  accept_session-blocked response target h b =
      let token =
        refresh_token_from_set_cookies parse_set_cookie response.set_cookies target.secure in
      elim (Option-cases token) [ inl e ↦ ground (arith, e) | inr (t, e) ↦ ground (arith, e) ]

  answer-blocked :
      (kind : Kind) (response : Response) (target : Target) (h : Host)
      → signs_in_kind kind ≡ false
      → h.blocked ≡ true
      → (answer env parse_set_cookie kind response target h).1.blocked ≡ true
  unfolding answer
  answer-blocked password_login response target h k b = ground arith
  answer-blocked desktop_exchange response target h k b = ground arith
  answer-blocked refresh response target h k b = accept_session-blocked response target h b
  answer-blocked logout response target h k b = block_session-blocked target "" h b
  answer-blocked other response target h k b = b

  modify_proxy_response-blocked :
      (response : Response) (h : Host)
      → signs_in_kind response.kind ≡ false
      → h.blocked ≡ true
      → (modify_proxy_response env parse_set_cookie response h).1.blocked ≡ true
  unfolding modify_proxy_response current_response
  modify_proxy_response-blocked response h k b = elim (Option-cases response.request_target) [
    | inl e ↦ ground (arith, e)
    | inr (target, e) ↦ ground (
      arith,
      e,
      answer-blocked response.kind response target h k b,
      block_session-blocked target response.request_token h b,
    )
  ]

  begin_switch-blocked :
      (old_target target : Target) (code present : String) (h : Host)
      → h.blocked ≡ true
      → (begin_switch env old_target target code present h).1.blocked ≡ true
  unfolding begin_switch delete_credential keyring_delete
  begin_switch-blocked old_target target code present h b =
      let h1 = record h { pending = some target; pending_code = code } in
      ground (arith, inject_stored-blocked present old_target h1 b)

  activate-blocked :
      (code : String) (h : Host) → h.blocked ≡ true → (activate env code h).1.blocked ≡ true
  unfolding activate activate_pending
  activate-blocked code h b = elim (Option-cases h.pending) [
    | inl e ↦ ground (arith, e)
    | inr (target, e) ↦ ground (arith, e)
  ]

  step-blocked :
      (e : Event) (h : Host) → signs_in e ≡ false → h.blocked ≡ true → (step e h).blocked ≡ true
  unfolding step clear_session
  step-blocked (responds response) h s b = modify_proxy_response-blocked response h s b
  step-blocked (proxies present target) h s b = (inject_stored-blocked present target h b).1
  step-blocked (switches old_target target code present) h s b =
      begin_switch-blocked old_target target code present h b
  step-blocked (activates code) h s b = activate-blocked code h b
  step-blocked clears h s b = block_session-blocked h.target "" h b

  run-blocked :
      (es : List Event) (h : Host)
      → any signs_in es ≡ false
      → h.blocked ≡ true
      → (run es h).blocked ≡ true
  unfolding run
  run-blocked [] h s b = b
  run-blocked (e ∷ es) h s b =
      run-blocked es (step e h) (ground arith) (step-blocked e h (ground arith) b)

  -- A blocked session stays blocked. Whatever responses, requests, switches and clears follow, as long
  -- as none is the answer to a login or to the exchange of a desktop login, no request is given the
  -- stored credential.
  pub run-inject_stored :
      (es : List Event) (present : String) (target : Target) (h : Host)
      → any signs_in es ≡ false
      → h.blocked ≡ true
      → ((run es h).blocked ≡ true) × ((inject_stored env present target (run es h)).0 ≡ none)
  run-inject_stored es present target h s b =
      let still = run-blocked es h s b in
      (still, (inject_stored-blocked present target (run es h) still).0)
