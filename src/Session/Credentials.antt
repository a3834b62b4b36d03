-- ===== src/Session/Credentials.antt =====
-- session_credentials.go and proxy.go: the stored refresh credential, and the session's block.
use soha_app.Base.{
  String, Bool, true, false, not, ◌&&◌, ◌||◌, Option, none, some, str_eq, blank, if◌then◌else◌,
}
use soha_app.Session.State.{
  Environment, Host, Read, Target, found, keyring_delete, keyring_get, keyring_set, same_target,
  save_config,
}

module _ (env : Environment) where
  -- The cookie that injectStoredRefreshCredential adds, if any; `present` is the request's own token.
  unfoldable pub inject_stored : String → Target → Host → Option String × Host
  inject_stored present target h =
      if not (blank present)
      then (none, h)
      else if h.blocked || not (same_target target h.target) || not env.has_keyring
      then (none, h)
      else let (read, h1) = keyring_get env target.url h in
        elim read [ found token ↦ (if blank token then none else some token, h1) | _ ↦ (none, h1) ]

  unfoldable pub replace_credential : Target → String → Host → Host
  replace_credential target token h =
      if not env.has_keyring || blank token
      then h
      else let (stored, h1) = keyring_set env target.url token h in
        if stored then h1 else keyring_delete env target.url h1

  unfoldable pub delete_credential : Target → Host → Host
  delete_credential target h = if not env.has_keyring then h else keyring_delete env target.url h

  -- The stored token is another than the one that was used.
  unfoldable pub superseded : Read → String → Bool
  superseded (found stored) token = not (blank stored) && not (str_eq stored token)
  superseded _ token = false

  -- The read that blockSession and markRefreshed make of the stored token.
  unfoldable pub read_superseded : Target → String → Host → Bool × Host
  unfolding superseded
  read_superseded target token h =
      if blank token || not env.has_keyring
      then (false, h)
      else let (read, h1) = keyring_get env target.url h in (superseded read token, h1)

  unfoldable pub save_cleared : Target → Bool → Host → Host
  save_cleared target cleared h =
      if not env.has_config then h else (save_config env target.url cleared h).1

  -- blockSession
  unfoldable pub block_session : Target → String → Host → Host
  block_session target rejected_token h =
      if not (same_target target h.target)
      then h
      else let (newer, h1) = read_superseded target rejected_token h in
        if newer
        then h1
        else record (save_cleared target true (delete_credential target h1)) { blocked = true }

  -- persistAuthenticatedLocked
  unfoldable pub persist_authenticated : Target → String → Host → Host
  persist_authenticated target token h =
      record (save_cleared target false (replace_credential target token h)) { blocked = false }

  -- markAuthenticated
  unfoldable pub mark_authenticated : Target → String → Host → Bool × Host
  mark_authenticated target token h =
      if not (same_target target h.target)
      then (false, h)
      else (true, persist_authenticated target token h)

  -- markRefreshed
  unfoldable pub mark_refreshed : Target → String → String → Host → Bool × Host
  mark_refreshed target previous_token next_token h =
      if not (same_target target h.target) || h.blocked
      then (false, h)
      else let (newer, h1) = read_superseded target previous_token h in
        if newer then (false, h1) else (true, persist_authenticated target next_token h1)
