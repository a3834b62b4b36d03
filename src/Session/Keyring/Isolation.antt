-- ===== src/Session/Keyring/Isolation.antt =====
-- session_credentials.go and proxy.go: the keyring's other accounts.
use soha_app.Base.{String, Bool, true, false, ◌≡◌, arith, str_eq}
use soha_app.Session.State.{
  Environment, Host, Target, keyring_delete, keyring_get, keyring_set, lookup, save_config,
}
use soha_app.Session.Credentials.{
  block_session, delete_credential, mark_authenticated, mark_refreshed, persist_authenticated,
  read_superseded, replace_credential, save_cleared,
}
use soha_app.Session.Keyring.Lookup.{lookup-remove_other, lookup-store_other}

module _ (env : Environment) where
  -- The other accounts hold what they held.
  abbrev pub IsIsolated : Target → Host → Host → Type 0
  IsIsolated target h h' =
      (other : String)
      → str_eq target.url other ≡ false
      → lookup other h'.stored ≡ lookup other h.stored

  pub read_superseded-stored :
      (target : Target) (token : String) (h : Host)
      → (read_superseded env target token h).1.stored ≡ h.stored
  unfolding read_superseded keyring_get
  read_superseded-stored target token h = ground arith

  pub save_cleared-stored :
      (target : Target) (cleared : Bool) (h : Host)
      → (save_cleared env target cleared h).stored ≡ h.stored
  unfolding save_cleared save_config
  save_cleared-stored target cleared h = ground arith

  delete_credential-IsIsolated :
      (target : Target) (h : Host) → IsIsolated target h (delete_credential env target h)
  unfolding delete_credential keyring_delete
  delete_credential-IsIsolated target h other d =
      ground (arith, lookup-remove_other target.url other h.stored d)

  replace_credential-IsIsolated :
      (target : Target) (token : String) (h : Host)
      → IsIsolated target h (replace_credential env target token h)
  unfolding replace_credential keyring_set keyring_delete
  replace_credential-IsIsolated target token h other d = ground (
    arith,
    lookup-remove_other target.url other h.stored d,
    lookup-store_other target.url other token h.stored d,
  )

  block_session-IsIsolated :
      (target : Target) (token : String) (h : Host)
      → IsIsolated target h (block_session env target token h)
  unfolding block_session
  block_session-IsIsolated target token h other d =
      let h1 = (read_superseded env target token h).1 in
      ground (
        arith,
        read_superseded-stored target token h,
        delete_credential-IsIsolated target h1 other d,
        save_cleared-stored target true (delete_credential env target h1),
      )

  persist_authenticated-IsIsolated :
      (target : Target) (token : String) (h : Host)
      → IsIsolated target h (persist_authenticated env target token h)
  unfolding persist_authenticated
  persist_authenticated-IsIsolated target token h other d = ground (
    arith,
    replace_credential-IsIsolated target token h other d,
    save_cleared-stored target false (replace_credential env target token h),
  )

  -- One server's session is not another's. Signing in, refreshing and blocking at one server leave what
  -- the keyring holds for every other account as it was, whichever calls fail.
  pub mark_refreshed-IsIsolated :
      (target : Target) (old_token new_token : String) (h : Host)
      → IsIsolated target h (mark_refreshed env target old_token new_token h).1
        × IsIsolated target h (mark_authenticated env target new_token h).1
        × IsIsolated target h (block_session env target old_token h)
  unfolding mark_refreshed mark_authenticated
  mark_refreshed-IsIsolated target old_token new_token h =
      let h1 = (read_superseded env target old_token h).1 in
      (
        λ other d. ground (
          arith,
          read_superseded-stored target old_token h,
          persist_authenticated-IsIsolated target new_token h1 other d,
        ),
        λ other d. ground (arith, persist_authenticated-IsIsolated target new_token h other d),
        block_session-IsIsolated target old_token h,
      )
