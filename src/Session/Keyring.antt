-- ===== src/Session/Keyring.antt =====
-- session_credentials.go and proxy.go: what the keyring holds after the session changes.
pub mod Lookup
pub mod Isolation
pub mod Superseded
use soha_app.Session.Keyring.Superseded.{
  HasNewer, IsNewest, IsUntouched, read_superseded-IsUntouched, read_superseded-cases,
}
use soha_app.Base.{
  ◌∙◌, suc, ℕ, String, Bool, true, false, ◌≡◌, ◌⊎◌, none, some, List, [], ◌∷◌, arith, refl, inl,
  inr, blank, Bool-cases,
}
use soha_app.Session.State.{
  Credential, Environment, Host, Target, keyring_delete, keyring_get, keyring_set, lookup, read_of,
  remove, same_target, save_config, store,
}
use soha_app.Session.Credentials.{
  block_session, delete_credential, inject_stored, mark_authenticated, mark_refreshed,
  persist_authenticated, read_superseded, replace_credential, save_cleared, superseded,
}
use soha_app.Session.Keyring.Lookup.{lookup-remove, lookup-store}
use soha_app.Session.Keyring.Isolation.{read_superseded-stored, save_cleared-stored}

module _ (env : Environment) where
  -- What is stored after a sign-in is never stale. After a sign-in at the current server the keyring
  -- holds the new token for it, or none, unless both the keyring's write and the removal that follows it
  -- failed; and the session is not blocked.
  pub mark_authenticated-stored :
      (target : Target) (token : String) (h : Host)
      → same_target target h.target ≡ true
      → env.has_keyring ≡ true
      → blank token ≡ false
      → let h' = (mark_authenticated env target token h).1 in
        (h'.blocked ≡ false)
        × ((lookup target.url h'.stored ≡ some token)
            ⊎ (lookup target.url h'.stored ≡ none)
            ⊎ ((env.fails h.clock ≡ true) × (env.fails (suc h.clock) ≡ true)))
  unfolding mark_authenticated persist_authenticated replace_credential keyring_set keyring_delete
  mark_authenticated-stored target token h s k b = ground (
    arith,
    lookup-remove target.url h.stored,
    lookup-store target.url token h.stored,
    save_cleared-stored env target false (replace_credential env target token h),
  )

  delete_credential-lookup :
      (target : Target) (h : Host)
      → env.has_keyring ≡ true
      → env.fails h.clock ≡ false
      → lookup target.url (delete_credential env target h).stored ≡ none
  unfolding delete_credential keyring_delete
  delete_credential-lookup target h k works = ground (arith, lookup-remove target.url h.stored)

  save_cleared-saved :
      (target : Target) (cleared : Bool) (h : Host)
      → env.has_config ≡ true
      → env.fails h.clock ≡ false
      → (save_cleared env target cleared h).saved
        ≡ some (record { server_url = target.url; credentials_blocked = cleared })
  unfolding save_cleared save_config
  save_cleared-saved target cleared h c works = ground arith

  -- The session is blocked, no token is stored for the server, and the session is saved as cleared.
  abbrev pub IsEnded : Target → Host → Type 0
  IsEnded target h' =
      (h'.blocked ≡ true)
      × (lookup target.url h'.stored ≡ none)
      × (h'.saved ≡ some (record { server_url = target.url; credentials_blocked = true }))

  -- A refused token ends its session only. Where no call fails, blocking the session at the current
  -- server finds another token stored than the one that was refused, and changes nothing; or the refused
  -- token is the newest that there is, and then the session is blocked, no token is left for the server,
  -- and the session is saved as cleared.
  pub block_session-stored :
      (target : Target) (token : String) (h : Host)
      → same_target target h.target ≡ true
      → env.has_keyring ≡ true
      → env.has_config ≡ true
      → ((n : ℕ) → env.fails n ≡ false)
      → (HasNewer target token h × IsUntouched h (block_session env target token h))
        ⊎ (IsNewest target token h × IsEnded target (block_session env target token h))
  unfolding block_session
  block_session-stored target token h s k c works =
      let h1 = (read_superseded env target token h).1 in
      let h2 = delete_credential env target h1 in
      elim (read_superseded-cases env target token h k (works h.clock)) [
        | inl (newer, held) ↦
            inl (held, ground (arith, s, newer, read_superseded-IsUntouched env target token h))
        | inr (newest, held) ↦ inr (
          held,
          ground (
            arith,
            s,
            newest,
            delete_credential-lookup target h1 k (works h1.clock),
            save_cleared-stored env target true h2,
            save_cleared-saved target true h2 c (works h2.clock),
          ),
        )
      ]

  inject_stored-found :
      (target : Target) (token : String) (h : Host)
      → h.blocked ≡ false
      → same_target target h.target ≡ true
      → env.has_keyring ≡ true
      → env.fails h.clock ≡ false
      → lookup target.url h.stored ≡ some token
      → blank token ≡ false
      → (inject_stored env "" target h).0 ≡ some token
  unfolding inject_stored keyring_get
  inject_stored-found target token h b s k works l n =
      let empty : blank "" ≡ true = unfold blank in refl in ground (arith, empty)

  replace_credential-lookup :
      (target : Target) (token : String) (h : Host)
      → env.has_keyring ≡ true
      → env.fails h.clock ≡ false
      → blank token ≡ false
      → let h' = replace_credential env target token h in
        (lookup target.url h'.stored ≡ some token) × (h'.target ≡ h.target)
  unfolding replace_credential keyring_set
  replace_credential-lookup target token h k works n =
      ground (arith, lookup-store target.url token h.stored)

  save_cleared-target :
      (target : Target) (cleared : Bool) (h : Host)
      → (save_cleared env target cleared h).target ≡ h.target
  unfolding save_cleared save_config
  save_cleared-target target cleared h = ground arith

  -- A stored session is used. After a sign-in at the current server at which the keyring took the token,
  -- a request to that server without a token of its own is given the new token, if the keyring can be
  -- read then. The configuration need not have been saved.
  pub mark_authenticated-inject_stored :
      (target : Target) (token : String) (h : Host)
      → same_target target h.target ≡ true
      → env.has_keyring ≡ true
      → blank token ≡ false
      → env.fails h.clock ≡ false
      → env.fails (mark_authenticated env target token h).1.clock ≡ false
      → (inject_stored env "" target (mark_authenticated env target token h).1).0 ≡ some token
  unfolding mark_authenticated persist_authenticated
  mark_authenticated-inject_stored target token h s k b sets reads =
      let h1 = replace_credential env target token h in
      let (at, here) = replace_credential-lookup target token h k sets b in
      let h2 = persist_authenticated env target token h in
      let there : h2.target ≡ h.target = save_cleared-target target false h1 ∙ here in
      let held : lookup target.url h2.stored ≡ some token =
        rw (save_cleared-stored env target false h1) at in
      rw s
        (inject_stored-found target token h2 refl (rw there s) k (ground (arith, s, reads)) held b)

  -- What mark_refreshed leaves when it takes a token: as after a sign-in.
  abbrev pub IsTaken : Target → String → ℕ → Host → Type 0
  IsTaken target token clock h' =
      (h'.blocked ≡ false)
      × ((lookup target.url h'.stored ≡ some token)
          ⊎ (lookup target.url h'.stored ≡ none)
          ⊎ ((env.fails clock ≡ true) × (env.fails (suc clock) ≡ true)))

  persist_authenticated-IsTaken :
      (target : Target) (token : String) (h : Host)
      → env.has_keyring ≡ true
      → blank token ≡ false
      → IsTaken target token h.clock (persist_authenticated env target token h)
  unfolding persist_authenticated replace_credential keyring_set keyring_delete
  persist_authenticated-IsTaken target token h k b = ground (
    arith,
    lookup-remove target.url h.stored,
    lookup-store target.url token h.stored,
    save_cleared-stored env target false (replace_credential env target token h),
  )

  -- A refresh is taken exactly when it may be. Where the keyring can be read, markRefreshed refuses and
  -- changes nothing, and then the server is not the current one, the session is blocked, or another token
  -- is stored than the one that was refreshed; or it takes the new token, and then the server is the
  -- current one, the session was not blocked, the old token was empty or no other one was stored, and the
  -- keyring holds the new token, or none, unless both its write and the removal behind it failed.
  pub mark_refreshed-superseded :
      (target : Target) (old_token new_token : String) (h : Host)
      → env.has_keyring ≡ true
      → env.fails h.clock ≡ false
      → blank new_token ≡ false
      → let (worked, h') = mark_refreshed env target old_token new_token h in
        ((worked ≡ false)
          × IsUntouched h h'
          × ((same_target target h.target ≡ false)
              ⊎ (h.blocked ≡ true)
              ⊎ HasNewer target old_token h))
        ⊎ ((worked ≡ true)
            × (same_target target h.target ≡ true)
            × (h.blocked ≡ false)
            × IsNewest target old_token h
            × IsTaken target new_token (read_superseded env target old_token h).1.clock h')
  unfolding mark_refreshed
  mark_refreshed-superseded target old_token new_token h k works n =
      let h1 = (read_superseded env target old_token h).1 in
      elim (Bool-cases (same_target target h.target)) [
        | inr elsewhere ↦ inl (ground (arith, elsewhere), ground (arith, elsewhere), inl elsewhere)
        | inl here ↦ elim (Bool-cases h.blocked) [
          | inl blocked ↦
              inl (ground (arith, here, blocked), ground (arith, here, blocked), inr (inl blocked))
          | inr free ↦ elim (read_superseded-cases env target old_token h k works) [
            | inl (newer, held) ↦ inl (
              ground (arith, here, free, newer),
              ground (arith, here, free, newer, read_superseded-IsUntouched env target old_token h),
              inr (inr held),
            )
            | inr (newest, held) ↦ inr (
              ground (arith, here, free, newest),
              here,
              free,
              held,
              ground (
                arith,
                here,
                free,
                newest,
                persist_authenticated-IsTaken target new_token h1 k n,
              ),
            )
          ]
        ]
      ]
