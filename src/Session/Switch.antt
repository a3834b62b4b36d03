-- ===== src/Session/Switch.antt =====
-- proxy.go: handleConnectionSwitch, handleConnectionActivate and handleSessionClear, behind the checks
-- of the request.
use soha_app.Base.{String, Bool, true, false, not, ◌||◌, none, some, str_eq, is_some, if◌then◌else◌}
use soha_app.Session.State.{Environment, Host, Target, same_target, save_config}
use soha_app.Session.Credentials.{block_session, delete_credential, inject_stored}

module _ (env : Environment) where
  -- The switch to a server that was found online: `old_target` is what the handler read first, `present`
  -- the refresh cookie of the request; the logout request to the old server carries the stored token.
  unfoldable pub begin_switch : Target → Target → String → String → Host → Bool × Host
  begin_switch old_target target code present h =
      if is_some h.pending || not (same_target old_target h.target)
      then (false, h)
      else let h1 = record h { pending = some target; pending_code = code } in
        let (cookie, h2) = inject_stored env present old_target h1 in
        (true, delete_credential env old_target h2)

  unfoldable pub activate_pending : Target → Host → Bool × Host
  activate_pending target h =
      let (worked, h1) = save_config env target.url true h in
      let h2 = record h1 { blocked = true; pending = none; pending_code = "" } in
      if worked then (true, record h2 { target = target; source = "saved" }) else (false, h2)

  -- handleConnectionActivate
  unfoldable pub activate : String → Host → Bool × Host
  activate code h = elim h.pending [
    | none ↦ (false, h)
    | some target ↦ if str_eq code h.pending_code then activate_pending target h else (false, h)
  ]

  -- handleSessionClear
  unfoldable pub clear_session : Host → Host
  clear_session h = block_session env h.target "" h
