-- ===== src/Endpoint/Manager/Obligation.antt =====
-- manager.go and configuration_floor.go: what is owed for a session that was entered.
use soha_app.Base.{
  String, true, false, ◌≡◌, ◌⊎◌, inl, inr, none, some, ◌||◌, List, [], arith, is_empty, blank, Ever,
}
use soha_app.Base.Errors.{Error, ok, is_ok}
use soha_app.Endpoint.Manager.State.{
  Event, History, Manager, Surroundings, degraded, fresh_status, disabled_endpoint, revoked,
}
use soha_app.Endpoint.Manager.Floor.{
  begin_vpn_cleanup, floor_identity, new_manager, pending_floor, restore_configuration_floor,
  valid_configuration_floor,
}
use soha_app.Endpoint.Manager.Disconnect.{disable_endpoint, disconnect_locked, revoke_session}

-- The session's leases were revoked for this reason, and the control plane took it.
abbrev pub IsRevocation : String → List String → String → Event → Type 0
IsRevocation session_id lease_ids reason (revoked r ok) =
    (r.session_id ≡ session_id) × (r.lease_ids ≡ lease_ids) × (r.reason_code ≡ reason)
IsRevocation session_id lease_ids reason _ = ⊥

-- The endpoint was disabled without an error.
abbrev pub IsDisabling : Event → Type 0
IsDisabling (disabled_endpoint ok) = Unit
IsDisabling _ = ⊥

module _ (env : Surroundings) where
  -- Nothing of the session is left, and the endpoint is disabled.
  abbrev pub IsForgotten : Manager → Type 0
  IsForgotten m' =
      (m'.status ≡ fresh_status)
      × (m'.lease_ids ≡ [])
      × (m'.session_until ≡ 0)
      × (m'.next_renew_at ≡ 0)
      × (m'.applied_version ≡ 0)
      × (m'.cleanup_reason ≡ "")
      × (m'.floor.pending_cleanup ≡ none)
      × (m'.disabled ≡ true)

  -- The session of the first manager stands in the second, degraded, with the reason to try again.
  abbrev pub IsKept : String → Manager → Manager → Type 0
  IsKept reason m m' =
      (m'.status.session_id ≡ m.status.session_id)
      × (m'.lease_ids ≡ m.lease_ids)
      × (m'.session_until ≡ m.session_until)
      × (m'.next_renew_at ≡ m.next_renew_at)
      × (m'.applied_version ≡ m.applied_version)
      × (m'.cleanup_reason ≡ reason)
      × (m'.status.state ≡ degraded)
      × (m'.status.diagnostic ≡ "disconnect_incomplete")

  -- Exactly two outcomes. Without an error nothing of the session is left: its status, leases, times,
  -- applied version, reason and recorded cleanup are those of a manager without a session, and the
  -- endpoint is disabled. With one, session, leases, times and applied version stand, the endpoint
  -- counts as degraded, and the reason to try again is recorded.
  pub disconnect_locked-settles :
      (reason : String) (m : Manager)
      → let (err, m') = disconnect_locked env reason m in
        ((is_ok err ≡ true) × IsForgotten m') ⊎ ((is_ok err ≡ false) × IsKept reason m m')
  unfolding disconnect_locked
  disconnect_locked-settles reason m = ground arith

  -- A session with leases is forgotten only after the endpoint was disabled and the control plane
  -- took the revocation of all its leases: if a manager with a session and leases has no session or no
  -- leases behind disconnectLocked, both stand in its history without an error.
  pub disconnect_locked-revokes :
      (reason : String) (m : Manager)
      → blank m.status.session_id ≡ false
      → is_empty m.lease_ids ≡ false
      → (blank (disconnect_locked env reason m).1.status.session_id
          || is_empty (disconnect_locked env reason m).1.lease_ids)
        ≡ true
      → let history = (disconnect_locked env reason m).1.history in
        Ever (IsRevocation m.status.session_id m.lease_ids reason) history
        × Ever IsDisabling history
  unfolding disconnect_locked
  disconnect_locked-revokes reason m s l h = ground arith

  -- The manager that starts again from a state file has the session and the leases of this one and the
  -- reason, counts as degraded, and keeps the record.
  abbrev pub IsResumed : String → Manager → Error × Manager → Type 0
  IsResumed reason m r =
      (is_ok r.0 ≡ true)
      × (r.1.status.session_id ≡ m.status.session_id)
      × (r.1.lease_ids ≡ m.lease_ids)
      × (r.1.cleanup_reason ≡ reason)
      × (r.1.status.state ≡ degraded)
      × (r.1.floor ≡ pending_floor env m.status.session_id m.lease_ids reason m.floor)

  new_manager-IsResumed :
      (reason : String) (m : Manager) (history : History)
      → blank env.options.configuration_state_path ≡ false
      → env.options.has_absolute_path ≡ true
      → blank env.options.control_url ≡ false
      → valid_configuration_floor
          (pending_floor env m.status.session_id m.lease_ids reason m.floor)
          (floor_identity env)
        ≡ true
      → IsResumed reason m (
          new_manager env
            (some (pending_floor env m.status.session_id m.lease_ids reason m.floor))
            history)
  unfolding new_manager restore_configuration_floor pending_floor
  new_manager-IsResumed reason m history p a c v = ground arith

  -- The record stands in the file until the endpoint is disabled and the leases are revoked.
  recorded-disk :
      (reason : String) (m : Manager)
      → blank env.options.configuration_state_path ≡ false
      → blank m.status.session_id ≡ false
      → is_empty m.lease_ids ≡ false
      → is_ok (begin_vpn_cleanup env m.status.session_id m.lease_ids reason m).0 ≡ true
      → let floor = pending_floor env m.status.session_id m.lease_ids reason m.floor in
        let m1 = (begin_vpn_cleanup env m.status.session_id m.lease_ids reason m).1 in
        let m2 = (disable_endpoint env m1).1 in
        (m1.disk ≡ some floor)
        × (m2.disk ≡ some floor)
        × ((revoke_session env m.status.session_id m.lease_ids reason m2).1.disk ≡ some floor)
        × ((is_ok (disconnect_locked env reason m).0 ≡ true)
            ⊎ ((disconnect_locked env reason m).1.disk ≡ some floor))
  unfolding begin_vpn_cleanup disable_endpoint revoke_session disconnect_locked
  recorded-disk reason m p s l b = ground arith

  -- A crash loses nothing of a cleanup. Once disconnectLocked has recorded the cleanup of a session with
  -- leases, a restart from the state file resumes it: right behind the record, behind the disabling of
  -- the endpoint, behind the revocation whatever came of both, and behind a disconnect that ended with an
  -- error. The conditions: a state file with an absolute path is configured and was written, and what is
  -- recorded is well formed.
  pub begin_vpn_cleanup-new_manager :
      (reason : String) (m : Manager) (history : History)
      → blank env.options.configuration_state_path ≡ false
      → env.options.has_absolute_path ≡ true
      → blank env.options.control_url ≡ false
      → blank m.status.session_id ≡ false
      → is_empty m.lease_ids ≡ false
      → valid_configuration_floor
          (pending_floor env m.status.session_id m.lease_ids reason m.floor)
          (floor_identity env)
        ≡ true
      → is_ok (begin_vpn_cleanup env m.status.session_id m.lease_ids reason m).0 ≡ true
      → let m1 = (begin_vpn_cleanup env m.status.session_id m.lease_ids reason m).1 in
        let m2 = (disable_endpoint env m1).1 in
        let m3 = (revoke_session env m.status.session_id m.lease_ids reason m2).1 in
        IsResumed reason m (new_manager env m1.disk history)
        × IsResumed reason m (new_manager env m2.disk history)
        × IsResumed reason m (new_manager env m3.disk history)
        × ((is_ok (disconnect_locked env reason m).0 ≡ true)
            ⊎ IsResumed reason m (new_manager env (disconnect_locked env reason m).1.disk history))
  begin_vpn_cleanup-new_manager reason m history p a c s l v b =
      let resumed = new_manager-IsResumed reason m history p a c v in
      let (d1, d2, d3, d4) = recorded-disk reason m p s l b in
      (
        rw d1 resumed,
        rw d2 resumed,
        rw d3 resumed,
        elim d4 [ inl done ↦ inl done | inr stands ↦ inr (rw stands resumed) ],
      )
