-- ===== src/Endpoint/Manager/Reach.antt =====
-- manager.go and lifecycle.go: the operations and the invariant, a restart from the state file included.
use soha_app.Base.{String, Bool, true, false, ◌≡◌, ◌∷◌, arith, blank, refl, Bool-cases, inl, inr}
use soha_app.Base.Errors.{is_ok}
use soha_app.Endpoint.Protocol.{Time, LeaseRenewRequest, LeaseRenewResult, VpnConnectResult}
use soha_app.Endpoint.Manager.State.{
  Answer-cases, Event, Manager, Surroundings, degrade, VpnManagedConnectRequest,
  VpnManagedConnectResult, VpnManagedPrepareResult,
}
use soha_app.Endpoint.Manager.Leases.{fallback}
use soha_app.Endpoint.Manager.Disconnect.{disconnect, read_now, cleanup_failed_vpn}
use soha_app.Endpoint.Manager.Sync.{sync_configuration}
use soha_app.Endpoint.Manager.Cycle.{
  Tick, Watch, check_tunnel, cycle, cycle_body, enforce_expiry, accept_renewal, renew,
  sync_and_check, watch_health, watch_locked, watch_reason, watch_tick, renewal_due,
}
use soha_app.Endpoint.Manager.Connect.{
  ConnectInput, accept_managed, accept_vpn_connection, connect, connect_managed, connect_scope,
  measure_and_select, occupied, prepare_and_select, random_id, select_gateway, send_probe_batch,
  start_session, connecting_status, connect_request, measuring_status, probed_status, preparing,
  selected, managed_request,
}
use soha_app.Endpoint.Manager.Invariant.{
  IsSound, Keeps, disconnect_locked-Keeps, reject_configuration-Keeps,
}
use soha_app.Endpoint.Manager.Preservation.{sync_configuration-Keeps, Keeps-trans}
use soha_app.Endpoint.Manager.Preservation.Applied.{degrade-Keeps}

module _ (env : Surroundings) where
  accept_renewal-Keeps :
      (request : LeaseRenewRequest) (result : LeaseRenewResult) (now : Time) (m : Manager)
      → IsSound env m
      → blank m.cleanup_reason ≡ true
      → Keeps env m (accept_renewal env request result now m).1
  unfolding accept_renewal
  accept_renewal-Keeps request result now m s c = ground (
    arith,
    reject_configuration-Keeps env "lease_revoked" m.cleanup_reason m (unfold blank in refl),
  )

  accept_renewal-reason :
      (request : LeaseRenewRequest) (result : LeaseRenewResult) (now : Time) (m : Manager)
      → blank m.cleanup_reason ≡ true
      → is_ok (accept_renewal env request result now m).0 ≡ true
      → blank (accept_renewal env request result now m).1.cleanup_reason ≡ true
  unfolding accept_renewal
  accept_renewal-reason request result now m c h = ground arith

  renew-Keeps :
      (now : Time) (m : Manager)
      → IsSound env m
      → blank m.cleanup_reason ≡ true
      → Keeps env m (renew env now m).1
        × (is_ok (renew env now m).0 ≡ true → blank (renew env now m).1.cleanup_reason ≡ true)
  unfolding renew
  renew-Keeps now m s c =
      let request : LeaseRenewRequest = record {
        session_id = m.status.session_id;
        lease_ids = m.lease_ids;
        observed_configuration_version = m.status.configuration_version;
      } in
      let m1 : Manager = record m { history = Event.renewed request ∷ m.history } in
      elim (Answer-cases (env.renew m.history request)) [
        | inl (reason, e) ↦ (ground (arith, e), ground (arith, e))
        | inr (result, e) ↦ (
          ground (arith, e, accept_renewal-Keeps request result now m1),
          ground (arith, e, accept_renewal-reason request result now m1 c),
        )
      ]

  check_tunnel-Keeps : (m : Manager) → IsSound env m → Keeps env m (check_tunnel env m).1
  unfolding check_tunnel
  check_tunnel-Keeps m s =
      let m1 : Manager = record m { history = Event.checked_health ∷ m.history } in
      ground (
        arith,
        reject_configuration-Keeps env "vpn_tunnel_unhealthy" m.cleanup_reason m1
            (unfold blank in refl),
      )

  sync_and_check-Keeps :
      (m : Manager)
      → IsSound env m
      → blank m.cleanup_reason ≡ true
      → Keeps env m (sync_and_check env m).1
  unfolding sync_and_check
  sync_and_check-Keeps m s c =
      let kept = sync_configuration-Keeps env m s c in
      let checked = check_tunnel-Keeps (sync_configuration env m).1 kept.sound in
      ground (arith, kept, Keeps-trans env kept checked)

  cycle_body-Keeps :
      (due : Bool) (now : Time) (m : Manager)
      → IsSound env m
      → blank m.cleanup_reason ≡ true
      → Keeps env m (cycle_body env due now m).1
  unfolding cycle_body
  cycle_body-Keeps false now m s c = sync_and_check-Keeps m s c
  cycle_body-Keeps true now m s c =
      let (kept, open_still) = renew-Keeps now m s c in
      let m1 = (renew env now m).1 in
      elim (Bool-cases (is_ok (renew env now m).0)) [
        | inl good ↦
            rw (good, cycle_body)
              (Keeps-trans env kept (sync_and_check-Keeps m1 kept.sound (open_still good)))
        | inr bad ↦
            rw (bad, cycle_body)
              (Keeps-trans env kept (degrade-Keeps env "lease_renewal_failed" m1 kept.sound))
      ]

  read_now-Keeps : (m : Manager) → IsSound env m → Keeps env m (read_now env m).1
  unfolding read_now
  read_now-Keeps m s = ground arith

  enforce_expiry-Keeps : (m : Manager) → IsSound env m → Keeps env m (enforce_expiry env m)
  unfolding enforce_expiry read_now
  enforce_expiry-Keeps m s =
      let m1 = (read_now env m).1 in
      ground (
        arith,
        disconnect_locked-Keeps env "lease_expired" m.cleanup_reason m1 (unfold blank in refl),
        disconnect_locked-Keeps env "configuration_expired" m.cleanup_reason m1
            (unfold blank in refl),
      )

  pub cycle-Keeps : (m : Manager) → IsSound env m → Keeps env m (cycle env m).1
  unfolding cycle read_now
  cycle-Keeps m s =
      let (now, m1) = read_now env m in
      let body = cycle_body env (renewal_due now m1) now m1 in
      ground (
        arith,
        disconnect_locked-Keeps env m1.cleanup_reason m1.cleanup_reason m1,
        disconnect_locked-Keeps env "lease_expired" m1.cleanup_reason m1 (unfold blank in refl),
        disconnect_locked-Keeps env "configuration_expired" m1.cleanup_reason m1
            (unfold blank in refl),
        cycle_body-Keeps (renewal_due now m1) now m1,
        enforce_expiry-Keeps body.1,
      )

  pub watch_tick-Keeps :
      (watch : Watch) (tick : Tick) (m : Manager)
      → IsSound env m
      → Keeps env m (watch_tick env watch tick m).1
  unfolding watch_tick watch_locked watch_health
  watch_tick-Keeps watch tick m s =
      let (reason, m1) = watch_health env (watch_reason watch tick) m in
      ground (arith, disconnect_locked-Keeps env reason m.cleanup_reason m1)

  -- A connection starts from a manager without a session and without an owed cleanup.
  accept_vpn_connection-Keeps :
      (result : VpnConnectResult) (mode : String) (m : Manager)
      → IsSound env m
      → blank m.cleanup_reason ≡ true
      → Keeps env m (accept_vpn_connection env result mode m).1
  unfolding accept_vpn_connection start_session read_now cleanup_failed_vpn
  accept_vpn_connection-Keeps result mode m s c =
      let (now, m1) = read_now env m in
      let (later, m2) = read_now env m1 in
      let m3 = (sync_configuration env (start_session env result later m2)).1 in
      ground (
        arith,
        sync_configuration-Keeps env (start_session env result later m2),
        disconnect_locked-Keeps env "connect_failed" m3.cleanup_reason m3 (unfold blank in refl),
      )

  connect_scope-Keeps :
      (input : ConnectInput) (m : Manager)
      → IsSound env m
      → Keeps env m (connect_scope env input m).1
  unfolding connect_scope random_id connecting_status degrade occupied
  connect_scope-Keeps input m s =
      let mode = fallback input.mode "external_vpn" in
      let (request_id, m1) = random_id env (connecting_status input mode m) in
      let request = connect_request input mode request_id in
      let m2 : Manager = record m1 { history = Event.asked_connection request ∷ m1.history } in
      elim (Answer-cases (env.connect m1.history request)) [
        | inl (reason, e) ↦ ground (arith, e)
        | inr (result, e) ↦ ground (arith, e, accept_vpn_connection-Keeps result mode m2)
      ]

  accept_managed-Keeps :
      (result : VpnManagedConnectResult) (m : Manager)
      → IsSound env m
      → blank m.cleanup_reason ≡ true
      → Keeps env m (accept_managed env result m).1
  unfolding accept_managed read_now
  accept_managed-Keeps result m s c =
      ground (arith, accept_vpn_connection-Keeps result.connection result.mode m)

  select_gateway-Keeps :
      (request : VpnManagedConnectRequest) (prepared : VpnManagedPrepareResult) (m : Manager)
      → IsSound env m
      → blank m.cleanup_reason ≡ true
      → Keeps env m (select_gateway env request prepared m).1
  unfolding select_gateway degrade selected
  select_gateway-Keeps request prepared m s c =
      let m1 : Manager = record m { history = Event.asked_managed request ∷ m.history } in
      elim (Answer-cases (env.connect_managed m.history request)) [
        | inl (reason, e) ↦ ground (arith, e)
        | inr (result, e) ↦ ground (arith, e, accept_managed-Keeps result (selected result m1))
      ]

  measure_and_select-Keeps :
      (request : VpnManagedConnectRequest) (prepared : VpnManagedPrepareResult) (m : Manager)
      → IsSound env m
      → blank m.cleanup_reason ≡ true
      → Keeps env m (measure_and_select env request prepared m).1
  unfolding measure_and_select degrade send_probe_batch measuring_status probed_status
  measure_and_select-Keeps request prepared m s c =
      let m1 = measuring_status prepared m in
      let m2 : Manager = record m1 { history = Event.measured request ∷ m.history } in
      elim (Answer-cases (env.probe_vpn m1.history prepared)) [
        | inl (reason, e) ↦ ground (arith, e)
        | inr (batch, e) ↦
            let (request', m4) = send_probe_batch env request batch (probed_status batch m2) in
            ground (arith, e, select_gateway-Keeps request' prepared m4)
      ]

  prepare_and_select-Keeps :
      (request : VpnManagedConnectRequest) (m : Manager)
      → IsSound env m
      → blank m.cleanup_reason ≡ true
      → Keeps env m (prepare_and_select env request m).1
  unfolding prepare_and_select degrade preparing
  prepare_and_select-Keeps request m s c =
      let m1 = preparing m in
      let m2 : Manager = record m1 { history = Event.prepared_managed request ∷ m1.history } in
      elim (Answer-cases (env.prepare_managed m1.history request)) [
        | inl (reason, e) ↦ ground (arith, e)
        | inr (prepared, e) ↦ ground (arith, e, measure_and_select-Keeps request prepared m2)
      ]

  connect_managed-Keeps :
      (input : ConnectInput) (m : Manager)
      → IsSound env m
      → Keeps env m (connect_managed env input m).1
  unfolding connect_managed managed_request random_id occupied
  connect_managed-Keeps input m s =
      let (request, m1) = managed_request env input m in
      ground (arith, prepare_and_select-Keeps request m1)

  pub connect-Keeps :
      (input : ConnectInput) (m : Manager) → IsSound env m → Keeps env m (connect env input m).1
  unfolding connect
  connect-Keeps input m s =
      ground (arith, connect_managed-Keeps input m s, connect_scope-Keeps input m s)

  pub disconnect-Keeps : (m : Manager) → IsSound env m → Keeps env m (disconnect env m).1
  unfolding disconnect
  disconnect-Keeps m s =
      disconnect_locked-Keeps env "user_disconnected" m.cleanup_reason m (unfold blank in refl)
        s.guarded s.owed
