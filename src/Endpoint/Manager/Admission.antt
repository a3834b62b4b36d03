-- ===== src/Endpoint/Manager/Admission.antt =====
-- manager.go and vpn_manager.go: a connection that fails.
use soha_app.Base.{String, true, false, ◌≡◌, ◌⊎◌, ◌∷◌, arith, blank, refl, inl, inr}
use soha_app.Base.Errors.{is_ok}
use soha_app.Endpoint.Protocol.{VpnConnectResult}
use soha_app.Endpoint.Manager.State.{
  Answer-cases, Event, Manager, Surroundings, VpnManagedConnectRequest, VpnManagedPrepareResult,
  degrade,
}
use soha_app.Endpoint.Manager.Disconnect.{cleanup_failed_vpn, read_now}
use soha_app.Endpoint.Manager.Sync.{sync_configuration}
use soha_app.Endpoint.Manager.Leases.{fallback}
use soha_app.Endpoint.Manager.Obligation.{disconnect_locked-settles}
use soha_app.Endpoint.Manager.Connect.{
  ConnectInput, accept_managed, accept_vpn_connection, connect, connect_managed, connect_request,
  connect_scope, connecting_status, managed_request, measure_and_select, measuring_status, occupied,
  prepare_and_select, preparing, probed_status, random_id, select_gateway, selected,
  send_probe_batch, start_session,
}

-- No session is shown, or its cleanup is owed.
abbrev pub IsClosed : Manager → Type 0
IsClosed m = (blank m.status.session_id ≡ true) ⊎ (blank m.cleanup_reason ≡ false)

module _ (env : Surroundings) where
  cleanup_failed_vpn-IsClosed : (m : Manager) → IsClosed (cleanup_failed_vpn env m).1
  unfolding cleanup_failed_vpn
  cleanup_failed_vpn-IsClosed m =
      let empty : blank "" ≡ true = unfold blank in refl in
      let owed : blank "connect_failed" ≡ false = unfold blank in refl in
      ground (arith, empty, owed, disconnect_locked-settles env "connect_failed" m)

  accept_vpn_connection-IsClosed :
      (result : VpnConnectResult) (mode : String) (m : Manager)
      → occupied m ≡ false
      → is_ok (accept_vpn_connection env result mode m).0 ≡ false
      → IsClosed (accept_vpn_connection env result mode m).1
  unfolding accept_vpn_connection occupied read_now
  accept_vpn_connection-IsClosed result mode m free h =
      let (now, m1) = read_now env m in
      let (later, m2) = read_now env m1 in
      let m3 = (sync_configuration env (start_session env result later m2)).1 in
      ground (arith, cleanup_failed_vpn-IsClosed m3)

  connect_scope-IsClosed :
      (input : ConnectInput) (m : Manager)
      → occupied m ≡ false
      → is_ok (connect_scope env input m).0 ≡ false
      → IsClosed (connect_scope env input m).1
  unfolding connect_scope occupied random_id degrade connecting_status
  connect_scope-IsClosed input m free h =
      let mode = fallback input.mode "external_vpn" in
      let (request_id, m1) = random_id env (connecting_status input mode m) in
      let request = connect_request input mode request_id in
      let m2 = record m1 { history = Event.asked_connection request ∷ m1.history } in
      elim (Answer-cases (env.connect m1.history request)) [
        | inl (reason, e) ↦ ground (arith, e)
        | inr (result, e) ↦ ground (arith, e, accept_vpn_connection-IsClosed result mode m2)
      ]

  select_gateway-IsClosed :
      (request : VpnManagedConnectRequest) (prepared : VpnManagedPrepareResult) (m : Manager)
      → occupied m ≡ false
      → is_ok (select_gateway env request prepared m).0 ≡ false
      → IsClosed (select_gateway env request prepared m).1
  unfolding select_gateway accept_managed occupied selected degrade
  select_gateway-IsClosed request prepared m free h =
      let m1 = record m { history = Event.asked_managed request ∷ m.history } in
      elim (Answer-cases (env.connect_managed m.history request)) [
        | inl (reason, e) ↦ ground (arith, e)
        | inr (result, e) ↦ ground (
          arith,
          e,
          accept_vpn_connection-IsClosed result.connection result.mode (selected result m1),
        )
      ]

  measure_and_select-IsClosed :
      (request : VpnManagedConnectRequest) (prepared : VpnManagedPrepareResult) (m : Manager)
      → occupied m ≡ false
      → is_ok (measure_and_select env request prepared m).0 ≡ false
      → IsClosed (measure_and_select env request prepared m).1
  unfolding measure_and_select send_probe_batch occupied measuring_status probed_status degrade
  measure_and_select-IsClosed request prepared m free h =
      let m1 = measuring_status prepared m in
      let m2 = record m1 { history = Event.measured request ∷ m1.history } in
      elim (Answer-cases (env.probe_vpn m1.history prepared)) [
        | inl (reason, e) ↦ ground (arith, e)
        | inr (batch, e) ↦
            let (request', m4) = send_probe_batch env request batch (probed_status batch m2) in
            ground (arith, e, select_gateway-IsClosed request' prepared m4)
      ]

  prepare_and_select-IsClosed :
      (request : VpnManagedConnectRequest) (m : Manager)
      → occupied m ≡ false
      → is_ok (prepare_and_select env request m).0 ≡ false
      → IsClosed (prepare_and_select env request m).1
  unfolding prepare_and_select preparing occupied degrade
  prepare_and_select-IsClosed request m free h =
      let m1 = preparing m in
      let m2 = record m1 { history = Event.prepared_managed request ∷ m1.history } in
      elim (Answer-cases (env.prepare_managed m1.history request)) [
        | inl (reason, e) ↦ ground (arith, e)
        | inr (prepared, e) ↦ ground (arith, e, measure_and_select-IsClosed request prepared m2)
      ]

  -- A failed connection fails closed. If no session stood and no cleanup was owed, then after a
  -- connection that ends in an error, at whatever point it failed, no session is shown or its
  -- cleanup is owed.
  pub connect-IsClosed :
      (input : ConnectInput) (m : Manager)
      → occupied m ≡ false
      → is_ok (connect env input m).0 ≡ false
      → IsClosed (connect env input m).1
  unfolding connect connect_managed managed_request random_id occupied
  connect-IsClosed input m free h =
      let (request, m1) = managed_request env input m in
      ground (arith, connect_scope-IsClosed input m, prepare_and_select-IsClosed request m1)
