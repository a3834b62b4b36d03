-- ===== src/Endpoint/Manager/Connect.antt =====
-- manager.go: Connect and acceptVPNConnection; vpn_manager.go: connectManaged.
mod Display
unfoldable pub use Display.*
use soha_app.Base.{
  ◌+◌, String, Bool, not, ◌&&◌, ◌||◌, some, List, ◌∷◌, ltb, ◌==◌, if◌then◌else◌, length, str_eq,
  blank, is_empty,
}
use soha_app.Base.Errors.{Error, ok, fail, is_ok, join}
use soha_app.Endpoint.Identifier.{matches_identifier, raw_url_decoded_length}
use soha_app.Endpoint.Protocol.{Time, VpnConnectRequest, VpnConnectResult}
use soha_app.Endpoint.Manager.State.{
  ConnectionState, Event, Manager, Surroundings, VpnManagedConnectRequest, VpnManagedConnectResult,
  VpnManagedPrepareResult, VpnProbeBatch, degrade, got, refused,
}
use soha_app.Endpoint.Manager.Leases.{
  decodes_32, fallback, lease_ids, renewal_time, sort, valid_connect_scope, valid_lease_shape,
}
use soha_app.Endpoint.Manager.Disconnect.{cleanup_failed_vpn, read_now}
use soha_app.Endpoint.Manager.Sync.{sync_configuration}

module _ (env : Surroundings) where
  -- randomID()
  unfoldable pub random_id : Manager → String × Manager
  random_id m = (env.random_id m.history, record m { history = Event.drew_id ∷ m.history })

  -- The session that an accepted result starts.
  unfoldable pub start_session : VpnConnectResult → Time → Manager → Manager
  start_session result now m = record m {
    status = record (m.status) {
      session_id = result.session_id;
      gateway_id = result.gateway_id;
      configuration_version = result.configuration_version;
      policy_version = result.policy_version;
    };
    session_until = result.valid_until;
    lease_ids = lease_ids result.network_leases result.resource_leases;
    next_renew_at = renewal_time now result.valid_until env.options.renew_before;
  }

  unfoldable pub accept_vpn_connection : VpnConnectResult → String → Manager → Error × Manager
  unfolding deny
  accept_vpn_connection result mode m =
      let (now, m1) = read_now env m in
      if not (allowed result mode now)
      then (
        fail "VPN connection denied",
        deny (fallback result.reason_code "authorization_denied") m1,
      )
      else if not (distinct_leases result)
      then (fail "network control returned invalid lease IDs", deny "invalid_leases" m1)
      else let (later, m2) = read_now env m1 in
        let (err, m3) = sync_configuration env (start_session result later m2) in
        if is_ok err
        then (ok, m3)
        else let (cleanup_err, m4) = cleanup_failed_vpn env m3 in (join err cleanup_err, m4)

  -- Connect of a scope that the user chose
  unfoldable pub connect_scope : ConnectInput → Manager → Error × Manager
  unfolding connect_request
  connect_scope input m =
      let mode = fallback input.mode "external_vpn" in
      if not (valid_scope input mode)
      then (fail "VPN connection scope is invalid", m)
      else if occupied m
      then (fail "endpoint session must be disconnected before reconnecting", m)
      else let (request_id, m1) = random_id (connecting_status input mode m) in
        let request = connect_request input mode request_id in
        let m2 = record m1 { history = Event.asked_connection request ∷ m1.history } in
        elim (env.connect m1.history request) [
          | refused reason ↦ (fail "request VPN connection", degrade "vpn_connect_failed" m2)
          | got result ↦ accept_vpn_connection result mode m2
        ]

  -- The end of connectManaged: a session that was accepted is stamped with the time.
  unfoldable pub accept_managed : VpnManagedConnectResult → Manager → Error × Manager
  accept_managed result m =
      let (err, m1) = accept_vpn_connection result.connection result.mode m in
      if not (is_ok err)
      then (err, m1)
      else let (now, m2) = read_now env m1 in
        (ok, record m2 { status = record (m2.status) { phase = ""; connected_at = some now } })

  -- ConnectManagedVPN, and the check that the profile is still the prepared one
  unfoldable pub select_gateway :
      VpnManagedConnectRequest → VpnManagedPrepareResult → Manager → Error × Manager
  unfolding same_profile selected
  select_gateway request prepared m =
      let m1 = record m { history = Event.asked_managed request ∷ m.history } in
      elim (env.connect_managed m.history request) [
        | refused reason ↦ (fail reason, degrade "vpn_connect_failed" m1)
        | got result ↦
            if same_profile result prepared
            then accept_managed result (selected result m1)
            else (fail "VPN profile changed during selection", degrade "vpn_profile_changed" m1)
      ]

  -- The probe results go to the telemetry, if there is one; its receipt names the batch.
  unfoldable pub send_probe_batch :
      VpnManagedConnectRequest → VpnProbeBatch → Manager → VpnManagedConnectRequest × Manager
  send_probe_batch request batch m = if not env.supports_vpn_probe then (request, m) else (
    if is_ok (env.send_probe m.history batch)
        then record request { probe_batch_id = batch.batch_id }
        else request,
    record m { history = Event.sent_probe batch.batch_id ∷ m.history },
  )

  unfoldable pub measure_and_select :
      VpnManagedConnectRequest → VpnManagedPrepareResult → Manager → Error × Manager
  measure_and_select request prepared m =
      let m1 = measuring_status prepared m in
      let m2 = record m1 { history = Event.measured request ∷ m.history } in
      elim (env.probe_vpn m1.history prepared) [
        | refused reason ↦ (fail reason, degrade "vpn_probe_failed" m2)
        | got batch ↦
            let (request', m4) = send_probe_batch request batch (probed_status batch m2) in
            select_gateway request' prepared m4
      ]

  unfoldable pub prepare_and_select : VpnManagedConnectRequest → Manager → Error × Manager
  unfolding preparing
  prepare_and_select request m =
      let m1 = preparing m in
      let m2 = record m1 { history = Event.prepared_managed request ∷ m1.history } in
      elim (env.prepare_managed m1.history request) [
        | refused reason ↦ (fail reason, degrade "vpn_prepare_failed" m2)
        | got prepared ↦ measure_and_select request prepared m2
      ]

  unfoldable pub managed_request : ConnectInput → Manager → VpnManagedConnectRequest × Manager
  managed_request input m =
      let (drawn, m1) = random_id m in
      if blank input.request_id
      then (
        record {
          request_id = drawn;
          intent_id = input.intent_id;
          intent_token = input.intent_token;
          probe_batch_id = "";
        },
        m1,
      )
      else (
        record {
          request_id = input.request_id;
          intent_id = input.intent_id;
          intent_token = input.intent_token;
          probe_batch_id = "";
        },
        m,
      )

  unfoldable pub connect_managed : ConnectInput → Manager → Error × Manager
  unfolding managed_request
  connect_managed input m =
      let (request, m1) = managed_request input m in
      if overrides_scope input
      then (fail "managed VPN does not accept local scope overrides", m)
      else if not (valid_managed_request request)
      then (fail "invalid managed VPN intent", m1)
      else if not env.supports_managed
      then (fail "managed VPN runtime is unavailable", m1)
      else if occupied m1
      then (fail "disconnect and finish cleanup before reconnecting", m1)
      else prepare_and_select request m1

  -- Connect
  unfoldable pub connect : ConnectInput → Manager → Error × Manager
  connect input m =
      if not (blank input.intent_id) || not (blank input.intent_token)
      then connect_managed input m
      else connect_scope input m
