-- ===== src/Endpoint/Manager/Connect/Display.antt =====
-- manager.go and vpn_manager.go: the input of a connection, its tests, and the status it shows.
use soha_app.Base.{
  ◌+◌, String, Bool, not, ◌&&◌, ◌||◌, some, List, ltb, ◌==◌, length, str_eq, blank, is_empty,
}
use soha_app.Endpoint.Identifier.{matches_identifier, raw_url_decoded_length}
use soha_app.Endpoint.Protocol.{Time, VpnConnectRequest, VpnConnectResult}
use soha_app.Endpoint.Manager.State.{
  ConnectionState, Manager, VpnManagedConnectRequest, VpnManagedConnectResult,
  VpnManagedPrepareResult, VpnProbeBatch,
}
use soha_app.Endpoint.Manager.Leases.{
  decodes_32, lease_ids, sort, valid_connect_scope, valid_lease_shape,
}

pub record ConnectInput : Type 0 where
  pub intent_id : String
  pub intent_token : String
  pub request_id : String
  pub site_id : String
  pub network_space_id : String
  pub gateway_id : String
  pub mode : String
  pub resource_ids : List String
  pub access_grant_id : String
  pub access_grant_token : String

unfoldable pub valid_scope : ConnectInput → String → Bool
valid_scope input mode =
    matches_identifier input.site_id
    && matches_identifier input.network_space_id
    && (blank input.gateway_id || matches_identifier input.gateway_id)
    && valid_connect_scope mode input.resource_ids input.access_grant_id input.access_grant_token

-- A session, or a cleanup that is not done, keeps a new connection out.
unfoldable pub occupied : Manager → Bool
occupied m = not (blank m.status.session_id) || not (blank m.cleanup_reason)

-- The first test of acceptVPNConnection.
unfoldable pub allowed : VpnConnectResult → String → Time → Bool
allowed result mode now =
    str_eq result.decision "allow"
    && matches_identifier result.session_id
    && matches_identifier result.gateway_id
    && ltb 0 result.configuration_version
    && ltb 0 result.policy_version
    && valid_lease_shape mode (length result.network_leases) (length result.resource_leases)
    && ltb now result.valid_until

-- Every lease identifier is valid, and no two are equal.
unfoldable pub distinct_leases : VpnConnectResult → Bool
distinct_leases result =
    length (lease_ids result.network_leases result.resource_leases)
    == length result.network_leases + length result.resource_leases

unfoldable pub deny : String → Manager → Manager
deny diagnostic m = record m {
  status = record (m.status) { state = ConnectionState.disconnected; diagnostic = diagnostic };
}

unfoldable pub valid_managed_request : VpnManagedConnectRequest → Bool
valid_managed_request request =
    matches_identifier request.request_id
    && matches_identifier request.intent_id
    && decodes_32 (raw_url_decoded_length request.intent_token)
    && (blank request.probe_batch_id || matches_identifier request.probe_batch_id)

unfoldable pub connecting_status : ConnectInput → String → Manager → Manager
connecting_status input mode m = record m {
  status = record (m.status) {
    state = ConnectionState.connecting;
    diagnostic = "";
    site_id = input.site_id;
    network_space_id = input.network_space_id;
    mode = mode;
    resource_ids = sort input.resource_ids;
  };
}

unfoldable pub connect_request : ConnectInput → String → String → VpnConnectRequest
connect_request input mode request_id = record {
  request_id = request_id;
  site_id = input.site_id;
  network_space_id = input.network_space_id;
  gateway_id = input.gateway_id;
  mode = mode;
  resource_ids = sort input.resource_ids;
  access_grant_id = input.access_grant_id;
  access_grant_token = input.access_grant_token;
}

-- Scope fields must stay empty beside an intent.
unfoldable pub overrides_scope : ConnectInput → Bool
overrides_scope input =
    not (blank input.site_id)
    || not (blank input.network_space_id)
    || not (blank input.gateway_id)
    || not (blank input.mode)
    || not (is_empty input.resource_ids)
    || not (blank input.access_grant_id)
    || not (blank input.access_grant_token)

unfoldable pub preparing : Manager → Manager
preparing m = record m {
  status = record (m.status) {
    state = ConnectionState.connecting;
    phase = "preparing";
    diagnostic = "";
  };
}

unfoldable pub same_profile : VpnManagedConnectResult → VpnManagedPrepareResult → Bool
same_profile result prepared =
    str_eq result.profile_id prepared.profile_id
    && result.profile_revision == prepared.profile_revision
    && result.selection_policy_revision == prepared.selection_policy_revision

unfoldable pub selected : VpnManagedConnectResult → Manager → Manager
selected result m = record m {
  status = record (m.status) {
    site_id = result.site_id;
    network_space_id = result.network_space_id;
    mode = result.mode;
    resource_ids = result.resource_ids;
    selection = result.selection;
    selection_reason = result.selection_reason;
    decision_id = result.decision_id;
    failover_on_disconnect = result.failover_on_disconnect;
    retry_cooldown_seconds = result.retry_cooldown_seconds;
    max_attempts = result.max_attempts;
    phase = "applying";
  };
}

unfoldable pub measuring_status : VpnManagedPrepareResult → Manager → Manager
measuring_status prepared m = record m {
  status = record (m.status) {
    profile_id = prepared.profile_id;
    profile_revision = prepared.profile_revision;
    phase = "measuring";
  };
}

unfoldable pub probed_status : VpnProbeBatch → Manager → Manager
probed_status batch m = record m {
  status = record (m.status) {
    probe_results = batch.results;
    probe_measured_at = some batch.window_ended_at;
    phase = "selecting";
  };
}
