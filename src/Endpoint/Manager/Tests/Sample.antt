-- ===== src/Endpoint/Manager/Tests/Sample.antt =====
-- A concrete endpoint: the office's control plane allows one VPN session and hands out
-- configuration 7.
use soha_app.Base.{true, false, none, some, [], ◌∷◌}
use soha_app.Base.Errors.{ok, fail}
use soha_app.Endpoint.Protocol.{
  ApplyOutcome, ConfigurationDesired, NetworkLease, RuntimeMessage, VpnConnectResult,
}
use soha_app.Endpoint.Manager.State.{
  Manager, ManagerOptions, Surroundings, fresh_status, got, refused,
}
use soha_app.Endpoint.Manager.Connect.{ConnectInput}

abbrev options : ManagerOptions
options = record {
  control_url = "https://control.example";
  configuration_state_path = "/var/lib/soha/floor.json";
  has_absolute_path = true;
  runtime_id = "endpoint-1";
  device_id = "device-1";
  poll_interval = 30_000_000_000;
  heartbeat_interval = 30_000_000_000;
  renew_before = 100;
  max_clock_skew = 10;
  has_admission = false;
  has_health_check = false;
}

abbrev pub lease : NetworkLease
lease = record {
  id = "lease-1";
  session_id = "session-1";
  subject_id = "user-1";
  device_id = "device-1";
  network_space_id = "space-1";
  cidrs = [];
  policy_version = 3;
  issued_at = 900;
  expires_at = 2000;
}

abbrev pub desired : ConfigurationDesired
desired = record {
  admission = none;
  configuration_version = 7;
  policy_version = 3;
  valid_until = 2000;
  access_profile = "corporate";
  protected_resource_ids = [];
  network_leases = lease ∷ [];
  resource_leases = [];
  runtime_intervals = none;
  wireguard = some (record {
    dns_records = [];
    role = "client";
    interface_name = "soha0";
    public_key = "key";
    addresses = "10.0.0.2/32" ∷ [];
    listen_port = 0;
    mtu = 1420;
    routing_mode = "split";
    firewall_default = "deny";
    peers = [];
    routes = [];
    dns_servers = [];
    firewall_rules = [];
  });
  mihomo = none;
}

abbrev message : RuntimeMessage
message = record {
  schema_version = "network-runtime/v1alpha1";
  message_id = "message-1";
  message_type = "configuration.desired";
  producer_id = "network-control";
  runtime_id = "endpoint-1";
  runtime_kind = "endpoint";
  occurred_at = 990;
  expires_at = 2000;
  payload = "{}";
}

abbrev granted : VpnConnectResult
granted = record {
  request_id = "request-1";
  decision = "allow";
  reason_code = "";
  session_id = "session-1";
  gateway_id = "gateway-1";
  configuration_version = 7;
  policy_version = 3;
  valid_until = 2000;
  network_leases = lease ∷ [];
  resource_leases = [];
}

abbrev applied : ApplyOutcome
applied = record { status = "applied"; readback_hash = "hash"; reason_code = "" }

-- Everything works.
abbrev pub office : Surroundings
office = record {
  options = options;
  now = λ history. 1000;
  random_id = λ history. "request-1";
  sha256_text = λ text. "sha256:identity";
  configuration_digest = λ configuration.
      some "sha256:0123456789abcdef0123456789abcdef0123456789abcdef0123456789abcdef";
  decode_configuration = λ payload. some desired;
  valid_mihomo = λ mihomo wireguard. true;
  supports_verify = true;
  supports_managed = false;
  supports_vpn_probe = false;
  save = λ history floor. ok;
  disable = λ history. ok;
  revoke = λ history request. ok;
  configuration = λ history. got message;
  mihomo_source = λ history profile. refused "none";
  apply = λ history configuration now. applied;
  verify = λ history configuration now. applied;
  report = λ history report. ok;
  renew = λ history request. refused "none";
  check_health = λ history. ok;
  connect = λ history request. got granted;
  prepare_managed = λ history request. refused "none";
  probe_vpn = λ history prepared. refused "none";
  send_probe = λ history batch. ok;
  connect_managed = λ history request. refused "none";
}

-- The executor cannot apply what the control plane hands out.
abbrev pub broken : Surroundings
broken = record office {
  apply = λ history configuration now. record {
    status = "failed";
    readback_hash = "";
    reason_code = "endpoint_apply_failed";
  };
}

-- And the control plane takes no revocation.
abbrev pub stuck : Surroundings
stuck = record broken { revoke = λ history request. fail "revoke endpoint leases" }

-- What a first start leaves.
abbrev pub installed : Manager
installed = record {
  poll_interval = 30_000_000_000;
  heartbeat_interval = 30_000_000_000;
  status = fresh_status;
  lease_ids = [];
  session_until = 0;
  next_renew_at = 0;
  applied_version = 0;
  applied_hash = "";
  disabled = true;
  cleanup_reason = "";
  floor = record {
    pending_cleanup = none;
    version = 0;
    identity = "";
    configuration_version = 0;
    policy_version = 0;
    digest = "";
  };
  disk = none;
  history = [];
}

abbrev pub input : ConnectInput
input = record {
  intent_id = "";
  intent_token = "";
  request_id = "";
  site_id = "site-1";
  network_space_id = "space-1";
  gateway_id = "";
  mode = "";
  resource_ids = [];
  access_grant_id = "";
  access_grant_token = "";
}
