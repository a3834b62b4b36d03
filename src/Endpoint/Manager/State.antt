-- ===== src/Endpoint/Manager/State.antt =====
-- manager.go: the state of `Manager`, what it has asked of its surroundings, and their answers.
use soha_app.Base.{ℕ, String, Bool, false, Option, none, List, [], ◌⊎◌, inl, inr, ◌≡◌, refl}
use soha_app.Endpoint.Protocol.{
  Time, AdmissionConfiguration, ApplyOutcome, ConfigurationApplied, ConfigurationDesired,
  LeaseRenewRequest, LeaseRenewResult, LeaseRevoke, MihomoConfiguration, MihomoSource,
  RuntimeMessage, VpnConnectRequest, VpnConnectResult, WireGuardConfiguration,
}
use soha_app.Base.Errors.{Error}

-- StateDisconnected, StateConnecting, StateConnected, StateDegraded
pub data ConnectionState : Type 0 where
  disconnected connecting connected degraded : ConnectionState

-- vpn_protocol.go: VPNProbeResult; a float64 is its bit pattern.
pub record VpnProbeResult : Type 0 where
  pub gateway_id : String
  pub sent_count : ℕ
  pub rtt_samples_ms : List ℕ

-- `Status`, without what `Status()` adds to a copy: the channel controls, the session's end and
-- the uptime. The two identifiers that every status carries are those of the options.
pub record Status : Type 0 where
  pub presence_state : String
  pub presence_last_received_at : Option Time
  pub presence_epoch : ℕ
  pub profile_id : String
  pub profile_revision : ℕ
  pub selection : String
  pub selection_reason : String
  pub decision_id : String
  pub phase : String
  pub probe_results : List VpnProbeResult
  pub probe_measured_at : Option Time
  pub failover_on_disconnect : Bool
  pub retry_cooldown_seconds : ℕ
  pub max_attempts : ℕ
  pub connected_at : Option Time
  pub tunnel_ip : String
  pub state : ConnectionState
  pub site_id : String
  pub network_space_id : String
  pub mode : String
  pub resource_ids : List String
  pub session_id : String
  pub gateway_id : String
  pub configuration_version : ℕ
  pub policy_version : ℕ
  pub valid_until : Time
  pub mihomo_mode : String
  pub mihomo_profile_id : String
  pub mihomo_profile_revision : ℕ
  pub mihomo_policy_version : ℕ
  pub diagnostic : String

-- Status{State: StateDisconnected, RuntimeID: …, DeviceID: …}
abbrev pub fresh_status : Status
fresh_status = record {
  presence_state = "";
  presence_last_received_at = none;
  presence_epoch = 0;
  profile_id = "";
  profile_revision = 0;
  selection = "";
  selection_reason = "";
  decision_id = "";
  phase = "";
  probe_results = [];
  probe_measured_at = none;
  failover_on_disconnect = false;
  retry_cooldown_seconds = 0;
  max_attempts = 0;
  connected_at = none;
  tunnel_ip = "";
  state = disconnected;
  site_id = "";
  network_space_id = "";
  mode = "";
  resource_ids = [];
  session_id = "";
  gateway_id = "";
  configuration_version = 0;
  policy_version = 0;
  valid_until = 0;
  mihomo_mode = "";
  mihomo_profile_id = "";
  mihomo_profile_revision = 0;
  mihomo_policy_version = 0;
  diagnostic = "";
}

-- pendingVPNCleanup
pub record PendingVpnCleanup : Type 0 where
  pub session_id : String
  pub lease_ids : List String
  pub reason : String

-- configurationFloor
pub record ConfigurationFloor : Type 0 where
  pub pending_cleanup : Option PendingVpnCleanup
  pub version : ℕ
  pub identity : String
  pub configuration_version : ℕ
  pub policy_version : ℕ
  pub digest : String

abbrev pub empty_floor : ConfigurationFloor
empty_floor = record {
  pending_cleanup = none;
  version = 0;
  identity = "";
  configuration_version = 0;
  policy_version = 0;
  digest = "";
}

-- vpn_protocol.go
pub record VpnManagedConnectRequest : Type 0 where
  pub request_id : String
  pub intent_id : String
  pub intent_token : String
  pub probe_batch_id : String

-- VPNManagedPrepareResult, less the probe descriptors, which only the prober reads.
pub record VpnManagedPrepareResult : Type 0 where
  pub profile_id : String
  pub profile_revision : ℕ
  pub selection_policy_revision : ℕ

pub record VpnManagedConnectResult : Type 0 where
  pub connection : VpnConnectResult
  pub profile_id : String
  pub profile_revision : ℕ
  pub selection_policy_revision : ℕ
  pub selection : String
  pub selection_reason : String
  pub site_id : String
  pub network_space_id : String
  pub mode : String
  pub resource_ids : List String
  pub decision_id : String
  pub failover_on_disconnect : Bool
  pub retry_cooldown_seconds : ℕ
  pub max_attempts : ℕ

pub record VpnProbeBatch : Type 0 where
  pub batch_id : String
  pub window_ended_at : Time
  pub results : List VpnProbeResult

-- What the manager asked of its surroundings, with the error that came back where the order of
-- events turns on it.
pub data Event : Type 0 where
  read_clock drew_id polled checked_health : Event
  disabled_endpoint : Error → Event
  revoked : LeaseRevoke → Error → Event
  saved_floor : ConfigurationFloor → Error → Event
  applied_configuration : ConfigurationDesired → ApplyOutcome → Event
  verified_configuration : ConfigurationDesired → ApplyOutcome → Event
  reported : ConfigurationApplied → Event
  fetched_source : String → Event
  observed_admission : Option AdmissionConfiguration → Event
  renewed : LeaseRenewRequest → Event
  asked_connection : VpnConnectRequest → Event
  prepared_managed measured asked_managed : VpnManagedConnectRequest → Event
  sent_probe : String → Event

-- The newest event stands first.
abbrev pub History : Type 0
History = List Event

pub data Answer {ℓ} (A : Type ℓ) : Type ℓ where
  got : A → Answer A
  refused : String → Answer A

-- ManagerOptions, as far as the modelled operations read it.
pub record ManagerOptions : Type 0 where
  pub control_url : String
  pub configuration_state_path : String
  -- filepath.IsAbs of it
  pub has_absolute_path : Bool
  pub runtime_id : String
  pub device_id : String
  pub poll_interval : ℕ
  pub heartbeat_interval : ℕ
  pub renew_before : ℕ
  pub max_clock_skew : ℕ
  pub has_admission : Bool
  pub has_health_check : Bool

-- The surroundings: the clock, the control plane, the executor, the protected state file. Each
-- answer may depend on everything that was asked before, so that nothing is assumed of them.
pub record Surroundings : Type 0 where
  pub options : ManagerOptions
  pub now : History → Time
  pub random_id : History → String
  -- fmt.Sprintf("sha256:%x", sha256.Sum256(…))
  pub sha256_text : String → String
  -- The digest of json.Marshal's output, `none` for its error.
  pub configuration_digest : ConfigurationDesired → Option String
  -- decodeStrict of a message's payload
  pub decode_configuration : String → Option ConfigurationDesired
  pub valid_mihomo : MihomoConfiguration → Option WireGuardConfiguration → Bool
  pub supports_verify : Bool
  pub supports_managed : Bool
  pub supports_vpn_probe : Bool
  pub save : History → ConfigurationFloor → Error
  pub disable : History → Error
  pub revoke : History → LeaseRevoke → Error
  pub configuration : History → Answer RuntimeMessage
  pub mihomo_source : History → String → Answer MihomoSource
  pub apply : History → ConfigurationDesired → Time → ApplyOutcome
  pub verify : History → ConfigurationDesired → Time → ApplyOutcome
  pub report : History → ConfigurationApplied → Error
  pub renew : History → LeaseRenewRequest → Answer LeaseRenewResult
  pub check_health : History → Error
  pub connect : History → VpnConnectRequest → Answer VpnConnectResult
  pub prepare_managed : History → VpnManagedConnectRequest → Answer VpnManagedPrepareResult
  pub probe_vpn : History → VpnManagedPrepareResult → Answer VpnProbeBatch
  pub send_probe : History → VpnProbeBatch → Error
  pub connect_managed : History → VpnManagedConnectRequest → Answer VpnManagedConnectResult

-- `Manager`, with the floor file (`disk`) and the history of what was asked.
pub record Manager : Type 0 where
  pub poll_interval : ℕ
  pub heartbeat_interval : ℕ
  pub status : Status
  pub lease_ids : List String
  pub session_until : Time
  pub next_renew_at : Time
  pub applied_version : ℕ
  pub applied_hash : String
  pub disabled : Bool
  pub cleanup_reason : String
  pub floor : ConfigurationFloor
  pub disk : Option ConfigurationFloor
  pub history : History

-- manager.update and degrade
unfoldable pub degrade : String → Manager → Manager
degrade reason m = record m { status = record (m.status) { state = degraded; diagnostic = reason } }

pub Answer-cases {ℓ} :
    {A : Type ℓ} (a : Answer A)
    → ((reason : String) × (a ≡ refused reason)) ⊎ ((x : A) × (a ≡ got x))
Answer-cases (got x) = inr (x, refl)
Answer-cases (refused reason) = inl (reason, refl)
