-- ===== src/Endpoint/Manager/Sync/Display.antt =====
-- manager.go: what an applied configuration makes of the status, and the tests of syncConfiguration.
use soha_app.Base.{
  ℕ, ◌*◌, String, Bool, false, not, ◌&&◌, ◌||◌, Option, none, some, [], ◌∷◌, leb, ◌==◌,
  if◌then◌else◌, is_some, str_eq, blank,
}
use soha_app.Base.Errors.{Error, is_ok}
use soha_app.Endpoint.Protocol.{
  ApplyOutcome, ConfigurationApplied, ConfigurationDesired, MihomoConfiguration, MihomoSource,
  RuntimeIntervals, WireGuardConfiguration,
}
use soha_app.Endpoint.Manager.State.{ConnectionState, Manager, Status, degraded}
use soha_app.Endpoint.Manager.Leases.{lease_ids}

-- The first address of the tunnel, if there is one; else the old value stays.
unfoldable pub tunnel_address : Option WireGuardConfiguration → String → String
tunnel_address none old = old
tunnel_address (some wireguard) old = elim wireguard.addresses [ [] ↦ old | a ∷ _ ↦ a ]

unfoldable pub recoverable_vpn_failure : String → Bool
recoverable_vpn_failure reason =
    str_eq reason "vpn_tunnel_unhealthy"
    || str_eq reason "endpoint_readback_mismatch"
    || str_eq reason "endpoint_apply_failed"

-- The mihomo fields of applyDesiredStatus
unfoldable pub mihomo_status : Option MihomoConfiguration → Status → Status
mihomo_status none s = record s {
  mihomo_mode = "";
  mihomo_profile_id = "";
  mihomo_profile_revision = 0;
  mihomo_policy_version = 0;
}
mihomo_status (some mihomo) s = record s {
  mihomo_mode = mihomo.mode;
  mihomo_profile_id = mihomo.profile_id;
  mihomo_profile_revision = mihomo.profile_revision;
  mihomo_policy_version = elim mihomo.protection [ none ↦ 0 | some p ↦ p.policy_version ];
}

-- The connection state and the diagnostic that applyDesiredStatus leaves.
unfoldable pub desired_state : ConfigurationDesired → Status → ConnectionState
desired_state desired s =
    if not (is_some desired.wireguard) && blank s.session_id && recoverable_vpn_failure s.diagnostic
    then degraded
    else if not (blank s.profile_id) && not (is_some desired.wireguard)
    then ConnectionState.disconnected
    else if is_some desired.wireguard || is_some desired.mihomo
    then ConnectionState.connected
    else ConnectionState.disconnected

unfoldable pub desired_diagnostic : ConfigurationDesired → Status → String
desired_diagnostic desired s =
    if not (is_some desired.wireguard) && blank s.session_id && recoverable_vpn_failure s.diagnostic
    then s.diagnostic
    else ""

unfoldable pub apply_desired_status : ConfigurationDesired → Status → Status
unfolding tunnel_address mihomo_status desired_state desired_diagnostic
apply_desired_status desired s = record (mihomo_status desired.mihomo s) {
  configuration_version = desired.configuration_version;
  policy_version = desired.policy_version;
  valid_until = desired.valid_until;
  state = desired_state desired s;
  diagnostic = desired_diagnostic desired s;
  tunnel_ip = tunnel_address desired.wireguard s.tunnel_ip;
}

unfoldable pub valid_runtime_interval : ℕ → Bool
valid_runtime_interval seconds = leb 30 seconds && leb seconds 300

unfoldable pub apply_runtime_intervals : Option RuntimeIntervals → Manager → Manager
apply_runtime_intervals none m = m
apply_runtime_intervals (some intervals) m =
    if not (valid_runtime_interval intervals.heartbeat_interval_seconds)
      || not (valid_runtime_interval intervals.configuration_poll_interval_seconds)
    then m
    else record m {
      heartbeat_interval = intervals.heartbeat_interval_seconds * 1_000_000_000;
      poll_interval = intervals.configuration_poll_interval_seconds * 1_000_000_000;
    }

-- managedConfigurationRevoked
unfoldable pub managed_configuration_revoked : ConfigurationDesired → Manager → Bool
managed_configuration_revoked desired m =
    not (blank m.status.profile_id)
    && not (blank m.status.session_id)
    && not (is_some desired.wireguard)

unfoldable pub applied_report : ConfigurationDesired → ApplyOutcome → ConfigurationApplied
applied_report desired outcome = record {
  configuration_version = desired.configuration_version;
  policy_version = desired.policy_version;
  status = outcome.status;
  readback_hash = outcome.readback_hash;
  reason_code = outcome.reason_code;
}

-- `*desired.Mihomo` with what the control plane says of its source
unfoldable pub with_source : MihomoConfiguration → MihomoSource → MihomoConfiguration
with_source mihomo source = record mihomo {
  source_type = source.source_type;
  subscription_url = source.subscription_url;
  manual_node = source.manual_node;
}

unfoldable pub source_matches : MihomoConfiguration → MihomoSource → Bool
source_matches mihomo source =
    str_eq source.profile_id mihomo.profile_id
    && source.profile_revision == mihomo.profile_revision
    && (blank mihomo.source_type || str_eq source.source_type mihomo.source_type)

unfoldable pub policy_version_of : MihomoConfiguration → Option ℕ
policy_version_of mihomo = elim mihomo.protection [
  | none ↦ none
  | some protection ↦ some protection.policy_version
]

unfoldable pub same_policy : ConfigurationDesired → MihomoConfiguration → Bool
unfolding policy_version_of
same_policy desired mihomo = elim (policy_version_of mihomo) [
  | none ↦ false
  | some v ↦ v == desired.policy_version
]

-- The last lock of syncConfiguration, after the executor has applied `desired`.
unfoldable pub settle_applied : ConfigurationDesired → String → Bool → Error → Manager → Manager
settle_applied desired hash authorization_revoked revoke_err m =
    let m1 = record m {
      status = apply_desired_status desired m.status;
      applied_version = desired.configuration_version;
      applied_hash = hash;
      disabled = not (is_some desired.wireguard) && not (is_some desired.mihomo);
    } in
    if is_ok revoke_err
    then (let m2 = record m1 {
      lease_ids = lease_ids desired.network_leases desired.resource_leases;
    } in
        if authorization_revoked
        then record m2 {
          session_until = 0;
          next_renew_at = 0;
          status = record (m1.status) {
            session_id = "";
            gateway_id = "";
            tunnel_ip = "";
            connected_at = none;
            phase = "";
            diagnostic = "authorization_revoked";
          };
        }
        else m2)
    else record m1 {
      cleanup_reason = "authorization_revoked";
      status = record (m1.status) { state = degraded; diagnostic = "revocation_pending" };
    }
