-- ===== src/Endpoint/Protocol.antt =====
-- internal/endpointservice/protocol.go and eap_protocol.go: the wire records.
-- A `time.Time` is the count of nanoseconds since the zero time, so 0 is `IsZero`; an `int` that the
-- code refuses when it is below 1 is a natural number, 0 standing for every such value.
use soha_app.Base.{ℕ, ℤ, String, List, [], Option, none, some, Bool}

abbrev pub Time : Type 0
Time = ℕ

pub record AdmissionProfile : Type 0 where
  pub id : String
  pub site_id : String
  pub access_medium : String
  pub ssid : String
  pub identity : String
  pub server_names : List String
  pub ca_certificates : List String
  pub wifi_security : String
  pub client_certificate_fingerprint : String

pub record AdmissionConfiguration : Type 0 where
  pub profiles : List AdmissionProfile
  pub restriction_epoch : ℕ

pub record NetworkLease : Type 0 where
  pub id : String
  pub session_id : String
  pub subject_id : String
  pub device_id : String
  pub network_space_id : String
  pub cidrs : List String
  pub policy_version : ℕ
  pub issued_at : Time
  pub expires_at : Time

pub record ResourceLease : Type 0 where
  pub id : String
  pub session_id : String
  pub subject_id : String
  pub device_id : String
  pub resource_ids : List String
  pub policy_version : ℕ
  pub issued_at : Time
  pub expires_at : Time

pub record RuntimeIntervals : Type 0 where
  pub heartbeat_interval_seconds : ℕ
  pub configuration_poll_interval_seconds : ℕ

-- `none` is a list that the wire does not name.
pub record MihomoProtection : Type 0 where
  pub policy_version : ℕ
  pub cidrs : Option (List String)
  pub hosts : Option (List String)

-- What a `range` over it reads.
abbrev pub listed : Option (List String) → List String
listed none = []
listed (some items) = items

pub record MihomoManualNode : Type 0 where
  pub protocol : String
  pub server : String
  pub port : ℕ
  pub username : String
  pub password : String

pub record DnsRecord : Type 0 where
  pub hostname : String
  pub addresses : List String
  pub expires_at : Time

-- Without the ports, secrets and nodes that the controller fills in for itself.
pub record MihomoConfiguration : Type 0 where
  pub protection : Option MihomoProtection
  pub mode : String
  pub source_type : String
  pub profile_id : String
  pub profile_revision : ℕ
  pub mixed_port : ℕ
  pub controller_port : ℕ
  pub dns_mode : String
  pub fake_ip_range : String
  pub selector_group : String
  pub selected_proxy : String
  pub bypass_cidrs : List String
  pub bypass_hosts : List String
  pub fail_closed : Bool
  pub subscription_url : String
  pub manual_node : Option MihomoManualNode
  pub dns_records : List DnsRecord
  pub enforcement_until : Time
  pub vpn_interface : String
  pub vpn_routes : List String

pub record MihomoSource : Type 0 where
  pub profile_id : String
  pub profile_revision : ℕ
  pub source_type : String
  pub subscription_url : String
  pub manual_node : Option MihomoManualNode

pub record WireGuardPeer : Type 0 where
  pub runtime_id : String
  pub device_id : String
  pub public_key : String
  pub endpoint_host : String
  pub endpoint_port : ℕ
  pub allowed_ips : List String
  pub persistent_keepalive_seconds : ℤ

pub record WireGuardFirewallRule : Type 0 where
  pub id : String
  pub effect : String
  pub lease_id : String
  pub source_cidr : String
  pub destination_cidr : String
  pub protocol : String
  pub ports : List ℕ
  pub expires_at : Option Time

pub record WireGuardConfiguration : Type 0 where
  pub dns_records : List DnsRecord
  pub role : String
  pub interface_name : String
  pub public_key : String
  pub addresses : List String
  pub listen_port : ℕ
  pub mtu : ℕ
  pub routing_mode : String
  pub firewall_default : String
  pub peers : List WireGuardPeer
  pub routes : List String
  pub dns_servers : List String
  pub firewall_rules : List WireGuardFirewallRule

pub record ConfigurationDesired : Type 0 where
  pub admission : Option AdmissionConfiguration
  pub configuration_version : ℕ
  pub policy_version : ℕ
  pub valid_until : Time
  pub access_profile : String
  pub protected_resource_ids : List String
  pub network_leases : List NetworkLease
  pub resource_leases : List ResourceLease
  pub runtime_intervals : Option RuntimeIntervals
  pub wireguard : Option WireGuardConfiguration
  pub mihomo : Option MihomoConfiguration

pub record RuntimeMessage : Type 0 where
  pub schema_version : String
  pub message_id : String
  pub message_type : String
  pub producer_id : String
  pub runtime_id : String
  pub runtime_kind : String
  pub occurred_at : Time
  pub expires_at : Time
  pub payload : String

pub record ConfigurationApplied : Type 0 where
  pub configuration_version : ℕ
  pub policy_version : ℕ
  pub status : String
  pub readback_hash : String
  pub reason_code : String

pub record ApplyOutcome : Type 0 where
  pub status : String
  pub readback_hash : String
  pub reason_code : String

pub record LeaseRenewRequest : Type 0 where
  pub session_id : String
  pub lease_ids : List String
  pub observed_configuration_version : ℕ

pub record LeaseRenewResult : Type 0 where
  pub policy_version : ℕ
  pub valid_until : Time
  pub network_leases : List NetworkLease
  pub resource_leases : List ResourceLease
  pub revoked_lease_ids : List String

pub record LeaseRevoke : Type 0 where
  pub session_id : String
  pub lease_ids : List String
  pub reason_code : String
  pub effective_at : Time

pub record VpnConnectRequest : Type 0 where
  pub request_id : String
  pub site_id : String
  pub network_space_id : String
  pub gateway_id : String
  pub mode : String
  pub resource_ids : List String
  pub access_grant_id : String
  pub access_grant_token : String

pub record VpnConnectResult : Type 0 where
  pub request_id : String
  pub decision : String
  pub reason_code : String
  pub session_id : String
  pub gateway_id : String
  pub configuration_version : ℕ
  pub policy_version : ℕ
  pub valid_until : Time
  pub network_leases : List NetworkLease
  pub resource_leases : List ResourceLease
