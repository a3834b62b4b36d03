-- ===== src/Endpoint/Executor/Sample.antt =====
-- A concrete tunnel: one network lease of 10.0.0.0/8, one denial inside it.
use soha_app.Base.{none, some, [], ◌∷◌, pos}
use soha_app.Base.Errors.{ok}
use soha_app.Endpoint.Protocol.{ConfigurationDesired, NetworkLease, WireGuardConfiguration}
use soha_app.Endpoint.Manager.State.{got}
use soha_app.Endpoint.Executor.Tunnel.{TunnelPlan, readback_of}
use soha_app.Endpoint.Executor.Plan.{Keys}
use soha_app.Endpoint.Executor.Apply.{System}

abbrev pub lease : NetworkLease
lease = record {
  id = "lease-1";
  session_id = "session-1";
  subject_id = "user-1";
  device_id = "device-1";
  network_space_id = "space-1";
  cidrs = "10.0.0.0/8" ∷ [];
  policy_version = 3;
  issued_at = 900;
  expires_at = 2000;
}

abbrev pub tunnel : WireGuardConfiguration
tunnel = record {
  dns_records = [];
  role = "endpoint";
  interface_name = "soha0";
  public_key = "own";
  addresses = "100.64.0.2/32" ∷ [];
  listen_port = 0;
  mtu = 1420;
  routing_mode = "routed";
  firewall_default = "deny";
  peers =
      record {
        runtime_id = "gateway-1";
        device_id = "device-2";
        public_key = "peer";
        endpoint_host = "vpn.example";
        endpoint_port = 51820;
        allowed_ips = "10.1.0.0/16" ∷ "10.3.0.0/16" ∷ [];
        persistent_keepalive_seconds = pos 25;
      }
      ∷ [];
  routes = "10.3.0.0/16" ∷ "10.1.0.0/16" ∷ [];
  dns_servers = "10.3.0.53" ∷ [];
  firewall_rules =
      record {
        id = "deny-1";
        effect = "deny";
        lease_id = "";
        source_cidr = "100.64.0.2/32";
        destination_cidr = "10.3.7.0/24";
        protocol = "any";
        ports = [];
        expires_at = none;
      }
      ∷ record {
        id = "allow-1";
        effect = "allow";
        lease_id = "lease-1";
        source_cidr = "100.64.0.2/32";
        destination_cidr = "10.1.0.0/16";
        protocol = "any";
        ports = [];
        expires_at = some 2000;
      }
      ∷ [];
}

abbrev pub desired : ConfigurationDesired
desired = record {
  admission = none;
  configuration_version = 7;
  policy_version = 3;
  valid_until = 2000;
  access_profile = "corporate";
  protected_resource_ids = [];
  network_leases = lease ∷ [];
  resource_leases = [];
  runtime_intervals = none;
  wireguard = some tunnel;
  mihomo = none;
}

abbrev pub keys : Keys
keys = record { private_key = "secret"; public_key = "own"; parse_key = λ text. some text }

abbrev pub plan : TunnelPlan
plan = record {
  private_key = "secret";
  public_key = "own";
  addresses = "100.64.0.2/32" ∷ [];
  mtu = 1420;
  peer = record {
    public_key = "peer";
    endpoint = "vpn.example:51820";
    allowed_ips = some ("10.1.0.0/16" ∷ "10.3.0.0/16" ∷ []);
    persistent_keepalive_seconds = pos 25;
  };
  routes = "10.1.0.0/16" ∷ "10.3.0.0/16" ∷ [];
  dns_servers = "10.3.0.53" ∷ [];
}

-- A system that does what it is told, and knows only this plan.
abbrev pub system : System
system = record {
  install = λ calls p. ok;
  readback = λ calls. got (readback_of plan);
  remove = λ calls. ok;
  tunnel_interface = some (got "soha0");
  hash = λ readback. "hash";
}
