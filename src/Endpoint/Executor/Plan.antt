-- ===== src/Endpoint/Executor/Plan.antt =====
-- executor.go: buildTunnelPlan.
use soha_app.Base.{
  ℕ, String, Bool, true, false, not, ◌&&◌, ◌||◌, Option, none, some, List, [], ◌∷◌, ltb, leb,
  if◌then◌else◌, in_range, length, is_empty, str_eq, contains,
}
use soha_app.Endpoint.Protocol.{ConfigurationDesired, Time, WireGuardConfiguration, WireGuardPeer}
use soha_app.Endpoint.Identifier.{matches_identifier}
use soha_app.Endpoint.Manager.Leases.{sort}
use soha_app.Endpoint.Executor.Tunnel.{TunnelPlan, strings_eq}
use soha_app.Endpoint.Executor.Routes.{canonical_prefixes, routes_covered, within_any}
use soha_app.Endpoint.Executor.Firewall.{valid_firewall_rules}
use soha_app.Endpoint.Executor.Host.{join_host_port, valid_endpoint_host}
use soha_app.Netip.Addr.{Addr, host_prefix, is_4in6, is_global_unicast}
use soha_app.Netip.Parse.{parse_addr}
use soha_app.Netip.Print.{prints_addr}

-- The executor's keys as texts, and wgtypes.ParseKey, with the text of the key it reads.
pub record Keys : Type 0 where
  pub private_key : String
  pub public_key : String
  pub parse_key : String → Option String

-- The first test of buildTunnelPlan, on everything but the peers.
unfoldable pub valid_header : ConfigurationDesired → WireGuardConfiguration → Keys → Time → Bool
valid_header desired wg keys now =
    ltb 0 desired.configuration_version
    && ltb 0 desired.policy_version
    && ltb now desired.valid_until
    && str_eq wg.role "endpoint"
    && str_eq wg.interface_name "soha0"
    && str_eq wg.public_key keys.public_key
    && str_eq wg.firewall_default "deny"
    && (str_eq wg.routing_mode "routed" || str_eq wg.routing_mode "snat")
    && leb 1280 wg.mtu
    && leb wg.mtu 1500

foreign_key : Option String → String → Bool
foreign_key none own = false
foreign_key (some key) own = not (str_eq key own)

unfoldable pub valid_peer : WireGuardPeer → Keys → Bool
unfolding foreign_key
valid_peer peer keys =
    foreign_key (keys.parse_key peer.public_key) keys.public_key
    && matches_identifier peer.runtime_id
    && leb 1 peer.endpoint_port
    && leb peer.endpoint_port 65535
    && in_range peer.persistent_keepalive_seconds 300
    && valid_endpoint_host peer.endpoint_host

-- At least one prefix and at most `limit` of them
unfoldable pub bounded : ℕ → Option (List String) → Option (List String)
bounded limit none = none
bounded limit (some prefixes) =
    if not (is_empty prefixes) && leb (length prefixes) limit then some prefixes else none

unfoldable pub valid_dns_address : Option Addr → String → List String → Bool
valid_dns_address none raw routes = false
valid_dns_address (some a) raw routes =
    not (is_4in6 a) && is_global_unicast a && prints_addr a raw && within_any (host_prefix a) routes

-- The loop over the DNS servers: each in a route, none twice.
unfoldable pub valid_dns : List String → List String → List String → Bool
unfolding valid_dns_address
valid_dns routes seen [] = true
valid_dns routes seen (raw ∷ rest) =
    valid_dns_address (parse_addr raw) raw routes
    && not (contains seen raw)
    && valid_dns routes (raw ∷ seen) rest

same_prefixes : List String → Option (List String) → Bool
same_prefixes routes none = false
same_prefixes routes (some allowed_ips) = strings_eq routes allowed_ips

-- The tests behind the addresses and the routes.
unfoldable pub valid_plan_scope :
    ConfigurationDesired
    → WireGuardConfiguration
    → WireGuardPeer
    → Keys
    → Time
    → List String
    → List String
    → Bool
unfolding same_prefixes
valid_plan_scope desired wg peer keys now addresses routes =
    valid_peer peer keys
    && same_prefixes routes (canonical_prefixes false peer.allowed_ips)
    && valid_dns routes [] wg.dns_servers
    && leb (length wg.dns_servers) 8
    && valid_firewall_rules wg.firewall_rules addresses desired.network_leases
        desired.resource_leases routes now
    && routes_covered routes desired.network_leases desired.resource_leases wg.firewall_rules now

unfoldable pub tunnel_plan :
    WireGuardConfiguration → WireGuardPeer → Keys → List String → List String → TunnelPlan
tunnel_plan wg peer keys addresses routes = record {
  private_key = keys.private_key;
  public_key = keys.public_key;
  addresses = addresses;
  mtu = wg.mtu;
  peer = record {
    public_key = peer.public_key;
    endpoint = join_host_port peer.endpoint_host peer.endpoint_port;
    allowed_ips = some routes;
    persistent_keepalive_seconds = peer.persistent_keepalive_seconds;
  };
  routes = routes;
  dns_servers = sort wg.dns_servers;
}

unfoldable pub plan_with_peer :
    ConfigurationDesired → WireGuardConfiguration → WireGuardPeer → Keys → Time → Option TunnelPlan
plan_with_peer desired wg peer keys now = elim (bounded 8 (canonical_prefixes true wg.addresses)) [
  | none ↦ none
  | some addresses ↦ elim (bounded 256 (canonical_prefixes false wg.routes)) [
    | none ↦ none
    | some routes ↦
        if valid_plan_scope desired wg peer keys now addresses routes
        then some (tunnel_plan wg peer keys addresses routes)
        else none
  ]
]

-- A configuration has exactly one peer.
unfoldable pub plan_of_peers :
    ConfigurationDesired
    → WireGuardConfiguration
    → Keys
    → Time
    → List WireGuardPeer
    → Option TunnelPlan
plan_of_peers desired wg keys now (peer ∷ []) =
    if valid_header desired wg keys now then plan_with_peer desired wg peer keys now else none
plan_of_peers desired wg keys now _ = none

-- buildTunnelPlan; `none` is its error.
unfoldable pub build_tunnel_plan :
    ConfigurationDesired → WireGuardConfiguration → Keys → Time → Option TunnelPlan
build_tunnel_plan desired wg keys now = plan_of_peers desired wg keys now wg.peers
