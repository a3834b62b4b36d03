-- ===== src/Endpoint/Proxy/Validation.antt =====
-- mihomo.go: validateMihomoConfiguration; mihomo_policy.go: validateMihomoProtection.
pub mod Ranges
use soha_app.Base.{
  ℕ, String, Bool, true, false, not, ◌&&◌, ◌||◌, Option, none, some, List, [], ◌∷◌, ltb, leb, ◌==◌,
  if◌then◌else◌, all, any, codes, blank, str_eq, contains, is_some, is_empty, length,
}
use soha_app.Endpoint.Identifier.{matches_identifier}
use soha_app.Endpoint.Protocol.{
  MihomoConfiguration, MihomoProtection, listed, WireGuardConfiguration,
}
use soha_app.Endpoint.Executor.Apply.{valid_vpn_interface_name}
use soha_app.Endpoint.Executor.Host.{valid_endpoint_host}
use soha_app.Endpoint.Executor.Routes.{covers_prefix}
use soha_app.Endpoint.Proxy.Names.{
  Url, reserved_mihomo_name, valid_manual_node, valid_mihomo_name, valid_subscription_url,
}
use soha_app.Netip.Addr.{Prefix, is_4in6, is_global_unicast, is_masked, overlaps}
use soha_app.Netip.Parse.{parse_addr, parse_prefix}
use soha_app.Netip.Print.{prints_prefix}

is_mihomo_prefix : String → Prefix → Bool
is_mihomo_prefix raw p =
    not (is_4in6 p.addr)
    && is_global_unicast p.addr
    && is_masked p
    && not (p.bits == 0)
    && prints_prefix p raw

-- canonicalMihomoPrefix
unfoldable pub canonical_mihomo_prefix : String → Option Prefix
unfolding is_mihomo_prefix
canonical_mihomo_prefix raw = elim (parse_prefix raw) [
  | none ↦ none
  | some p ↦ if is_mihomo_prefix raw p then some p else none
]

-- `fakeIP.IsValid() && fakeIP.Overlaps(prefix)`
unfoldable pub meets_fake_ip : Option Prefix → Prefix → Bool
meets_fake_ip none p = false
meets_fake_ip (some fake_ip) p = overlaps fake_ip p

-- A text that is a canonical prefix, is not among those seen before, and does not meet the fake-IP range.
unfoldable pub apart : Option Prefix → List String → String → Bool
apart fake_ip seen raw = elim (canonical_mihomo_prefix raw) [
  | none ↦ false
  | some p ↦ not (contains seen raw) && not (meets_fake_ip fake_ip p)
]

-- The loops over the protected CIDRs, the VPN routes and the bypassed CIDRs.
unfoldable pub all_apart : Option Prefix → List String → List String → Bool
all_apart fake_ip seen [] = true
all_apart fake_ip seen (raw ∷ rest) = apart fake_ip seen raw && all_apart fake_ip (raw ∷ seen) rest

is_upper : ℕ → Bool
is_upper c = leb b'A' c && leb c b'Z'

-- The loop over the protected hosts; a valid host is ASCII.
protected_hosts : List String → List String → Bool
unfolding is_upper
protected_hosts seen [] = true
protected_hosts seen (host ∷ hosts) =
    valid_endpoint_host host
    && not (is_some (parse_addr host))
    && not (any is_upper (codes host))
    && not (contains seen host)
    && protected_hosts (host ∷ seen) hosts

-- The loop over the bypassed hosts.
bypassed_hosts : List String → List String → Bool
bypassed_hosts seen [] = true
bypassed_hosts seen (host ∷ hosts) =
    valid_endpoint_host host && not (contains seen host) && bypassed_hosts (host ∷ seen) hosts

valid_binding : MihomoConfiguration → Bool
valid_binding c =
    leb (length c.vpn_routes) 256
    && (if is_empty c.vpn_routes
        then blank c.vpn_interface
        else valid_vpn_interface_name c.vpn_interface)

-- validateMihomoProtection
unfoldable pub valid_protection :
    MihomoConfiguration → Option MihomoProtection → Option Prefix → Bool
unfolding protected_hosts valid_binding
valid_protection c none fake_ip = false
valid_protection c (some protection) fake_ip =
    ltb 0 protection.policy_version
    && is_some protection.cidrs
    && is_some protection.hosts
    && leb (length (listed protection.cidrs)) 4096
    && leb (length (listed protection.hosts)) 2048
    && not (reserved_mihomo_name c.selector_group)
    && all_apart fake_ip [] (listed protection.cidrs)
    && all_apart fake_ip [] c.vpn_routes
    && protected_hosts [] (listed protection.hosts)
    && valid_binding c

valid_profile : MihomoConfiguration → Bool
valid_profile c =
    matches_identifier c.profile_id
    && ltb 0 c.profile_revision
    && ltb 0 c.mixed_port
    && leb c.mixed_port 65535
    && ltb 0 c.controller_port
    && leb c.controller_port 65535
    && not (c.mixed_port == c.controller_port)
    && valid_mihomo_name c.selector_group

valid_managed_source : (String → Option Url) → Bool → MihomoConfiguration → Bool
valid_managed_source parse_url require_source c =
    if blank c.source_type || str_eq c.source_type "managed_subscription"
    then valid_mihomo_name c.selected_proxy
      && not (is_some c.manual_node)
      && (not require_source || valid_subscription_url parse_url c.subscription_url)
    else str_eq c.source_type "manual_node"
      && blank c.selected_proxy
      && blank c.subscription_url
      && (not require_source || valid_manual_node c.manual_node)

-- The switch on the mode.
valid_mode : (String → Option Url) → Bool → MihomoConfiguration → Bool
unfolding valid_managed_source
valid_mode parse_url require_source c =
    if str_eq c.mode "managed_follow"
    then c.fail_closed && valid_managed_source parse_url require_source c
    else str_eq c.mode "app_subscription"
      && blank c.source_type
      && blank c.selected_proxy
      && blank c.subscription_url
      && not (is_some c.manual_node)

-- The switch on the DNS mode: `none` for an error, and else the fake-IP range, if there is one.
unfoldable pub fake_ip_range : MihomoConfiguration → Option (Option Prefix)
fake_ip_range c =
    if str_eq c.dns_mode "disabled"
    then if blank c.fake_ip_range then some none else none
    else if str_eq c.dns_mode "fake_ip"
    then elim (canonical_mihomo_prefix c.fake_ip_range) [
      | none ↦ none
      | some p ↦ if p.addr.is6 then none else some (some p)
    ]
    else none

-- prefixCoveredBy, over the texts of the bypassed CIDRs.
unfoldable pub bypass_covers : List String → Prefix → Bool
bypass_covers bypasses route =
    any (λ raw. covers_prefix (canonical_mihomo_prefix raw) route) bypasses

unfoldable pub valid_route : Option Prefix → List String → String → Bool
valid_route fake_ip bypasses raw = elim (canonical_mihomo_prefix raw) [
  | none ↦ false
  | some route ↦ not (meets_fake_ip fake_ip route) && bypass_covers bypasses route
]

unfoldable pub valid_beside : Option Prefix → List String → Option WireGuardConfiguration → Bool
valid_beside fake_ip bypasses none = true
valid_beside fake_ip bypasses (some wg) =
    not (is_some fake_ip && not (is_empty wg.dns_servers))
    && all (valid_route fake_ip bypasses) wg.routes

unfoldable pub valid_with :
    MihomoConfiguration → Option WireGuardConfiguration → Option (Option Prefix) → Bool
unfolding bypassed_hosts
valid_with c wireguard none = false
valid_with c wireguard (some fake_ip) =
    valid_protection c c.protection fake_ip
    && leb (length c.bypass_cidrs) 256
    && leb (length c.bypass_hosts) 128
    && all_apart fake_ip [] c.bypass_cidrs
    && bypassed_hosts [] c.bypass_hosts
    && valid_beside fake_ip c.bypass_cidrs wireguard

-- validateMihomoConfiguration of a configuration
unfoldable pub valid_mihomo_configuration :
    (String → Option Url) → MihomoConfiguration → Option WireGuardConfiguration → Bool → Bool
unfolding valid_profile valid_mode
valid_mihomo_configuration parse_url c wireguard require_source =
    valid_profile c
    && valid_mode parse_url require_source c
    && valid_with c wireguard (fake_ip_range c)
