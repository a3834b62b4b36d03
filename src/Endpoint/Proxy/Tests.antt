-- ===== src/Endpoint/Proxy/Tests.antt =====
-- mihomo.go on a concrete proxy, beside the executor of a concrete tunnel.
use soha_app.Netip.Print.{prints_addr, prints_prefix, addr_codes, digits_in, prefix_codes, codes_eq}
use soha_app.Netip.Addr.{
  host_prefix, bit_len, is_4in6, is_global_unicast, is_masked, contains_addr, is_link_local_unicast,
  is_loopback, is_multicast, is_unspecified, overlaps, span, unmap,
}
use soha_app.Endpoint.Manager.Leases.{str_leb, sort, insert}
use soha_app.Endpoint.Executor.Tunnel.{strings_eq, readback_eq}
use soha_app.Endpoint.Executor.Routes.{
  within_any, rule_covers, routes_covered, route_covered, resource_lease_live, network_lease_covers,
  routes_meet, lease_cidr_covers, disjoint, is_canonical, all_canonical, canonical_prefixes,
  covers_prefix,
}
use soha_app.Endpoint.Executor.Plan.{
  valid_plan_scope, valid_peer, valid_dns_address, valid_dns, tunnel_plan, bounded, plan_with_peer,
  valid_header, plan_of_peers, build_tunnel_plan,
}
use soha_app.Endpoint.Executor.Host.{join_host_port, valid_endpoint_host}
use soha_app.Endpoint.Executor.Firewall.{
  valid_rule, valid_ports, valid_firewall_rules, valid_destination, next_phase, lease_states,
  lease_phase, find_lease, distinct_ports, deny_phase, check_rules, check_rule, allow_phase,
  add_resources, add_networks,
}
use soha_app.Endpoint.Proxy.Coordination.{expected_readback, bind_vpn, quiesce}
use soha_app.Endpoint.Proxy.State.{
  mihomo_readback_eq, CoordinatedExecutor, MihomoRuntime, absent, missing, new_coordinated,
}
use soha_app.Endpoint.Proxy.Operations.{
  apply_managed, apply_mihomo, apply_prepared, follows_policy, prepare_mihomo, apply_beside,
  apply_quiet, apply_coordinated, disable_coordinated, verify_coordinated,
}
use soha_app.Endpoint.Executor.Apply.{
  bound_interface, bind_tunnel, bind_native, vpn_binding, confirms, install_plan, apply_plan,
  apply_tunnel, apply, valid_vpn_interface_name, Executor, new_executor,
}
use soha_app.Endpoint.Identifier.{
  matches_identifier, is_alphanumeric, is_identifier_tail, matches_identifier_codes,
}
use soha_app.Endpoint.Proxy.Names.{
  valid_mihomo_name, valid_subscription_url, reserved_mihomo_name, byte_length, is_trimmed,
  valid_manual_node, Url,
}
use soha_app.Base.{
  blank, if◌then◌else◌, String, Bool, true, false, ◌≡◌, Option, none, some, [], ◌∷◌, refl, str_eq,
  codes,
}
use soha_app.Endpoint.Proxy.Validation.{
  valid_with, fake_ip_range, canonical_mihomo_prefix, valid_protection, all_apart, apart,
  bypass_covers, meets_fake_ip, valid_beside, valid_route, valid_mihomo_configuration,
}
use soha_app.Netip.Parse.{
  parse_prefix, ipv4_from, hex_group, hex_value, ipv6_from, is_digit, next_group, parse_addr,
  parse_addr_codes, parse_ip, prefix_of,
}
use soha_app.Endpoint.Proxy.Policy.{
  bypass_rules, protection_rules, route_rules, MihomoRule, mihomo_rules, match,
}
use soha_app.Endpoint.Protocol.{WireGuardConfiguration, ConfigurationDesired, MihomoConfiguration}
use soha_app.Base.Errors.{ok}
use soha_app.Endpoint.Manager.State.{got, refused}
use soha_app.Endpoint.Executor.Sample.{desired, keys, system, tunnel}
use soha_app.Endpoint.Proxy.Policy.Verdict.{meets, mihomo_rules-verdict, verdict}
use soha_app.Endpoint.Proxy.Validation.Ranges.{RangesHold, valid_mihomo_configuration-RangesHold}
use soha_app.Endpoint.Proxy.Coordination.Invariant.{IsCoordinated, IsOrdered, Remembers}
use soha_app.Endpoint.Proxy.Operations.Order.{
  Reported, apply_coordinated-Reported, verify_coordinated-Reported,
}
use soha_app.Endpoint.Proxy.AppControl.Runs.{
  Run-IsCoordinated, Run-IsOrdered, applies, disables, next, starts, verifies,
}
use soha_app.Endpoint.Proxy.Composition.{executor_interface, executor_laws}

abbrev proxy : MihomoConfiguration
proxy = record {
  protection =
      some (record { policy_version = 3; cidrs = some ("10.9.0.0/16" ∷ []); hosts = some [] });
  mode = "managed_follow";
  source_type = "managed_subscription";
  profile_id = "profile-1";
  profile_revision = 4;
  mixed_port = 7890;
  controller_port = 9090;
  dns_mode = "fake_ip";
  fake_ip_range = "198.18.0.0/16";
  selector_group = "office";
  selected_proxy = "node-1";
  bypass_cidrs = "10.0.0.0/8" ∷ [];
  bypass_hosts = "intranet.example" ∷ [];
  fail_closed = true;
  subscription_url = "https://sub.example/list";
  manual_node = none;
  dns_records = [];
  enforcement_until = 2000;
  vpn_interface = "soha0";
  vpn_routes = "10.1.0.0/16" ∷ "10.3.0.0/16" ∷ [];
}

abbrev https : String → Option Url
https raw = some (record {
  scheme = "https";
  host = "sub.example";
  hostname = "sub.example";
  has_user = false;
  fragment = "";
  opaque = "";
})

abbrev quiet_tunnel : WireGuardConfiguration
quiet_tunnel = record tunnel { dns_servers = [] }

proxy_passes : valid_mihomo_configuration https proxy (some quiet_tunnel) true ≡ true
unfolding valid_mihomo_configuration matches_identifier valid_mihomo_name blank str_eq
    valid_subscription_url valid_with fake_ip_range canonical_mihomo_prefix parse_prefix ipv4_from
    bit_len is_4in6 is_global_unicast is_masked prints_prefix valid_protection reserved_mihomo_name
    valid_vpn_interface_name valid_endpoint_host covers_prefix is_alphanumeric is_identifier_tail
    matches_identifier_codes byte_length is_trimmed valid_manual_node all_apart apart bypass_covers
    meets_fake_ip valid_beside valid_route contains_addr is_link_local_unicast is_loopback
    is_multicast is_unspecified overlaps span unmap hex_group hex_value ipv6_from is_digit
    next_group parse_addr parse_addr_codes parse_ip prefix_of addr_codes codes_eq digits_in
    prefix_codes
proxy_passes = refl

valid_mihomo_configuration-RangesHold_example : RangesHold proxy quiet_tunnel.routes
valid_mihomo_configuration-RangesHold_example =
    valid_mihomo_configuration-RangesHold https proxy quiet_tunnel true proxy_passes

-- A rule of prefixes matches the addresses inside; the last rule matches everything.
abbrev reads : MihomoRule → String → Bool
reads r d = elim r.rule_type [ match ↦ true | _ ↦ codes_eq r.payload (codes d) ]

mihomo_rules-verdict_example : verdict reads (mihomo_rules proxy) "10.9.0.0/16" ≡ (
    if meets reads (route_rules proxy) "10.9.0.0/16"
    then some "soha-vpn"
    else if meets reads (protection_rules proxy.protection) "10.9.0.0/16"
    then some "REJECT"
    else if meets reads (bypass_rules proxy) "10.9.0.0/16"
    then some "soha-egress-direct"
    else some "soha-egress-proxy")
mihomo_rules-verdict_example = mihomo_rules-verdict reads proxy "10.9.0.0/16" refl

-- A proxy that does what it is told, beside a file that is not there.
abbrev runtime : MihomoRuntime
runtime = record {
  has_mihomo = true;
  has_verify = true;
  has_app = true;
  app_state_path = "/state/app";
  apply = λ xs c. got (record {
    mode = c.mode;
    profile_id = c.profile_id;
    profile_revision = c.profile_revision;
    mixed_port = c.mixed_port;
    controller_port = c.controller_port;
    dns_mode = c.dns_mode;
    selected_proxy = c.selected_proxy;
    protection_hash = "protection";
  });
  apply_subscription = λ xs c url selected. refused "no nodes";
  verify = λ xs c. ok;
  disable = λ xs. ok;
  load_state = λ xs. missing;
  save_state = λ xs state. ok;
  remove_state = λ xs. absent;
  parse_url = https;
  combined_hash = λ wireguard mihomo. wireguard;
  mihomo_hash = λ readback. "hash";
  protection_hash = λ c. "protection";
}

abbrev start : CoordinatedExecutor Executor
start = new_coordinated new_executor

abbrev wanted : ConfigurationDesired
wanted = record desired {
  wireguard = some (record tunnel { routes = "10.1.0.0/16" ∷ "10.3.0.0/16" ∷ [] });
  mihomo = some (record proxy { dns_mode = "disabled"; fake_ip_range = "" });
}

start-IsCoordinated :
    IsCoordinated runtime (executor_interface keys system) (executor_laws keys system) start
start-IsCoordinated =
    Run-IsCoordinated runtime (executor_interface keys system) (executor_laws keys system) tt starts

apply_coordinated-Reported_example :
    Reported runtime
      (executor_interface keys system)
      (executor_laws keys system)
      (apply_coordinated runtime (executor_interface keys system) wanted 1000 start)
apply_coordinated-Reported_example =
    apply_coordinated-Reported runtime (executor_interface keys system) (executor_laws keys system)
      wanted 1000 start start-IsCoordinated

verify_coordinated-Reported_example :
    Reported runtime
      (executor_interface keys system)
      (executor_laws keys system)
      (verify_coordinated runtime (executor_interface keys system) wanted 1000 start)
verify_coordinated-Reported_example =
    verify_coordinated-Reported runtime (executor_interface keys system) (executor_laws keys system)
      wanted 1000 start start-IsCoordinated

abbrev working : CoordinatedExecutor Executor
working = (apply_coordinated runtime (executor_interface keys system) wanted 1000 start).1

-- The tunnel and the proxy are in force.
working_applies :
    (apply_coordinated runtime (executor_interface keys system) wanted 1000 start).0.status
    ≡ "applied"
unfolding apply_coordinated quiesce apply_quiet apply apply_tunnel apply_plan install_plan confirms
    readback_eq apply_beside prepare_mihomo bind_vpn vpn_binding bind_native bind_tunnel
    bound_interface follows_policy apply_prepared apply_mihomo apply_managed mihomo_readback_eq
    expected_readback valid_mihomo_configuration matches_identifier valid_mihomo_name blank str_eq
    valid_subscription_url valid_with fake_ip_range canonical_mihomo_prefix parse_prefix ipv4_from
    bit_len is_4in6 is_global_unicast is_masked prints_prefix valid_protection reserved_mihomo_name
    valid_vpn_interface_name valid_endpoint_host covers_prefix is_alphanumeric is_identifier_tail
    matches_identifier_codes byte_length is_trimmed valid_manual_node all_apart apart bypass_covers
    meets_fake_ip valid_beside valid_route contains_addr is_link_local_unicast is_loopback
    is_multicast is_unspecified overlaps span unmap hex_group hex_value ipv6_from is_digit
    next_group parse_addr parse_addr_codes parse_ip prefix_of addr_codes codes_eq digits_in
    prefix_codes build_tunnel_plan plan_of_peers valid_header plan_with_peer bounded
    canonical_prefixes all_canonical is_canonical disjoint add_networks add_resources allow_phase
    check_rule check_rules deny_phase distinct_ports find_lease lease_phase lease_states next_phase
    valid_destination valid_firewall_rules valid_ports valid_rule join_host_port tunnel_plan
    valid_dns valid_dns_address valid_peer valid_plan_scope lease_cidr_covers routes_meet
    network_lease_covers resource_lease_live route_covered routes_covered rule_covers within_any
    strings_eq insert sort str_leb host_prefix prints_addr
working_applies = refl

abbrev unsorted : ConfigurationDesired
unsorted = record wanted { wireguard = some tunnel }

-- The same routes in another order: the tunnel is installed, since buildTunnelPlan sorts them, and the
-- proxy is refused, since bindMihomoVPN compares them as they came.
unsorted_refused :
    (apply_coordinated runtime (executor_interface keys system) unsorted 1000 start).0.reason_code
    ≡ "mihomo_vpn_binding_unavailable"
unfolding apply_coordinated quiesce apply_quiet apply apply_tunnel apply_plan install_plan confirms
    readback_eq apply_beside prepare_mihomo bind_vpn vpn_binding bind_native bind_tunnel
    bound_interface follows_policy apply_prepared apply_mihomo apply_managed mihomo_readback_eq
    expected_readback valid_mihomo_configuration matches_identifier valid_mihomo_name blank str_eq
    valid_subscription_url valid_with fake_ip_range canonical_mihomo_prefix parse_prefix ipv4_from
    bit_len is_4in6 is_global_unicast is_masked prints_prefix valid_protection reserved_mihomo_name
    valid_vpn_interface_name valid_endpoint_host covers_prefix is_alphanumeric is_identifier_tail
    matches_identifier_codes byte_length is_trimmed valid_manual_node all_apart apart bypass_covers
    meets_fake_ip valid_beside valid_route contains_addr is_link_local_unicast is_loopback
    is_multicast is_unspecified overlaps span unmap hex_group hex_value ipv6_from is_digit
    next_group parse_addr parse_addr_codes parse_ip prefix_of addr_codes codes_eq digits_in
    prefix_codes build_tunnel_plan plan_of_peers valid_header plan_with_peer bounded
    canonical_prefixes all_canonical is_canonical disjoint add_networks add_resources allow_phase
    check_rule check_rules deny_phase distinct_ports find_lease lease_phase lease_states next_phase
    valid_destination valid_firewall_rules valid_ports valid_rule join_host_port tunnel_plan
    valid_dns valid_dns_address valid_peer valid_plan_scope lease_cidr_covers routes_meet
    network_lease_covers resource_lease_live route_covered routes_covered rule_covers within_any
    strings_eq insert sort str_leb host_prefix prints_addr
unsorted_refused = refl

abbrev checked : CoordinatedExecutor Executor
checked = (verify_coordinated runtime (executor_interface keys system) wanted 1100 working).1

abbrev stopped : CoordinatedExecutor Executor
stopped = (disable_coordinated runtime (executor_interface keys system) checked).1

Run-IsOrdered_example :
    IsOrdered stopped.exchanges
    × Remembers runtime
        (executor_interface keys system)
        (executor_laws keys system)
        stopped.previous
        stopped.exchanges
    × (executor_laws keys system).Holds stopped.wireguard
Run-IsOrdered_example =
    Run-IsOrdered runtime (executor_interface keys system) (executor_laws keys system) tt
      (next (next (next starts (applies wanted 1000)) (verifies wanted 1100)) disables)
