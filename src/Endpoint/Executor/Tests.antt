-- ===== src/Endpoint/Executor/Tests.antt =====
-- executor.go on a concrete tunnel: one network lease of 10.0.0.0/8, one denial inside it.
use soha_app.Base.{true, str_eq, blank, ◌≡◌, some, List, [], ◌∷◌, refl, All}
use soha_app.Endpoint.Executor.Apply.{
  verify, Executor, disable, System, apply, new_executor, vpn_binding,
}
use soha_app.Endpoint.Executor.Plan.{
  plan_of_peers, valid_header, plan_with_peer, bounded, tunnel_plan, valid_dns, valid_dns_address,
  valid_peer, valid_plan_scope, build_tunnel_plan,
}
use soha_app.Endpoint.Executor.Routes.{
  canonical_prefixes, all_canonical, is_canonical, disjoint, covers_prefix, lease_cidr_covers,
  routes_meet, network_lease_covers, resource_lease_live, route_covered, routes_covered,
  rule_covers, within_any,
}
use soha_app.Netip.Parse.{
  parse_prefix, prefix_of, ipv4_from, hex_group, hex_value, ipv6_from, is_digit, next_group,
  parse_addr, parse_addr_codes, parse_ip,
}
use soha_app.Netip.Addr.{
  bit_len, is_4in6, is_global_unicast, is_masked, contains_addr, host_prefix, is_link_local_unicast,
  is_loopback, is_multicast, is_unspecified, span, unmap,
}
use soha_app.Netip.Print.{prints_prefix, addr_codes, codes_eq, digits_in, prefix_codes, prints_addr}
use soha_app.Endpoint.Executor.Firewall.{
  add_networks, add_resources, allow_phase, check_rule, check_rules, deny_phase, distinct_ports,
  find_lease, lease_phase, next_phase, valid_destination, valid_firewall_rules, valid_ports,
  valid_rule, LeaseState, lease_states,
}
use soha_app.Endpoint.Executor.Host.{join_host_port, valid_endpoint_host}
use soha_app.Endpoint.Executor.Tunnel.{strings_eq, TunnelPlan, empty_readback, readback_of}
use soha_app.Endpoint.Identifier.{
  is_alphanumeric, is_identifier_tail, matches_identifier, matches_identifier_codes,
}
use soha_app.Endpoint.Manager.Leases.{insert, sort, str_leb}
use soha_app.Endpoint.Executor.Recovery.{Reported, apply-Reported, IsHonest}
use soha_app.Endpoint.Executor.Runs.{
  Bound, Run, Run-IsHonest, applies, binds, disables, starts, then, verifies, vpn_binding-Bound,
}
use soha_app.Endpoint.Executor.Authorized.{IsAuthorized, build_tunnel_plan-IsAuthorized}
use soha_app.Endpoint.Executor.Order.{IsGranted, Sorted, build_tunnel_plan-Sorted}
use soha_app.Endpoint.Executor.Split.{IsSplit, Pairwise, build_tunnel_plan-IsSplit}
use soha_app.Endpoint.Executor.Dns.{IsInside, build_tunnel_plan-IsInside}
use soha_app.Endpoint.Executor.Sample.{desired, keys, lease, plan, system, tunnel}

plan_builds : build_tunnel_plan desired tunnel keys 1000 ≡ some plan
unfolding build_tunnel_plan plan_of_peers valid_header str_eq plan_with_peer bounded
    canonical_prefixes all_canonical is_canonical parse_prefix prefix_of ipv4_from bit_len is_4in6
    is_global_unicast is_masked prints_prefix disjoint blank add_networks add_resources allow_phase
    check_rule check_rules deny_phase distinct_ports find_lease lease_phase lease_states next_phase
    valid_destination valid_firewall_rules valid_ports valid_rule join_host_port valid_endpoint_host
    tunnel_plan valid_dns valid_dns_address valid_peer valid_plan_scope covers_prefix
    lease_cidr_covers routes_meet network_lease_covers resource_lease_live route_covered
    routes_covered rule_covers within_any strings_eq is_alphanumeric is_identifier_tail
    matches_identifier matches_identifier_codes insert sort str_leb contains_addr host_prefix
    is_link_local_unicast is_loopback is_multicast is_unspecified span unmap hex_group hex_value
    ipv6_from is_digit next_group parse_addr parse_addr_codes parse_ip addr_codes codes_eq digits_in
    prefix_codes prints_addr
plan_builds = refl

build_tunnel_plan-IsAuthorized_example : All (IsAuthorized desired tunnel 1000) plan.routes
build_tunnel_plan-IsAuthorized_example =
    build_tunnel_plan-IsAuthorized desired tunnel keys 1000 plan plan_builds

build_tunnel_plan-Sorted_example :
    (states : List LeaseState) × (lease_states (lease ∷ []) [] 1000 ≡ some states)
    × Sorted states 0 tunnel.firewall_rules
    × All (IsGranted desired 1000) tunnel.firewall_rules
build_tunnel_plan-Sorted_example =
    build_tunnel_plan-Sorted desired tunnel keys 1000 plan plan_builds

build_tunnel_plan-IsSplit_example : All IsSplit plan.routes × Pairwise plan.routes
build_tunnel_plan-IsSplit_example =
    build_tunnel_plan-IsSplit desired tunnel keys 1000 plan plan_builds

build_tunnel_plan-IsInside_example : All (IsInside plan.routes) plan.dns_servers
build_tunnel_plan-IsInside_example =
    build_tunnel_plan-IsInside desired tunnel keys 1000 plan plan_builds

apply-Reported_example :
    Reported keys system desired
      (some tunnel)
      1000
      new_executor
      (apply keys system desired 1000 new_executor)
apply-Reported_example = apply-Reported keys system desired 1000 new_executor

-- The plan is installed, bound, read back and removed.
visit :
    Run keys system new_executor
      (disable keys system
        (verify keys system desired 1100
          (vpn_binding keys system (apply keys system desired 1000 new_executor).1).1).1).1
visit =
    then (then (then (then starts (applies desired 1000)) binds) (verifies desired 1100)) disables

Run-IsHonest_example :
    IsHonest
      (disable keys system
        (verify keys system desired 1100
          (vpn_binding keys system (apply keys system desired 1000 new_executor).1).1).1).1
Run-IsHonest_example = Run-IsHonest keys system visit

abbrev in_force : Executor
in_force = record { previous = some plan; calls = [] }

tunnel_binds : (vpn_binding keys system in_force).0 ≡ some ("soha0", plan.routes)
unfolding vpn_binding soha_app.Endpoint.Executor.Apply.bind_native
    soha_app.Endpoint.Executor.Apply.bind_tunnel soha_app.Endpoint.Executor.Apply.confirms
    soha_app.Endpoint.Executor.Tunnel.readback_eq str_eq
    soha_app.Endpoint.Executor.Apply.bound_interface
    soha_app.Endpoint.Executor.Apply.valid_vpn_interface_name is_alphanumeric
tunnel_binds = refl

vpn_binding-Bound_example :
    Bound keys system "soha0" plan.routes in_force (vpn_binding keys system in_force).1
vpn_binding-Bound_example = vpn_binding-Bound keys system in_force "soha0" plan.routes tunnel_binds

-- A DNS server with a zone passes: only the prefix made of it is looked up in the routes.
zoned_dns : valid_dns ("fd00::/16" ∷ []) [] ("fd00::1%en0" ∷ []) ≡ true
unfolding valid_dns parse_addr parse_addr_codes ipv6_from next_group hex_group is_4in6
    is_global_unicast prints_addr within_any parse_prefix bit_len host_prefix contains_addr
zoned_dns = refl
