-- ===== src/Endpoint/Executor/Dns.antt =====
-- executor.go: the DNS servers of a plan and its routes.
use soha_app.Base.{
  inr, inl, String, true, ◌≡◌, some, List, [], ◌∷◌, arith, All, Ever, any→Ever, Option-cases,
}
use mathlib.Core.Path.{subst⁻¹}
use soha_app.Endpoint.Protocol.{ConfigurationDesired, Time, WireGuardConfiguration}
use soha_app.Endpoint.Executor.Tunnel.{TunnelPlan}
use soha_app.Endpoint.Executor.Routes.{covers_prefix, within_any}
use soha_app.Endpoint.Executor.Plan.{
  Keys, build_tunnel_plan, valid_dns, valid_dns_address, valid_plan_scope,
}
use soha_app.Endpoint.Executor.Authorized.{build_tunnel_plan-Checked}
use soha_app.Endpoint.Executor.Split.{sort-All}
use soha_app.Netip.Addr.{Addr, Prefix, host_prefix, is_global_unicast}
use soha_app.Netip.Parse.{parse_addr, parse_prefix}
use soha_app.Netip.Inclusion.{IsIn, contains_addr-IsIn}

-- The route has an address of this family and value; a zone of the address is left out.
abbrev pub HasAddress : Addr → String → Type 0
HasAddress a route =
    (p : Prefix) × (parse_prefix route ≡ some p) × (p.addr.is6 ≡ a.is6) × IsIn a.value p

-- The server parses as a global unicast address whose value, without its zone, one of the routes has.
abbrev pub IsInside : List String → String → Type 0
IsInside routes server =
    (a : Addr) × (parse_addr server ≡ some a)
    × (is_global_unicast a ≡ true)
    × Ever (HasAddress a) routes

covers_prefix-HasAddress :
    (a : Addr) (route : String)
    → covers_prefix (parse_prefix route) (host_prefix a) ≡ true
    → HasAddress a route
unfolding covers_prefix host_prefix
covers_prefix-HasAddress a route h = elim (Option-cases (parse_prefix route)) [
  | inl e ↦ ground (arith, e)
  | inr (p, e) ↦
      let (same, inside) = contains_addr-IsIn p (host_prefix a).addr (ground (arith, e)) in
      (p, e, same, inside)
]

within_any-Ever :
    (a : Addr) (routes : List String)
    → within_any (host_prefix a) routes ≡ true
    → Ever (HasAddress a) routes
unfolding within_any
within_any-Ever a routes h =
    any→Ever (λ raw. covers_prefix (parse_prefix raw) (host_prefix a)) routes
      (covers_prefix-HasAddress a) h

valid_dns_address-IsInside :
    (raw : String) (routes : List String)
    → valid_dns_address (parse_addr raw) raw routes ≡ true
    → IsInside routes raw
unfolding valid_dns_address
valid_dns_address-IsInside raw routes h = elim (Option-cases (parse_addr raw)) [
  | inl e ↦ ground (arith, e)
  | inr (a, e) ↦ (a, e, ground (arith, e), within_any-Ever a routes (ground (arith, e)))
]

valid_dns-All :
    (routes seen servers : List String)
    → valid_dns routes seen servers ≡ true
    → All (IsInside routes) servers
unfolding valid_dns
valid_dns-All routes seen [] h = tt
valid_dns-All routes seen (raw ∷ rest) h = (
  valid_dns_address-IsInside raw routes (ground arith),
  valid_dns-All routes (raw ∷ seen) rest (ground arith),
)

-- Every DNS server of a plan that was built parses as a global unicast address whose value, less its zone,
-- lies in one of the plan's routes. A server with a zone is not refused, and of it nothing more holds.
pub build_tunnel_plan-IsInside :
    (desired : ConfigurationDesired) (wg : WireGuardConfiguration) (keys : Keys) (now : Time)
    (plan : TunnelPlan)
    → build_tunnel_plan desired wg keys now ≡ some plan
    → All (IsInside plan.routes) plan.dns_servers
unfolding valid_plan_scope
build_tunnel_plan-IsInside desired wg keys now plan h =
    let checked = build_tunnel_plan-Checked desired wg keys now plan h in
    subst⁻¹ (All (IsInside plan.routes)) (checked.dns) (
      sort-All (IsInside plan.routes) wg.dns_servers
        (valid_dns-All plan.routes [] wg.dns_servers (ground (arith, checked.scope))))
