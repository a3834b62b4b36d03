-- ===== src/Endpoint/Executor/Routes.antt =====
-- executor.go: canonical prefixes, and which of them the leases and the routes cover.
use soha_app.Base.{
  ◌+◌, String, Bool, true, false, not, ◌&&◌, ◌||◌, Option, none, some, List, [], ◌∷◌, ltb, leb,
  ◌==◌, length, all, any, str_eq, contains, if◌then◌else◌,
}
use soha_app.Endpoint.Protocol.{NetworkLease, ResourceLease, Time, WireGuardFirewallRule}
use soha_app.Endpoint.Identifier.{matches_identifier}
use soha_app.Endpoint.Manager.Leases.{sort}
use soha_app.Netip.Addr.{Prefix, bit_len, contains_addr, is_4in6, is_global_unicast, is_masked}
use soha_app.Netip.Parse.{parse_prefix}
use soha_app.Netip.Print.{prints_prefix}

-- The tests of canonicalPrefixes on one value that has been parsed.
canonical_prefix : Bool → Prefix → String → Bool
canonical_prefix require_host p value =
    not (is_4in6 p.addr)
    && is_global_unicast p.addr
    && is_masked p
    && not (p.bits == 0)
    && (not require_host || p.bits == bit_len p.addr)
    && prints_prefix p value

unfoldable pub is_canonical : Bool → String → Bool
unfolding canonical_prefix
is_canonical require_host value = elim (parse_prefix value) [
  | none ↦ false
  | some p ↦ canonical_prefix require_host p value
]

-- The first loop of canonicalPrefixes: each value canonical, none twice.
unfoldable pub all_canonical : Bool → List String → List String → Bool
all_canonical require_host seen [] = true
all_canonical require_host seen (value ∷ values) =
    is_canonical require_host value
    && not (contains seen value)
    && all_canonical require_host (value ∷ seen) values

-- `a` covers `b`: both are prefixes, and the address of `b` lies in `a`, which is not longer.
unfoldable pub covers_prefix : Option Prefix → Prefix → Bool
covers_prefix none p = false
covers_prefix (some q) p = leb q.bits p.bits && contains_addr q p.addr

either_contains : Option Prefix → Option Prefix → Bool
either_contains (some p) (some q) = contains_addr p q.addr || contains_addr q p.addr
either_contains _ _ = false

unfoldable pub routes_meet : String → String → Bool
unfolding either_contains
routes_meet left right = either_contains (parse_prefix left) (parse_prefix right)

-- The second loop of canonicalPrefixes: no two routes overlap.
unfoldable pub disjoint : List String → Bool
disjoint [] = true
disjoint (left ∷ rest) = not (any (routes_meet left) rest) && disjoint rest

-- canonicalPrefixes
unfoldable pub canonical_prefixes : Bool → List String → Option (List String)
canonical_prefixes require_host raw =
    if all_canonical require_host [] raw && disjoint (sort raw) then some (sort raw) else none

-- prefixWithinAny; a route that is no prefix, on which the code would panic, covers nothing.
unfoldable pub within_any : Prefix → List String → Bool
unfolding covers_prefix
within_any p routes = any (λ raw. covers_prefix (parse_prefix raw) p) routes

unfoldable pub resource_lease_live : List ResourceLease → String → Time → Bool
resource_lease_live leases lease_id now =
    any
      (λ lease. str_eq lease.id lease_id && matches_identifier lease.id && ltb now lease.expires_at)
      leases

-- A CIDR of a network lease covers the route.
unfoldable pub lease_cidr_covers : Prefix → String → Bool
lease_cidr_covers route cidr = elim (parse_prefix cidr) [
  | none ↦ false
  | some p ↦
      not (is_4in6 p.addr) && is_masked p && leb p.bits route.bits && contains_addr p route.addr
]

unfoldable pub network_lease_covers : Prefix → Time → NetworkLease → Bool
network_lease_covers route now lease =
    matches_identifier lease.id
    && ltb now lease.expires_at
    && any (lease_cidr_covers route) lease.cidrs

unfoldable pub rule_covers : Prefix → List ResourceLease → Time → WireGuardFirewallRule → Bool
unfolding covers_prefix
rule_covers route resource_leases now rule =
    str_eq rule.effect "allow"
    && resource_lease_live resource_leases rule.lease_id now
    && covers_prefix (parse_prefix rule.destination_cidr) route

unfoldable pub route_covered :
    List NetworkLease → List ResourceLease → List WireGuardFirewallRule → Time → String → Bool
route_covered network_leases resource_leases rules now route = elim (parse_prefix route) [
  | none ↦ false
  | some p ↦
      any (network_lease_covers p now) network_leases
      || any (rule_covers p resource_leases now) rules
]

-- routesCoveredByLeases
unfoldable pub routes_covered :
    List String → List NetworkLease → List ResourceLease → List WireGuardFirewallRule → Time → Bool
routes_covered routes network_leases resource_leases rules now =
    all (route_covered network_leases resource_leases rules now) routes
    && ltb 0 (length network_leases + length resource_leases)
