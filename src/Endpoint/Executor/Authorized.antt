-- ===== src/Endpoint/Executor/Authorized.antt =====
-- executor.go: what a plan that was built is authorized for.
use soha_app.Endpoint.Executor.Plan.{
  plan_of_peers, Keys, bounded, build_tunnel_plan, plan_with_peer, tunnel_plan, valid_header,
  valid_plan_scope,
}
use soha_app.Base.{
  ltb, ◌&&◌, ℕ, ◌<◌, String, true, false, ◌≡◌, ◌⊎◌, Option, none, some, List, [], ◌∷◌, arith, inl,
  inr, All, Ever, all→All, any→Ever, ||-cases, Option-cases, str_eq_iff, str_eq, ltb→lt, any,
}
use soha_app.Endpoint.Protocol.{
  ConfigurationDesired, NetworkLease, ResourceLease, Time, WireGuardConfiguration,
  WireGuardFirewallRule, WireGuardPeer,
}
use soha_app.Endpoint.Identifier.{matches_identifier}
use soha_app.Endpoint.Manager.Leases.{sort}
use soha_app.Endpoint.Executor.Tunnel.{TunnelPlan}
use soha_app.Endpoint.Executor.Routes.{
  canonical_prefixes, lease_cidr_covers, network_lease_covers, resource_lease_live, route_covered,
  routes_covered, rule_covers,
}
use soha_app.Netip.Addr.{Prefix}
use soha_app.Netip.Parse.{parse_prefix}
use soha_app.Netip.Inclusion.{Includes, contains_addr-Includes}

-- The text is a prefix that has every address of `q`.
abbrev pub Covers : Prefix → String → Type 0
Covers q text = (p : Prefix) × (parse_prefix text ≡ some p) × Includes p q

-- A live network lease with a CIDR that covers the route.
abbrev pub NetworkCovers : Time → Prefix → NetworkLease → Type 0
NetworkCovers now q lease = (now < lease.expires_at) × Ever (Covers q) lease.cidrs

abbrev pub IsLive : Time → String → ResourceLease → Type 0
IsLive now id lease = (lease.id ≡ id) × (now < lease.expires_at)

-- A rule that allows the route for a live resource lease.
abbrev pub RuleCovers : Time → Prefix → List ResourceLease → WireGuardFirewallRule → Type 0
RuleCovers now q leases rule =
    (rule.effect ≡ "allow")
    × Ever (IsLive now rule.lease_id) leases
    × Covers q rule.destination_cidr

abbrev pub IsAuthorized : ConfigurationDesired → WireGuardConfiguration → Time → String → Type 0
IsAuthorized desired wg now route =
    (q : Prefix) × (parse_prefix route ≡ some q)
    × (Ever (NetworkCovers now q) desired.network_leases
        ⊎ Ever (RuleCovers now q desired.resource_leases) wg.firewall_rules)

lease_cidr_covers-Covers :
    (q : Prefix) (cidr : String) → lease_cidr_covers q cidr ≡ true → Covers q cidr
unfolding lease_cidr_covers
lease_cidr_covers-Covers q cidr h = elim (Option-cases (parse_prefix cidr)) [
  | inl e ↦ ground (arith, e)
  | inr (p, e) ↦ (p, e, contains_addr-Includes p q (ground (arith, e)) (ground (arith, e)))
]

network_lease_covers-NetworkCovers :
    (now : Time) (q : Prefix) (lease : NetworkLease)
    → network_lease_covers q now lease ≡ true
    → NetworkCovers now q lease
unfolding network_lease_covers
network_lease_covers-NetworkCovers now q lease h = (
  ground (arith, ltb→lt now lease.expires_at),
  any→Ever (lease_cidr_covers q) lease.cidrs (lease_cidr_covers-Covers q) (ground arith),
)

resource_lease_live-Ever :
    (now : Time) (id : String) (leases : List ResourceLease)
    → resource_lease_live leases id now ≡ true
    → Ever (IsLive now id) leases
unfolding resource_lease_live
resource_lease_live-Ever now id leases h =
    any→Ever
      (λ lease. str_eq lease.id id && matches_identifier lease.id && ltb now lease.expires_at)
      leases
      (λ lease live.
        (ground (arith, str_eq_iff lease.id id), ground (arith, ltb→lt now lease.expires_at)))
      h

rule_covers-RuleCovers :
    (now : Time) (q : Prefix) (leases : List ResourceLease) (rule : WireGuardFirewallRule)
    → rule_covers q leases now rule ≡ true
    → RuleCovers now q leases rule
unfolding rule_covers
rule_covers-RuleCovers now q leases rule h =
    elim (Option-cases (parse_prefix rule.destination_cidr)) [
      | inl e ↦ ground (arith, e)
      | inr (p, e) ↦ (
        ground (arith, str_eq_iff rule.effect "allow"),
        resource_lease_live-Ever now rule.lease_id leases (ground arith),
        (p, e, contains_addr-Includes p q (ground (arith, e)) (ground (arith, e))),
      )
    ]

route_covered-IsAuthorized :
    (desired : ConfigurationDesired) (wg : WireGuardConfiguration) (now : Time) (route : String)
    → route_covered desired.network_leases desired.resource_leases wg.firewall_rules now route
      ≡ true
    → IsAuthorized desired wg now route
unfolding route_covered
route_covered-IsAuthorized desired wg now route h = elim (Option-cases (parse_prefix route)) [
  | inl e ↦ ground (arith, e)
  | inr (q, e) ↦
      let by_network = any (network_lease_covers q now) desired.network_leases in
      let by_rule = any (rule_covers q desired.resource_leases now) wg.firewall_rules in
      (
        q,
        e,
        elim (||-cases by_network by_rule (ground (arith, e))) [
          | inl n ↦ inl (
              any→Ever (network_lease_covers q now) desired.network_leases
                (network_lease_covers-NetworkCovers now q) n)
          | inr r ↦ inr (
              any→Ever (rule_covers q desired.resource_leases now) wg.firewall_rules
                (rule_covers-RuleCovers now q desired.resource_leases) r)
        ],
      )
]

-- The checks that a plan has passed.
pub record Checked (desired : ConfigurationDesired) (wg : WireGuardConfiguration) (keys : Keys)
    (now : Time) (plan : TunnelPlan) : Type 0 where
  pub peer : WireGuardPeer
  pub header : valid_header desired wg keys now ≡ true
  pub routes : canonical_prefixes false wg.routes ≡ some plan.routes
  pub scope : valid_plan_scope desired wg peer keys now plan.addresses plan.routes ≡ true
  pub dns : plan.dns_servers ≡ sort wg.dns_servers

bounded-some :
    (limit : ℕ) (o : Option (List String)) (l : List String) → bounded limit o ≡ some l → o ≡ some l
unfolding bounded
bounded-some limit none l h = ground arith
bounded-some limit (some prefixes) l h = ground arith

plan_with_peer-Checked :
    (desired : ConfigurationDesired) (wg : WireGuardConfiguration) (peer : WireGuardPeer)
    (keys : Keys) (now : Time) (plan : TunnelPlan)
    → valid_header desired wg keys now ≡ true
    → plan_with_peer desired wg peer keys now ≡ some plan
    → Checked desired wg keys now plan
unfolding plan_with_peer tunnel_plan
plan_with_peer-Checked desired wg peer keys now plan v h =
    elim (Option-cases (bounded 8 (canonical_prefixes true wg.addresses))) [
      | inl e ↦ ground (arith, e)
      | inr (addresses, e) ↦
          elim (Option-cases (bounded 256 (canonical_prefixes false wg.routes))) [
            | inl f ↦ ground (arith, e, f)
            | inr (routes, f) ↦
                let prefixes = bounded-some 256 (canonical_prefixes false wg.routes) routes f in
                record {
                  peer = peer;
                  header = v;
                  routes = ground (arith, e, f, prefixes);
                  scope = ground (arith, e, f);
                  dns = ground (arith, e, f);
                }
          ]
    ]

plan_of_peers-Checked :
    (desired : ConfigurationDesired) (wg : WireGuardConfiguration) (keys : Keys) (now : Time)
    (peers : List WireGuardPeer) (plan : TunnelPlan)
    → plan_of_peers desired wg keys now peers ≡ some plan
    → Checked desired wg keys now plan
unfolding plan_of_peers
plan_of_peers-Checked desired wg keys now [] plan h = ground arith
plan_of_peers-Checked desired wg keys now (peer ∷ []) plan h =
    plan_with_peer-Checked desired wg peer keys now plan (ground arith) (ground arith)
plan_of_peers-Checked desired wg keys now (p ∷ q ∷ peers) plan h = ground arith

pub build_tunnel_plan-Checked :
    (desired : ConfigurationDesired) (wg : WireGuardConfiguration) (keys : Keys) (now : Time)
    (plan : TunnelPlan)
    → build_tunnel_plan desired wg keys now ≡ some plan
    → Checked desired wg keys now plan
unfolding build_tunnel_plan
build_tunnel_plan-Checked desired wg keys now plan h =
    plan_of_peers-Checked desired wg keys now wg.peers plan h

-- No route without authority. Every address of every route of a plan that was built lies in a CIDR of
-- a network lease that is live at `now`, or in the destination of a rule that allows it for a resource
-- lease that is live at `now`.
pub build_tunnel_plan-IsAuthorized :
    (desired : ConfigurationDesired) (wg : WireGuardConfiguration) (keys : Keys) (now : Time)
    (plan : TunnelPlan)
    → build_tunnel_plan desired wg keys now ≡ some plan
    → All (IsAuthorized desired wg now) plan.routes
unfolding valid_plan_scope routes_covered
build_tunnel_plan-IsAuthorized desired wg keys now plan h =
    let checked = build_tunnel_plan-Checked desired wg keys now plan h in
    all→All (route_covered desired.network_leases desired.resource_leases wg.firewall_rules now)
      plan.routes (route_covered-IsAuthorized desired wg now) (ground (arith, checked.scope))
