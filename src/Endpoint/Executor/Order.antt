-- ===== src/Endpoint/Executor/Order.antt =====
-- executor.go: what the loop over the firewall rules ensures of their order and their leases.
mod Phases
unfoldable pub use Phases.*
use soha_app.Base.{
  Ever, All, if◌then◌else◌, ℕ, ◌≤◌, ◌<◌, String, true, false, ◌≡◌, ◌∙◌, ◌⊎◌, Option, none, some,
  List, [], ◌∷◌, arith, refl, inl, inr, Option-cases, Bool-cases, Ever-map, All-map, str_eq,
  str_eq_iff, ltb→lt, ==_iff,
}
use mathlib.Core.Path.{subst}
use soha_app.Endpoint.Protocol.{
  ConfigurationDesired, NetworkLease, ResourceLease, Time, WireGuardConfiguration,
  WireGuardFirewallRule,
}
use soha_app.Endpoint.Executor.Tunnel.{TunnelPlan}
use soha_app.Endpoint.Executor.Firewall.{
  LeaseState, add_networks, add_resources, allow_phase, check_rule, check_rules, deny_phase,
  find_lease, lease_phase, lease_states, network, next_phase, resource, valid_firewall_rules,
}
use soha_app.Endpoint.Executor.Plan.{Keys, build_tunnel_plan, valid_plan_scope}
use soha_app.Endpoint.Executor.Authorized.{build_tunnel_plan-Checked}

-- Some lease of the list has the name and the end of the state.
abbrev FromNetwork : List NetworkLease → LeaseState → Type 0
FromNetwork leases state =
    Ever (λ lease. (lease.id ≡ state.id) × (lease.expires_at ≡ state.expiry)) leases

abbrev FromResource : List ResourceLease → LeaseState → Type 0
FromResource leases state =
    Ever (λ lease. (lease.id ≡ state.id) × (lease.expires_at ≡ state.expiry)) leases

abbrev FromLease : ConfigurationDesired → LeaseState → Type 0
FromLease desired state =
    FromNetwork desired.network_leases state ⊎ FromResource desired.resource_leases state

abbrev network_state : NetworkLease → LeaseState
network_state lease = record { id = lease.id; kind = network; expiry = lease.expires_at }

abbrev resource_state : ResourceLease → LeaseState
resource_state lease = record { id = lease.id; kind = resource; expiry = lease.expires_at }

module _ (P : LeaseState → Type 0) where
  add_networks-All :
      (rest : List NetworkLease) (now : Time) (leases states : List LeaseState)
      → All (λ lease. P (network_state lease)) rest
      → All P leases
      → add_networks rest now leases ≡ some states
      → All P states
  unfolding add_networks
  add_networks-All [] now leases states r a h = subst (All P) (ground arith) a
  add_networks-All (lease ∷ rest) now leases states (here, later) a h =
      add_networks-All rest now (network_state lease ∷ leases) states later (here, a) (ground arith)

  add_resources-All :
      (rest : List ResourceLease) (now : Time) (leases states : List LeaseState)
      → All (λ lease. P (resource_state lease)) rest
      → All P leases
      → add_resources rest now leases ≡ some states
      → All P states
  unfolding add_resources
  add_resources-All [] now leases states r a h = subst (All P) (ground arith) a
  add_resources-All (lease ∷ rest) now leases states (here, later) a h =
      add_resources-All rest now (resource_state lease ∷ leases) states later (here, a)
        (ground arith)

  find_lease-All :
      (leases : List LeaseState) (id : String) (lease : LeaseState)
      → All P leases
      → find_lease leases id ≡ some lease
      → P lease × (lease.id ≡ id)
  unfolding find_lease
  find_lease-All [] id lease a h = ground arith
  find_lease-All (l ∷ leases) id lease (here, later) h = elim (Bool-cases (str_eq l.id id)) [
    | inl same ↦
        let found : l ≡ lease = ground (arith, same) in
        (subst P found here, subst (λ k. k.id ≡ id) found ((str_eq_iff l.id id).0 same))
    | inr differs ↦ find_lease-All leases id lease later (ground (arith, differs))
  ]

-- The rule's lease, of either kind, is a lease of the list that ends no earlier than the rule.
abbrev pub GrantedByNetwork : String → Time → NetworkLease → Type 0
GrantedByNetwork id expires lease = (lease.id ≡ id) × (expires ≤ lease.expires_at)

abbrev pub GrantedByResource : String → Time → ResourceLease → Type 0
GrantedByResource id expires lease = (lease.id ≡ id) × (expires ≤ lease.expires_at)

-- A rule denies, or it ends after `now` and no later than a lease of the configuration that it names.
abbrev pub IsGranted : ConfigurationDesired → Time → WireGuardFirewallRule → Type 0
IsGranted desired now rule =
    (rule.effect ≡ "deny")
    ⊎ ((expires : Time) × (rule.expires_at ≡ some expires)
        × (now < expires)
        × (Ever (GrantedByNetwork rule.lease_id expires) desired.network_leases
            ⊎ Ever (GrantedByResource rule.lease_id expires) desired.resource_leases))

networks-FromNetwork :
    (leases : List NetworkLease) → All (λ lease. FromNetwork leases (network_state lease)) leases
networks-FromNetwork [] = tt
networks-FromNetwork (lease ∷ leases) =
    (inl (refl, refl), All-map leases (λ l e. inr e) (networks-FromNetwork leases))

resources-FromResource :
    (leases : List ResourceLease) → All (λ lease. FromResource leases (resource_state lease)) leases
resources-FromResource [] = tt
resources-FromResource (lease ∷ leases) =
    (inl (refl, refl), All-map leases (λ l e. inr e) (resources-FromResource leases))

lease_states-FromLease :
    (desired : ConfigurationDesired) (now : Time) (states : List LeaseState)
    → lease_states desired.network_leases desired.resource_leases now ≡ some states
    → All (FromLease desired) states
unfolding lease_states
lease_states-FromLease desired now states h =
    let P = FromLease desired in
    elim (Option-cases (add_networks desired.network_leases now [])) [
      | inl e ↦ ground (arith, e)
      | inr (leases, e) ↦
          let networks =
            add_networks-All P desired.network_leases now [] leases
              (All-map desired.network_leases (λ l f. inl f)
                (networks-FromNetwork desired.network_leases))
              tt e in
          add_resources-All P desired.resource_leases now leases states
            (All-map desired.resource_leases (λ l f. inr f)
              (resources-FromResource desired.resource_leases))
            networks (ground (arith, e))
    ]

FromLease-granted :
    (desired : ConfigurationDesired) (id : String) (expires : Time) (lease : LeaseState)
    → FromLease desired lease
    → lease.id ≡ id
    → expires ≤ lease.expiry
    → Ever (GrantedByNetwork id expires) desired.network_leases
      ⊎ Ever (GrantedByResource id expires) desired.resource_leases
FromLease-granted desired id expires lease (inl f) same within =
    inl (Ever-map desired.network_leases (λ l at. (at.0 ∙ same, omega (arith, at.1))) f)
FromLease-granted desired id expires lease (inr f) same within =
    inr (Ever-map desired.resource_leases (λ l at. (at.0 ∙ same, omega (arith, at.1))) f)

InLease-IsGranted :
    (desired : ConfigurationDesired) (now : Time) (states : List LeaseState)
    (rule : WireGuardFirewallRule)
    → All (FromLease desired) states
    → InLease states now rule
    → IsGranted desired now rule
InLease-IsGranted desired now states rule a (inl deny) = inl deny
InLease-IsGranted desired now states rule a (inr (lease, expires, found, at_end, alive, within)) =
    let (from, same) = find_lease-All (FromLease desired) states rule.lease_id lease a found in
    inr (
      expires,
      at_end,
      alive,
      FromLease-granted desired rule.lease_id expires lease from same within,
    )

-- The rules of a plan that was built stand in their order, the allows by a resource lease first, then
-- the denials, then the allows by a network lease; and every rule that does not deny ends after `now`,
-- and no later than a lease of the configuration that it names.
pub build_tunnel_plan-Sorted :
    (desired : ConfigurationDesired) (wg : WireGuardConfiguration) (keys : Keys) (now : Time)
    (plan : TunnelPlan)
    → build_tunnel_plan desired wg keys now ≡ some plan
    → (states : List LeaseState) × (lease_states desired.network_leases desired.resource_leases now
        ≡ some states)
      × Sorted states 0 wg.firewall_rules
      × All (IsGranted desired now) wg.firewall_rules
unfolding valid_plan_scope valid_firewall_rules
build_tunnel_plan-Sorted desired wg keys now plan h =
    let checked = build_tunnel_plan-Checked desired wg keys now plan h in
    elim (Option-cases (lease_states desired.network_leases desired.resource_leases now)) [
      | inl e ↦ ground (arith, e, checked.scope)
      | inr (states, e) ↦
          let (sorted, in_lease) =
            check_rules-Sorted plan.addresses plan.routes states now [] 0 wg.firewall_rules
              (omega arith) (ground (arith, e, checked.scope)) in
          let from = lease_states-FromLease desired now states e in
          (
            states,
            e,
            sorted,
            All-map wg.firewall_rules (λ rule. InLease-IsGranted desired now states rule from)
                in_lease,
          )
    ]
