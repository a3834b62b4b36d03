-- ===== src/Endpoint/Executor/Firewall.antt =====
-- executor.go: validFirewallRules.
use soha_app.Base.{
  ℕ, String, Bool, true, false, not, ◌&&◌, ◌||◌, Option, none, some, List, [], ◌∷◌, ltb, leb, ◌==◌,
  if◌then◌else◌, length, is_empty, is_some, str_eq, blank, contains,
}
use soha_app.Endpoint.Protocol.{NetworkLease, ResourceLease, Time, WireGuardFirewallRule}
use soha_app.Endpoint.Identifier.{matches_identifier}
use soha_app.Endpoint.Executor.Routes.{within_any}
use soha_app.Netip.Addr.{is_4in6, is_masked}
use soha_app.Netip.Parse.{parse_prefix}

pub data LeaseKind : Type 0 where
  network resource : LeaseKind

-- An entry of the map `leases`.
pub record LeaseState : Type 0 where
  pub id : String
  pub kind : LeaseKind
  pub expiry : Time

unfoldable pub find_lease : List LeaseState → String → Option LeaseState
find_lease [] id = none
find_lease (lease ∷ leases) id =
    let rest = find_lease leases id in if str_eq lease.id id then some lease else rest

-- The network leases; a later one replaces an earlier one of its name.
unfoldable pub add_networks : List NetworkLease → Time → List LeaseState → Option (List LeaseState)
add_networks [] now leases = some leases
add_networks (lease ∷ rest) now leases =
    let added =
      add_networks rest now
        (record { id = lease.id; kind = network; expiry = lease.expires_at } ∷ leases) in
    if matches_identifier lease.id && ltb now lease.expires_at then added else none

-- The resource leases; none may have the name of another lease.
unfoldable pub add_resources :
    List ResourceLease → Time → List LeaseState → Option (List LeaseState)
add_resources [] now leases = some leases
add_resources (lease ∷ rest) now leases =
    let added =
      add_resources rest now
        (record { id = lease.id; kind = resource; expiry = lease.expires_at } ∷ leases) in
    if matches_identifier lease.id
      && ltb now lease.expires_at
      && not (is_some (find_lease leases lease.id))
    then added
    else none

-- The names, the source, the effect and the protocol of a rule.
unfoldable pub valid_rule : List String → WireGuardFirewallRule → Bool
valid_rule addresses rule =
    matches_identifier rule.id
    && contains addresses rule.source_cidr
    && (str_eq rule.effect "allow" || str_eq rule.effect "deny")
    && contains ("any" ∷ "tcp" ∷ "udp" ∷ "icmp" ∷ []) rule.protocol

unfoldable pub valid_destination : List String → String → Bool
valid_destination routes destination = elim (parse_prefix destination) [
  | none ↦ false
  | some p ↦ is_masked p && not (p.bits == 0) && not (is_4in6 p.addr) && within_any p routes
]

has_port : List ℕ → ℕ → Bool
has_port [] port = false
has_port (p ∷ ps) port = p == port || has_port ps port

-- Ports from 1 to 65535, none twice.
unfoldable pub distinct_ports : List ℕ → List ℕ → Bool
unfolding has_port
distinct_ports seen [] = true
distinct_ports seen (port ∷ ports) =
    leb 1 port && leb port 65535 && not (has_port seen port) && distinct_ports (port ∷ seen) ports

unfoldable pub valid_ports : WireGuardFirewallRule → Bool
valid_ports rule =
    not ((str_eq rule.protocol "any" || str_eq rule.protocol "icmp") && not (is_empty rule.ports))
    && leb (length rule.ports) 64
    && distinct_ports [] rule.ports

-- A deny keeps the phase at 1, and comes before the broad allows.
unfoldable pub deny_phase : ℕ → WireGuardFirewallRule → Option ℕ
deny_phase phase rule =
    if phase == 2
      || not (blank rule.lease_id)
      || is_some rule.expires_at
      || not (str_eq rule.protocol "any")
      || not (is_empty rule.ports)
    then none
    else some 1

-- An allow by a resource lease comes first, one by a network lease last.
unfoldable pub lease_phase : ℕ → WireGuardFirewallRule → LeaseKind → Option ℕ
lease_phase phase rule resource =
    if not (phase == 0)
      || not (contains ("any" ∷ "tcp" ∷ "udp" ∷ []) rule.protocol)
      || ((str_eq rule.protocol "tcp" || str_eq rule.protocol "udp") && is_empty rule.ports)
    then none
    else some phase
lease_phase phase rule network =
    if not (str_eq rule.protocol "any") || not (is_empty rule.ports) then none else some 2

unfoldable pub allow_phase :
    Time → ℕ → WireGuardFirewallRule → Option LeaseState → Option Time → Option ℕ
allow_phase now phase rule none expires = none
allow_phase now phase rule (some lease) none = none
allow_phase now phase rule (some lease) (some expires) =
    if not (ltb now expires) || ltb lease.expiry expires
    then none
    else lease_phase phase rule lease.kind

unfoldable pub next_phase : List LeaseState → Time → ℕ → WireGuardFirewallRule → Option ℕ
next_phase leases now phase rule =
    if str_eq rule.effect "deny"
    then deny_phase phase rule
    else allow_phase now phase rule (find_lease leases rule.lease_id) rule.expires_at

module _ (addresses routes : List String) (leases : List LeaseState) (now : Time) where
  -- One round of the loop over the rules: the phase behind the rule.
  unfoldable pub check_rule : List String → ℕ → WireGuardFirewallRule → Option ℕ
  check_rule seen phase rule =
      if valid_rule addresses rule
        && not (contains seen rule.id)
        && valid_destination routes rule.destination_cidr
        && valid_ports rule
      then next_phase leases now phase rule
      else none

  unfoldable pub check_rules : List String → ℕ → List WireGuardFirewallRule → Bool
  check_rules seen phase [] = true
  check_rules seen phase (rule ∷ rules) = elim (check_rule seen phase rule) [
    | none ↦ false
    | some phase' ↦ check_rules (rule.id ∷ seen) phase' rules
  ]

unfoldable pub lease_states :
    List NetworkLease → List ResourceLease → Time → Option (List LeaseState)
lease_states network_leases resource_leases now = elim (add_networks network_leases now []) [
  | none ↦ none
  | some leases ↦ add_resources resource_leases now leases
]

-- validFirewallRules
unfoldable pub valid_firewall_rules :
    List WireGuardFirewallRule
    → List String
    → List NetworkLease
    → List ResourceLease
    → List String
    → Time
    → Bool
unfolding lease_states
valid_firewall_rules rules addresses network_leases resource_leases routes now =
    leb (length rules) 4096 && elim (lease_states network_leases resource_leases now) [
      | none ↦ false
      | some leases ↦ check_rules addresses routes leases now [] 0 rules
    ]
