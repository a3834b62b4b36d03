-- ===== src/Endpoint/Executor/Order/Phases.antt =====
-- executor.go: the phases of the loop over the firewall rules, and what a rule rests on.
use soha_app.Base.{
  All, if◌then◌else◌, ℕ, ◌≤◌, ◌<◌, String, true, false, ◌≡◌, ◌⊎◌, Option, none, some, List, [], ◌∷◌,
  arith, refl, inl, inr, Option-cases, Bool-cases, str_eq, str_eq_iff, ltb→lt, ==_iff,
}
use mathlib.Core.Path.{subst}
use soha_app.Endpoint.Protocol.{Time, WireGuardFirewallRule}
use soha_app.Endpoint.Executor.Firewall.{
  LeaseState, allow_phase, check_rule, check_rules, deny_phase, find_lease, lease_phase, network,
  next_phase, resource,
}

kind_rank : Option LeaseState → ℕ
kind_rank none = 3
kind_rank (some lease) = elim lease.kind [ resource ↦ 0 | network ↦ 2 ]

-- The allows by a resource lease come first, then the denials, then the allows by a network lease.
unfoldable pub rank : List LeaseState → WireGuardFirewallRule → ℕ
unfolding kind_rank
rank leases rule =
    if str_eq rule.effect "deny" then 1 else kind_rank (find_lease leases rule.lease_id)

-- The ranks, from `low` on, do not fall.
abbrev pub Sorted : List LeaseState → ℕ → List WireGuardFirewallRule → Type 0
Sorted leases low [] = Unit
Sorted leases low (rule ∷ rules) = (low ≤ rank leases rule) × Sorted leases (rank leases rule) rules

-- What a rule other than a denial rests on: it ends after `now`, and not after its lease.
abbrev pub InLease : List LeaseState → Time → WireGuardFirewallRule → Type 0
InLease leases now rule =
    (rule.effect ≡ "deny")
    ⊎ ((lease : LeaseState) × (expires : Time) × (find_lease leases rule.lease_id ≡ some lease)
        × (rule.expires_at ≡ some expires)
        × (now < expires)
        × (expires ≤ lease.expiry))

abbrev pub Followed : List LeaseState → Time → ℕ → WireGuardFirewallRule → ℕ → Type 0
Followed leases now phase rule phase' =
    (phase ≤ rank leases rule)
    × (phase' ≡ rank leases rule)
    × (phase' ≤ 2)
    × InLease leases now rule

lease_phase-rank :
    (leases : List LeaseState) (phase phase' : ℕ) (rule : WireGuardFirewallRule)
    (lease : LeaseState)
    → phase ≤ 2
    → lease_phase phase rule lease.kind ≡ some phase'
    → (phase ≤ kind_rank (some lease)) × (phase' ≡ kind_rank (some lease)) × (phase' ≤ 2)
unfolding lease_phase kind_rank
lease_phase-rank leases phase phase' rule lease low h = ground (arith, ==_iff phase 0)

allow_phase-Followed :
    (leases : List LeaseState) (now : Time) (phase phase' : ℕ) (rule : WireGuardFirewallRule)
    (found : Option LeaseState) (expires : Option Time)
    → find_lease leases rule.lease_id ≡ found
    → rule.expires_at ≡ expires
    → str_eq rule.effect "deny" ≡ false
    → phase ≤ 2
    → allow_phase now phase rule found expires ≡ some phase'
    → Followed leases now phase rule phase'
unfolding allow_phase rank
allow_phase-Followed leases now phase phase' rule none expires f e d low h = ground arith
allow_phase-Followed leases now phase phase' rule (some lease) none f e d low h = ground arith
allow_phase-Followed leases now phase phase' rule (some lease) (some expires) f e d low h =
    let (below, same, bound) = lease_phase-rank leases phase phase' rule lease low (ground arith) in
    (
      ground (arith, d, f, below),
      ground (arith, d, f, same),
      bound,
      inr (lease, expires, f, e, ground (arith, ltb→lt now expires), ground arith),
    )

next_phase-Followed :
    (leases : List LeaseState) (now : Time) (phase phase' : ℕ) (rule : WireGuardFirewallRule)
    → phase ≤ 2
    → next_phase leases now phase rule ≡ some phase'
    → Followed leases now phase rule phase'
unfolding next_phase deny_phase rank
next_phase-Followed leases now phase phase' rule low h =
    elim (Bool-cases (str_eq rule.effect "deny")) [
      | inl deny ↦ (
        ground (arith, deny, ==_iff phase 2),
        ground (arith, deny),
        ground (arith, deny),
        inl (ground (arith, deny, str_eq_iff rule.effect "deny")),
      )
      | inr allow ↦
          allow_phase-Followed leases now phase phase' rule (find_lease leases rule.lease_id)
            rule.expires_at refl refl allow low (ground (arith, allow))
    ]

pub check_rules-Sorted :
    (addresses routes : List String) (leases : List LeaseState) (now : Time) (seen : List String)
    (phase : ℕ) (rules : List WireGuardFirewallRule)
    → phase ≤ 2
    → check_rules addresses routes leases now seen phase rules ≡ true
    → Sorted leases phase rules × All (InLease leases now) rules
unfolding check_rules check_rule
check_rules-Sorted addresses routes leases now seen phase [] low h = (tt, tt)
check_rules-Sorted addresses routes leases now seen phase (rule ∷ rules) low h =
    elim (Option-cases (check_rule addresses routes leases now seen phase rule)) [
      | inl e ↦ ground (arith, e)
      | inr (phase', e) ↦
          let (below, same, bound, in_lease) =
            next_phase-Followed leases now phase phase' rule low (ground (arith, e)) in
          let (sorted, granted) =
            check_rules-Sorted addresses routes leases now (rule.id ∷ seen) phase' rules bound
              (ground (arith, e)) in
          ((below, subst (λ n. Sorted leases n rules) same sorted), (in_lease, granted))
    ]
