-- ===== src/Endpoint/Executor/Split.antt =====
-- executor.go: the routes and the DNS servers of a plan as sets of addresses.
use mathlib.Core.Path.{subst}
use soha_app.Base.{
  ℕ, ◌<◌, String, true, false, ◌≡◌, some, List, [], ◌∷◌, arith, sym, inl, inr, All, any, leb,
  ==_iff, Option-cases, Bool-cases, if◌then◌else◌,
}
use soha_app.Endpoint.Protocol.{ConfigurationDesired, Time, WireGuardConfiguration}
use soha_app.Endpoint.Manager.Leases.{insert, sort, str_leb}
use soha_app.Endpoint.Executor.Tunnel.{TunnelPlan}
use soha_app.Endpoint.Executor.Routes.{
  all_canonical, canonical_prefixes, disjoint, is_canonical, routes_meet,
}
use soha_app.Endpoint.Executor.Plan.{Keys, build_tunnel_plan}
use soha_app.Endpoint.Executor.Authorized.{build_tunnel_plan-Checked}
use soha_app.Netip.Addr.{Prefix, is_masked, is_global_unicast}
use soha_app.Netip.Parse.{parse_prefix, parse_prefix-zone}
use soha_app.Netip.Inclusion.{IsIn, shared-contains_addr}

-- A route of a split tunnel: a prefix with its bits, not the default route, whose own address is global
-- unicast and the first of its addresses. The other addresses need not be global unicast.
abbrev pub IsSplit : String → Type 0
IsSplit route =
    (p : Prefix) × (parse_prefix route ≡ some p)
    × (0 < p.bits)
    × (is_masked p ≡ true)
    × (is_global_unicast p.addr ≡ true)

-- No address is in both prefixes.
abbrev pub Apart : String → String → Type 0
Apart left right =
    (p q : Prefix)
    → parse_prefix left ≡ some p
    → parse_prefix right ≡ some q
    → p.addr.is6 ≡ q.addr.is6
    → (a : ℕ) → IsIn a p
    → IsIn a q
    → ⊥

abbrev pub Pairwise : List String → Type 0
Pairwise [] = Unit
Pairwise (route ∷ routes) = All (Apart route) routes × Pairwise routes

module _ (P : String → Type 0) where
  insert-All : (s : String) (ss : List String) → P s → All P ss → All P (insert s ss)
  unfolding insert
  insert-All s [] here a = (here, tt)
  insert-All s (t ∷ ts) here (at, later) =
      elim (str_leb s t) as (λ b. All P (if b then s ∷ t ∷ ts else t ∷ insert s ts)) [
        | true ↦ (here, (at, later))
        | false ↦ (at, insert-All s ts here later)
      ]

  pub sort-All : (ss : List String) → All P ss → All P (sort ss)
  unfolding sort
  sort-All [] a = tt
  sort-All (s ∷ ss) (here, later) = insert-All s (sort ss) here (sort-All ss later)

is_canonical-IsSplit : (value : String) → is_canonical false value ≡ true → IsSplit value
unfolding is_canonical
is_canonical-IsSplit value h = elim (Option-cases (parse_prefix value)) [
  | inl e ↦ ground (arith, e)
  | inr (p, e) ↦ (p, e, ground (arith, e, ==_iff p.bits 0), ground (arith, e), ground (arith, e))
]

all_canonical-All :
    (seen values : List String) → all_canonical false seen values ≡ true → All IsSplit values
unfolding all_canonical
all_canonical-All seen [] h = tt
all_canonical-All seen (value ∷ values) h = (
  is_canonical-IsSplit value (ground arith),
  all_canonical-All (value ∷ seen) values (ground arith),
)

routes_meet-Apart : (left right : String) → routes_meet left right ≡ false → Apart left right
unfolding routes_meet
routes_meet-Apart left right h p q e f same a in_p in_q = elim (Bool-cases (leb p.bits q.bits)) [
  | inl shorter ↦
      ground (
        arith,
        e,
        f,
        shared-contains_addr p q a shorter same (parse_prefix-zone right q f) in_p in_q,
      )
  | inr longer ↦ ground (
    arith,
    e,
    f,
    shared-contains_addr q p a (ground (arith, longer)) (sym same) (parse_prefix-zone left p e) in_q
        in_p,
  )
]

none-routes_meet :
    (left : String) (routes : List String)
    → any (routes_meet left) routes ≡ false
    → All (Apart left) routes
none-routes_meet left [] h = tt
none-routes_meet left (right ∷ routes) h =
    (routes_meet-Apart left right (ground arith), none-routes_meet left routes (ground arith))

disjoint-Pairwise : (routes : List String) → disjoint routes ≡ true → Pairwise routes
unfolding disjoint
disjoint-Pairwise [] h = tt
disjoint-Pairwise (route ∷ routes) h =
    (none-routes_meet route routes (ground arith), disjoint-Pairwise routes (ground arith))

canonical_prefixes-IsSplit :
    (raw routes : List String)
    → canonical_prefixes false raw ≡ some routes
    → All IsSplit routes × Pairwise routes
unfolding canonical_prefixes
canonical_prefixes-IsSplit raw routes h =
    let sorted : sort raw ≡ routes = ground arith in
    (
      subst (All IsSplit) sorted (sort-All IsSplit raw (all_canonical-All [] raw (ground arith))),
      subst Pairwise sorted (disjoint-Pairwise (sort raw) (ground arith)),
    )

-- The tunnel is split, and its routes are told apart. Every route of a plan that was built is a prefix
-- that is not the default route and whose own address is global unicast and its first one, and no address is in
-- two of the routes. That all addresses of a route are global unicast is not claimed: 128.0.0.0/1 passes.
pub build_tunnel_plan-IsSplit :
    (desired : ConfigurationDesired) (wg : WireGuardConfiguration) (keys : Keys) (now : Time)
    (plan : TunnelPlan)
    → build_tunnel_plan desired wg keys now ≡ some plan
    → All IsSplit plan.routes × Pairwise plan.routes
build_tunnel_plan-IsSplit desired wg keys now plan h =
    canonical_prefixes-IsSplit wg.routes plan.routes
      ((build_tunnel_plan-Checked desired wg keys now plan h).routes)
