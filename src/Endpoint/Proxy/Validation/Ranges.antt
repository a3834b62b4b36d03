-- ===== src/Endpoint/Proxy/Validation/Ranges.antt =====
-- mihomo.go: the ranges of a configuration that passed, as sets of addresses.
use soha_app.Base.{
  ℕ, String, Bool, true, false, ◌≡◌, Option, none, some, List, [], ◌∷◌, arith, refl, sym, inl, inr,
  All, Ever, all, all→All, any→Ever, Option-cases, Bool-cases, leb, is_empty,
}
use soha_app.Endpoint.Protocol.{
  MihomoConfiguration, MihomoProtection, WireGuardConfiguration, listed,
}
use soha_app.Endpoint.Executor.Routes.{covers_prefix}
use soha_app.Endpoint.Proxy.Names.{Url}
use soha_app.Endpoint.Proxy.Validation.{
  all_apart, apart, bypass_covers, canonical_mihomo_prefix, fake_ip_range, meets_fake_ip,
  valid_beside, valid_mihomo_configuration, valid_protection, valid_route, valid_with,
}
use soha_app.Netip.Addr.{Prefix, overlaps}
use soha_app.Netip.Parse.{parse_prefix, parse_prefix-zone}
use soha_app.Netip.Inclusion.{Includes, IsIn, contains_addr-Includes, shared-contains_addr}

-- No address of the range is one of the prefix that the text names.
abbrev pub ApartFrom : Prefix → String → Type 0
ApartFrom range raw =
    (p : Prefix)
    → parse_prefix raw ≡ some p
    → range.addr.is6 ≡ p.addr.is6
    → (a : ℕ) → IsIn a range
    → IsIn a p
    → ⊥

-- Every address of the route is one of the bypass.
abbrev pub Covers : String → String → Type 0
Covers route bypass =
    (p q : Prefix) × (parse_prefix route ≡ some p) × (parse_prefix bypass ≡ some q) × Includes q p

canonical_mihomo_prefix-parse :
    (raw : String) (p : Prefix) → canonical_mihomo_prefix raw ≡ some p → parse_prefix raw ≡ some p
unfolding canonical_mihomo_prefix
canonical_mihomo_prefix-parse raw p h = elim (Option-cases (parse_prefix raw)) [
  | inl e ↦ ground (arith, e)
  | inr (q, e) ↦ ground (arith, e)
]

overlaps-shared :
    (p q : Prefix) (a : ℕ)
    → overlaps p q ≡ false
    → is_empty p.addr.zone ≡ true
    → is_empty q.addr.zone ≡ true
    → p.addr.is6 ≡ q.addr.is6
    → IsIn a p
    → IsIn a q
    → ⊥
unfolding overlaps
overlaps-shared p q a h zp zq f ip iq = elim (Bool-cases (leb p.bits q.bits)) [
  | inl shorter ↦ ground (arith, shorter, shared-contains_addr p q a shorter f zq ip iq)
  | inr longer ↦
      let shorter : leb q.bits p.bits ≡ true = ground arith in
      ground (arith, longer, shared-contains_addr q p a shorter (sym f) zp iq ip)
]

module _ (fake : Prefix) (no_zone : is_empty fake.addr.zone ≡ true) where
  meets-ApartFrom :
      (raw : String) (p : Prefix)
      → canonical_mihomo_prefix raw ≡ some p
      → meets_fake_ip (some fake) p ≡ false
      → ApartFrom fake raw
  unfolding meets_fake_ip
  meets-ApartFrom raw p c m q e f a i j =
      let parsed = canonical_mihomo_prefix-parse raw p c in
      let same : p ≡ q = ground (arith, parsed, e) in
      overlaps-shared fake p a m no_zone (parse_prefix-zone raw p parsed) (rw same f) i (rw same j)

  apart-ApartFrom :
      (seen : List String) (raw : String) → apart (some fake) seen raw ≡ true → ApartFrom fake raw
  unfolding apart
  apart-ApartFrom seen raw h = elim (Option-cases (canonical_mihomo_prefix raw)) [
    | inl e ↦ absurd (ground (arith, e))
    | inr (p, e) ↦ meets-ApartFrom raw p e (ground (arith, e))
  ]

  all_apart-All :
      (seen raws : List String) → all_apart (some fake) seen raws ≡ true → All (ApartFrom fake) raws
  unfolding all_apart
  all_apart-All seen [] h = tt
  all_apart-All seen (raw ∷ raws) h =
      (apart-ApartFrom seen raw (ground arith), all_apart-All (raw ∷ seen) raws (ground arith))

  valid_route-ApartFrom :
      (bypasses : List String) (raw : String)
      → valid_route (some fake) bypasses raw ≡ true
      → ApartFrom fake raw
  unfolding valid_route
  valid_route-ApartFrom bypasses raw h = elim (Option-cases (canonical_mihomo_prefix raw)) [
    | inl e ↦ absurd (ground (arith, e))
    | inr (p, e) ↦ meets-ApartFrom raw p e (ground (arith, e))
  ]

covers_prefix-Covers :
    (route bypass : String) (p : Prefix)
    → parse_prefix route ≡ some p
    → covers_prefix (canonical_mihomo_prefix bypass) p ≡ true
    → Covers route bypass
unfolding covers_prefix
covers_prefix-Covers route bypass p e h = elim (Option-cases (canonical_mihomo_prefix bypass)) [
  | inl none_such ↦ absurd (ground (arith, none_such))
  | inr (q, c) ↦ (
    p,
    q,
    e,
    canonical_mihomo_prefix-parse bypass q c,
    contains_addr-Includes q p (ground (arith, c)) (ground (arith, c)),
  )
]

valid_route-Covers :
    (fake_ip : Option Prefix) (bypasses : List String) (route : String)
    → valid_route fake_ip bypasses route ≡ true
    → Ever (Covers route) bypasses
unfolding valid_route bypass_covers
valid_route-Covers fake_ip bypasses route h = elim (Option-cases (canonical_mihomo_prefix route)) [
  | inl e ↦ absurd (ground (arith, e))
  | inr (p, e) ↦
      any→Ever (λ raw. covers_prefix (canonical_mihomo_prefix raw) p) bypasses
        (λ bypass. covers_prefix-Covers route bypass p (canonical_mihomo_prefix-parse route p e))
        (ground (arith, e))
]

abbrev pub protected_cidrs : Option MihomoProtection → List String
protected_cidrs none = []
protected_cidrs (some p) = listed p.cidrs

fake_ip_range-zone :
    (c : MihomoConfiguration) (fake : Prefix)
    → fake_ip_range c ≡ some (some fake)
    → is_empty fake.addr.zone ≡ true
unfolding fake_ip_range
fake_ip_range-zone c fake h = elim (Option-cases (canonical_mihomo_prefix c.fake_ip_range)) [
  | inl e ↦ absurd (ground (arith, e))
  | inr (p, e) ↦
      let same : p ≡ fake = ground (arith, e) in
      rw (← same)
        (parse_prefix-zone c.fake_ip_range p (canonical_mihomo_prefix-parse c.fake_ip_range p e))
]

-- What holds of the ranges of a configuration that passed beside a tunnel.
abbrev pub RangesHold : MihomoConfiguration → List String → Type 0
RangesHold c routes =
    All (λ route. Ever (Covers route) c.bypass_cidrs) routes
    × ((fake : Prefix)
        → fake_ip_range c ≡ some (some fake)
        → All (ApartFrom fake) (protected_cidrs c.protection)
          × All (ApartFrom fake) c.vpn_routes
          × All (ApartFrom fake) c.bypass_cidrs
          × All (ApartFrom fake) routes)

valid_protection-apart :
    (c : MihomoConfiguration) (p : Option MihomoProtection) (fake_ip : Option Prefix)
    → valid_protection c p fake_ip ≡ true
    → (all_apart fake_ip [] (protected_cidrs p) ≡ true) × (all_apart fake_ip [] c.vpn_routes ≡ true)
unfolding valid_protection
valid_protection-apart c none fake_ip h = ground arith
valid_protection-apart c (some p) fake_ip h = ground arith

valid_with-RangesHold :
    (c : MihomoConfiguration) (wg : WireGuardConfiguration) (range : Option (Option Prefix))
    → fake_ip_range c ≡ range
    → valid_with c (some wg) range ≡ true
    → RangesHold c wg.routes
unfolding valid_with valid_beside
valid_with-RangesHold c wg none e h = absurd (ground arith)
valid_with-RangesHold c wg (some fake_ip) e h =
    let routes : all (valid_route fake_ip c.bypass_cidrs) wg.routes ≡ true = ground arith in
    let bypasses : all_apart fake_ip [] c.bypass_cidrs ≡ true = ground arith in
    let (cidrs, vpn) = valid_protection-apart c c.protection fake_ip (ground arith) in
    (
      all→All (valid_route fake_ip c.bypass_cidrs) wg.routes
          (valid_route-Covers fake_ip c.bypass_cidrs) routes,
      λ fake f.
          let same : fake_ip ≡ some fake = ground (arith, e, f) in
          let zone = fake_ip_range-zone c fake f in
          (
            all_apart-All fake zone [] (protected_cidrs c.protection) (rw (← same) cidrs),
            all_apart-All fake zone [] c.vpn_routes (rw (← same) vpn),
            all_apart-All fake zone [] c.bypass_cidrs (rw (← same) bypasses),
            all→All (valid_route (some fake) c.bypass_cidrs) wg.routes
                (valid_route-ApartFrom fake zone c.bypass_cidrs) (rw (← same) routes),
          ),
    )

-- What an accepted proxy configuration promises of its ranges, beside a tunnel. Every address of a
-- route of the tunnel is one of a bypassed CIDR; and where a fake-IP range is set, none of its
-- addresses is one of a protected CIDR, of a VPN route, of a bypassed CIDR or of a route of the tunnel.
pub valid_mihomo_configuration-RangesHold :
    (parse_url : String → Option Url) (c : MihomoConfiguration) (wg : WireGuardConfiguration)
    (require_source : Bool)
    → valid_mihomo_configuration parse_url c (some wg) require_source ≡ true
    → RangesHold c wg.routes
unfolding valid_mihomo_configuration
valid_mihomo_configuration-RangesHold parse_url c wg require_source h =
    valid_with-RangesHold c wg (fake_ip_range c) refl (ground arith)
