-- ===== src/Endpoint/Proxy/Policy/Verdict.antt =====
-- mihomo_policy.go: what the order of the rules makes of a destination.
use soha_app.Base.{
  String, Bool, true, ◌≡◌, Option, none, some, List, [], ◌∷◌, ◌++◌, map, any, if◌then◌else◌, arith,
  refl,
}
use soha_app.Endpoint.Protocol.{MihomoConfiguration, MihomoProtection, listed}
use soha_app.Netip.Parse.{parse_addr}
use soha_app.Endpoint.Proxy.Policy.{
  MihomoRule, RuleType, bypass_rule, bypass_rules, domain, domain_suffix, host_codes, ip_cidr,
  last_rule, mihomo_rules, protection_rules, route_rules, rule,
}

-- How the proxy reads its rules: the first that matches a destination decides.
module _ {D : Type 0} (matches : MihomoRule → D → Bool) where
  abbrev pub verdict : List MihomoRule → D → Option String
  verdict [] d = none
  verdict (r ∷ rs) d = if matches r d then some r.proxy else verdict rs d

  abbrev pub meets : List MihomoRule → D → Bool
  meets rs d = any (λ r. matches r d) rs

  -- All the rules send to one proxy.
  abbrev AllTo : String → List MihomoRule → Type 0
  AllTo proxy [] = Unit
  AllTo proxy (r ∷ rs) = (r.proxy ≡ proxy) × AllTo proxy rs

  AllTo-append :
      (proxy : String) (rs ss : List MihomoRule)
      → AllTo proxy rs
      → AllTo proxy ss
      → AllTo proxy (rs ++ ss)
  AllTo-append proxy [] ss a b = b
  AllTo-append proxy (r ∷ rs) ss (here, later) b = (here, AllTo-append proxy rs ss later b)

  AllTo-map :
      (t : RuleType) (proxy : String) (payloads : List String)
      → AllTo proxy (map (rule t proxy) payloads)
  AllTo-map t proxy [] = tt
  AllTo-map t proxy (p ∷ ps) = (refl, AllTo-map t proxy ps)

  verdict-append :
      (proxy : String) (rs ss : List MihomoRule) (d : D)
      → AllTo proxy rs
      → verdict (rs ++ ss) d ≡ (if meets rs d then some proxy else verdict ss d)
  verdict-append proxy [] ss d a = refl
  verdict-append proxy (r ∷ rs) ss d (here, later) =
      ground (arith, here, verdict-append proxy rs ss d later)

  bypass_rule-proxy : (host : String) → (bypass_rule host).proxy ≡ "soha-egress-direct"
  unfolding bypass_rule
  bypass_rule-proxy host =
      elim (parse_addr host)
        as (λ a.
          (elim a as (λ _. MihomoRule) [
            | none ↦ rule domain "soha-egress-direct" host
            | some a ↦ record {
              rule_type = ip_cidr;
              payload = host_codes a;
              proxy = "soha-egress-direct";
            }
          ]).proxy
          ≡ "soha-egress-direct") [ none ↦ refl | some a ↦ refl ]

  bypass_hosts-AllTo : (hosts : List String) → AllTo "soha-egress-direct" (map bypass_rule hosts)
  bypass_hosts-AllTo [] = tt
  bypass_hosts-AllTo (h ∷ hs) = (bypass_rule-proxy h, bypass_hosts-AllTo hs)

  protection-AllTo : (p : Option MihomoProtection) → AllTo "REJECT" (protection_rules p)
  unfolding protection_rules
  protection-AllTo none = tt
  protection-AllTo (some p) =
      AllTo-append "REJECT" (map (rule domain_suffix "REJECT") (listed p.hosts))
        (map (rule ip_cidr "REJECT") (listed p.cidrs))
        (AllTo-map domain_suffix "REJECT" (listed p.hosts))
        (AllTo-map ip_cidr "REJECT" (listed p.cidrs))

  routes-AllTo : (c : MihomoConfiguration) → AllTo "soha-vpn" (route_rules c)
  unfolding route_rules
  routes-AllTo c = AllTo-map ip_cidr "soha-vpn" c.vpn_routes

  bypass-AllTo : (c : MihomoConfiguration) → AllTo "soha-egress-direct" (bypass_rules c)
  unfolding bypass_rules
  bypass-AllTo c =
      AllTo-append "soha-egress-direct" (map (rule ip_cidr "soha-egress-direct") c.bypass_cidrs)
        (map bypass_rule c.bypass_hosts) (AllTo-map ip_cidr "soha-egress-direct" c.bypass_cidrs)
        (bypass_hosts-AllTo c.bypass_hosts)

  -- The order of the rules is the order of authority, whatever the proxy takes a rule to match, as long
  -- as its last rule matches everything. A destination of an authorized VPN route goes through the
  -- tunnel; any other that is protected is rejected, a bypass or not; any other that is bypassed goes
  -- through the direct guard; and all else through the guarded proxy.
  pub mihomo_rules-verdict :
      (c : MihomoConfiguration) (d : D)
      → matches last_rule d ≡ true
      → verdict (mihomo_rules c) d ≡ (
          if meets (route_rules c) d
          then some "soha-vpn"
          else if meets (protection_rules c.protection) d
          then some "REJECT"
          else if meets (bypass_rules c) d
          then some "soha-egress-direct"
          else some "soha-egress-proxy")
  unfolding mihomo_rules
  mihomo_rules-verdict c d l =
      let rejected = protection_rules c.protection in
      let direct = bypass_rules c in
      ground (
        arith,
        l,
        verdict-append "soha-vpn" (route_rules c) (rejected ++ (direct ++ (last_rule ∷ []))) d
            (routes-AllTo c),
        verdict-append "REJECT" rejected (direct ++ (last_rule ∷ [])) d
            (protection-AllTo c.protection),
        verdict-append "soha-egress-direct" direct (last_rule ∷ []) d (bypass-AllTo c),
      )
