-- ===== src/Endpoint/Proxy/Policy.antt =====
-- mihomo_policy.go: the rules of the proxy in their order.
pub mod Verdict
use soha_app.Base.{
  ℕ, String, Bool, true, false, ◌&&◌, ◌||◌, ◌≡◌, Option, none, some, List, [], ◌∷◌, ◌++◌, map, any,
  if◌then◌else◌, codes, arith, refl,
}
use soha_app.Endpoint.Protocol.{MihomoConfiguration, MihomoProtection, listed}
use soha_app.Netip.Addr.{Addr, host_prefix, is_4in6, unmap}
use soha_app.Netip.Parse.{parse_addr}
use soha_app.Netip.Print.{addr_codes, prefix_codes}

pub data RuleType : Type 0 where
  ip_cidr domain domain_suffix match : RuleType

-- mihomoRule, with the codes of its payload.
pub record MihomoRule : Type 0 where
  pub rule_type : RuleType
  pub payload : List ℕ
  pub proxy : String

-- netip.PrefixFrom(a, a.BitLen()).String()
host_codes : Addr → List ℕ
host_codes a =
    if is_4in6 a
    then codes "::ffff:" ++ addr_codes (unmap a) ++ codes "/128"
    else prefix_codes (host_prefix a)

abbrev pub rule : RuleType → String → String → MihomoRule
rule t proxy payload = record { rule_type = t; payload = codes payload; proxy = proxy }

unfoldable pub bypass_rule : String → MihomoRule
unfolding host_codes
bypass_rule host = elim (parse_addr host) [
  | none ↦ rule domain "soha-egress-direct" host
  | some a ↦ record { rule_type = ip_cidr; payload = host_codes a; proxy = "soha-egress-direct" }
]

unfoldable pub route_rules : MihomoConfiguration → List MihomoRule
route_rules c = map (rule ip_cidr "soha-vpn") c.vpn_routes

-- A configuration without a protection would panic; none is rendered.
unfoldable pub protection_rules : Option MihomoProtection → List MihomoRule
protection_rules none = []
protection_rules (some p) =
    map (rule domain_suffix "REJECT") (listed p.hosts)
    ++ map (rule ip_cidr "REJECT") (listed p.cidrs)

unfoldable pub bypass_rules : MihomoConfiguration → List MihomoRule
bypass_rules c =
    map (rule ip_cidr "soha-egress-direct") c.bypass_cidrs ++ map bypass_rule c.bypass_hosts

abbrev pub last_rule : MihomoRule
last_rule = rule match "soha-egress-proxy" ""

-- mihomoRules
unfoldable pub mihomo_rules : MihomoConfiguration → List MihomoRule
mihomo_rules c =
    route_rules c ++ (protection_rules c.protection ++ (bypass_rules c ++ (last_rule ∷ [])))
