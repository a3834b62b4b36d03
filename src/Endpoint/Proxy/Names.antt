-- ===== src/Endpoint/Proxy/Names.antt =====
-- mihomo.go, mihomo_policy.go and client.go: the names, nodes and addresses that a proxy's
-- configuration may hold.
use soha_app.Base.{
  ℕ, ◌+◌, ◌-◌, String, Bool, false, not, ◌&&◌, ◌||◌, Option, none, some, List, [], ◌∷◌, ltb, leb,
  ◌==◌, if◌then◌else◌, any, codes, blank, str_eq, contains, is_some, map, length,
}
use soha_app.Endpoint.Protocol.{MihomoManualNode}
use soha_app.Endpoint.Executor.Host.{valid_endpoint_host}
use soha_app.Netip.Parse.{parse_ip}
use soha_app.Netip.Print.{codes_eq}

-- The bytes of a code point in UTF-8.
code_bytes : ℕ → ℕ
code_bytes c = if ltb c 0x80 then 1 else if ltb c 0x800 then 2 else if ltb c 0x10000 then 3 else 4

-- len(value), in bytes
unfoldable pub byte_length : List ℕ → ℕ
unfolding code_bytes
byte_length [] = 0
byte_length (c ∷ cs) = code_bytes c + byte_length cs

-- unicode.IsSpace
pub is_space : ℕ → Bool
is_space c =
    leb 9 c && leb c 13
    || c == 32
    || c == 0x85
    || c == 0xa0
    || c == 0x1680
    || leb 0x2000 c && leb c 0x200a
    || c == 0x2028
    || c == 0x2029
    || c == 0x202f
    || c == 0x205f
    || c == 0x3000

ends_in_space : Bool → List ℕ → Bool
unfolding is_space
ends_in_space last [] = last
ends_in_space last (c ∷ cs) = ends_in_space (is_space c) cs

starts_with_space : List ℕ → Bool
unfolding is_space
starts_with_space [] = false
starts_with_space (c ∷ cs) = is_space c

-- strings.TrimSpace(value) == value
unfoldable pub is_trimmed : List ℕ → Bool
unfolding starts_with_space ends_in_space
is_trimmed cs = not (starts_with_space cs) && not (ends_in_space false cs)

-- ",\r\n\t"
splits_name : ℕ → Bool
splits_name c = c == b',' || c == 13 || c == 10 || c == 9

-- validMihomoName
unfoldable pub valid_mihomo_name : String → Bool
unfolding byte_length is_trimmed splits_name
valid_mihomo_name value =
    not (blank value)
    && leb (byte_length (codes value)) 128
    && is_trimmed (codes value)
    && not (any splits_name (codes value))

-- strings.ToUpper on a code point, as far as its result is ASCII.
upper_code : ℕ → ℕ
upper_code c =
    if leb b'a' c && leb c b'z'
    then c - 32
    else if c == 0x131
    then b'I'
    else if c == 0x17f
    then b'S'
    else c

abbrev reserved_names : List String
reserved_names =
    "SOHA-EGRESS-PROXY" ∷ "SOHA-EGRESS-DIRECT" ∷ "DIRECT" ∷ "REJECT" ∷ "REJECT-DROP" ∷ "PASS"
    ∷ "COMPATIBLE" ∷ "GLOBAL" ∷ "SOHA-VPN" ∷ "SOHA-MANUAL" ∷ "SOHA-MANAGED" ∷ []

-- reservedMihomoName
unfoldable pub reserved_mihomo_name : String → Bool
unfolding upper_code codes_eq
reserved_mihomo_name name =
    any (λ reserved. codes_eq (map upper_code (codes name)) (codes reserved)) reserved_names

-- strings.TrimSpace(value) != ""
has_text : List ℕ → Bool
unfolding is_space
has_text cs = any (λ c. not (is_space c)) cs

-- validMihomoManualNode; Go counts the runes of a user and a password.
unfoldable pub valid_manual_node : Option MihomoManualNode → Bool
unfolding has_text
valid_manual_node none = false
valid_manual_node (some node) =
    contains ("http" ∷ "https" ∷ "socks5" ∷ []) node.protocol
    && (is_some (parse_ip node.server) || valid_endpoint_host node.server)
    && leb 1 node.port
    && leb node.port 65535
    && (if blank node.username then blank node.password else not (blank node.password))
    && (blank node.username || has_text (codes node.username))
    && leb (length (codes node.username)) 256
    && leb (length (codes node.password)) 4096

-- What url.Parse makes of a text, as far as the code reads it.
pub record Url : Type 0 where
  pub scheme : String
  pub host : String
  pub hostname : String
  pub has_user : Bool
  pub fragment : String
  pub opaque : String

https_url : Option Url → Bool
https_url none = false
https_url (some url) =
    str_eq url.scheme "https"
    && not (blank url.host)
    && not (blank url.hostname)
    && not url.has_user
    && blank url.fragment
    && blank url.opaque

-- validSubscriptionURL, over the parser of URLs
unfoldable pub valid_subscription_url : (String → Option Url) → String → Bool
unfolding https_url byte_length is_trimmed
valid_subscription_url parse_url raw =
    not (blank raw)
    && leb (byte_length (codes raw)) 4096
    && is_trimmed (codes raw)
    && https_url (parse_url raw)
