-- ===== src/Endpoint/Executor/Host.antt =====
-- executor.go: validEndpointHost; net.JoinHostPort.
use Prim.Native.String
use soha_app.Base.{
  ℕ, zero, suc, ◌/◌, ◌%◌, String, Bool, not, ◌&&◌, ◌||◌, none, some, List, [], ◌∷◌, ltb, leb, ◌==◌,
  if◌then◌else◌, length, any, codes, blank,
}
use soha_app.Endpoint.Identifier.{is_alphanumeric}
use soha_app.Netip.Addr.{Addr, is_multicast, unmap}
use soha_app.Netip.Parse.{parse_ip}

-- strings.ContainsAny(host, "\r\n\t /\\[]")
is_forbidden : ℕ → Bool
is_forbidden c =
    c == 13 || c == 10 || c == 9 || c == b' ' || c == b'/' || c == 92 || c == b'[' || c == b']'

-- The labels between the dots: up to 63 letters, digits and dashes, a dash neither first nor last.
labels_from : ℕ → ℕ → List ℕ → Bool
labels_from size last [] = ltb 0 size && not (last == b'-')
labels_from size last (c ∷ cs) =
    let next = labels_from 0 0 cs in
    let rest = labels_from (suc size) c cs in
    if c == b'.'
    then ltb 0 size && not (last == b'-') && next
    else (is_alphanumeric c || c == b'-') && not (size == 0 && c == b'-') && ltb size 63 && rest

-- net.IP's IsUnspecified and IsMulticast, which read ::ffff:a.b.c.d as a.b.c.d.
usable_address : Addr → Bool
usable_address a = not ((unmap a).value == 0) && not (is_multicast (unmap a))

unfoldable pub valid_endpoint_host : String → Bool
unfolding is_forbidden labels_from usable_address
valid_endpoint_host host =
    not (blank host)
    && leb (length (codes host)) 253
    && not (any is_forbidden (codes host))
    && elim (parse_ip host) [ some a ↦ usable_address a | none ↦ labels_from 0 0 (codes host) ]

digit : ℕ → String
digit n = String.slice "0123456789" n (suc n)

-- fmt.Sprint of a port, on fuel for its digits.
port_text : ℕ → ℕ → String
unfolding digit
port_text zero n = ""
port_text (suc fuel) n =
    let front = port_text fuel (n / 10) in
    if ltb n 10 then digit n else String.◌++◌ front (digit (n % 10))

is_bracketed : ℕ → Bool
is_bracketed c = c == b':' || c == b'%'

-- net.JoinHostPort(host, fmt.Sprint(port)), for a port of up to five digits
unfoldable pub join_host_port : String → ℕ → String
unfolding port_text is_bracketed
join_host_port host port =
    let text = String.◌++◌ ":" (port_text 5 port) in
    if any is_bracketed (codes host)
    then String.◌++◌ "[" (String.◌++◌ host (String.◌++◌ "]" text))
    else String.◌++◌ host text
