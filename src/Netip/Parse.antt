-- ===== src/Netip/Parse.antt =====
-- netip.ParseAddr and netip.ParsePrefix, and net.ParseIP, on the codes of a text.
use soha_app.Base.{
  ℕ, zero, suc, ◌+◌, ◌-◌, ◌*◌, ◌/◌, ◌%◌, ◌^◌, String, Bool, true, false, not, ◌&&◌, ◌||◌, ◌≡◌,
  arith, Option, none, some, List, [], ◌∷◌, ltb, leb, ◌==◌, if◌then◌else◌, length, is_empty, codes,
}
use soha_app.Netip.Addr.{Addr, Prefix, bit_len}

unfoldable pub is_digit : ℕ → Bool
is_digit c = leb b'0' c && leb c b'9'

-- The value of a hexadecimal digit.
unfoldable pub hex_value : ℕ → Option ℕ
unfolding is_digit
hex_value c =
    if is_digit c
    then some (c - b'0')
    else if leb b'a' c && leb c b'f'
    then some (c - b'a' + 10)
    else if leb b'A' c && leb c b'F'
    then some (c - b'A' + 10)
    else none

-- A digit more of an octet: no leading zero, at most 255.
octet_digit : Option ℕ → ℕ → Option ℕ
octet_digit none d = some d
octet_digit (some v) d = if v == 0 || ltb 255 (v * 10 + d) then none else some (v * 10 + d)

-- parseIPv4: the octets closed so far and their value, and the octet being read.
unfoldable pub ipv4_from : ℕ → ℕ → Option ℕ → List ℕ → Option ℕ
unfolding is_digit octet_digit
ipv4_from done value none [] = none
ipv4_from done value (some v) [] = if done == 3 then some (value * 256 + v) else none
ipv4_from done value octet (c ∷ cs) =
    if is_digit c
    then elim (octet_digit octet (c - b'0')) [
      | none ↦ none
      | some v ↦ ipv4_from done value (some v) cs
    ]
    else elim octet [
      | none ↦ none
      | some v ↦
          if c == b'.' && ltb done 3 then ipv4_from (suc done) (value * 256 + v) none cs else none
    ]

-- A group of hexadecimal digits: its value, its length, and what follows.
unfoldable pub hex_group : ℕ → ℕ → List ℕ → ℕ × ℕ × List ℕ
unfolding hex_value
hex_group value digits [] = (value, digits, [])
hex_group value digits (c ∷ cs) = elim (hex_value c) [
  | none ↦ (value, digits, c ∷ cs)
  | some d ↦ hex_group (value * 16 + d) (suc digits) cs
]

-- The groups of an IPv6 address: those in front of the `::`, if it was met, and those since, the
-- newest first, each 16 bits.
pub record Groups : Type 0 where
  pub before : Option (List ℕ)
  pub since : List ℕ

count : Groups → ℕ
count g = elim g.before [ none ↦ length g.since | some l ↦ length l + length g.since ]

-- The number that groups of 16 bits make, the newest first.
groups_value : List ℕ → ℕ
groups_value [] = 0
groups_value (g ∷ gs) = groups_value gs * 65536 + g

-- What the groups make: eight of them, or fewer around a `::`.
close_groups : Groups → Option ℕ
unfolding count groups_value
close_groups g = elim g.before [
  | none ↦ if count g == 8 then some (groups_value g.since) else none
  | some front ↦
      if ltb (count g) 8
      then some (groups_value front * 65536 ^ (8 - length front) + groups_value g.since)
      else none
]

meet : Groups → Option Groups
meet g = elim g.before [
  | none ↦ some (record { before = some g.since; since = [] })
  | some front ↦ none
]

-- A last group that is an IPv4 address stands for two groups.
ipv4_tail : Groups → List ℕ → Option ℕ
unfolding count close_groups
ipv4_tail g cs =
    let fits : Bool = elim g.before [ none ↦ count g == 6 | some front ↦ leb (count g) 6 ] in
    elim (ipv4_from 0 0 none cs) [
      | none ↦ none
      | some v ↦
          if fits then close_groups (record g { since = v % 65536 ∷ v / 65536 ∷ g.since }) else none
    ]

-- What reading one group leads to.
pub data Next : Type 0 where
  stop : Option ℕ → Next
  more : Groups → List ℕ → Next

-- Behind a group and its colon: a second colon, or the next group.
next_colon : Groups → List ℕ → Next
unfolding meet close_groups
next_colon g [] = Next.stop none
next_colon g (c ∷ cs) =
    if c == b':'
    then elim (meet g) [
      | none ↦ Next.stop none
      | some g' ↦ if is_empty cs then Next.stop (close_groups g') else Next.more g' cs
    ]
    else Next.more g (c ∷ cs)

unfoldable pub next_group : Groups → List ℕ → Next
unfolding ipv4_tail next_colon close_groups
next_group g cs =
    let (value, digits, rest) = hex_group 0 0 cs in
    let g' = record g { since = value ∷ g.since } in
    if digits == 0 || ltb 4 digits then Next.stop none else elim rest [
      | [] ↦ Next.stop (close_groups g')
      | c ∷ cs' ↦
          if c == b'.'
          then Next.stop (ipv4_tail g cs)
          else if c == b':'
          then next_colon g' cs'
          else Next.stop none
    ]

-- parseIPv6 behind a leading `::`, on fuel for the eight groups: a ninth is an error.
unfoldable pub ipv6_from : ℕ → Groups → List ℕ → Option ℕ
ipv6_from zero g cs = none
ipv6_from (suc n) g cs = elim (next_group g cs) [
  | stop value ↦ value
  | more g' cs' ↦ ipv6_from n g' cs'
]

ipv6 : List ℕ → Option ℕ
ipv6 (a ∷ b ∷ cs) =
    if a == b':' && b == b':'
    then if is_empty cs then some 0 else ipv6_from 8 (record { before = some []; since = [] }) cs
    else ipv6_from 8 (record { before = none; since = [] }) (a ∷ b ∷ cs)
ipv6 cs = ipv6_from 8 (record { before = none; since = [] }) cs

-- The codes in front of the first `%`, and those behind it.
split_zone : List ℕ → List ℕ × Option (List ℕ)
split_zone [] = ([], none)
split_zone (c ∷ cs) =
    let (front, zone) = split_zone cs in if c == b'%' then ([], some cs) else (c ∷ front, zone)

zoned_ipv6 : List ℕ → Option Addr
unfolding ipv6 split_zone
zoned_ipv6 cs =
    let (front, zone) = split_zone cs in
    elim (ipv6 front) [
      | none ↦ none
      | some value ↦ elim zone [
        | none ↦ some (record { is6 = true; value = value; zone = [] })
        | some z ↦
            if is_empty z then none else some (record { is6 = true; value = value; zone = z })
      ]
    ]

-- The first of `.`, `:` and `%` tells the family.
parse_marked : List ℕ → List ℕ → Option Addr
unfolding zoned_ipv6
parse_marked cs [] = none
parse_marked cs (d ∷ ds) =
    let later = parse_marked cs ds in
    if d == b'.'
    then elim (ipv4_from 0 0 none cs) [
      | none ↦ none
      | some value ↦ some (record { is6 = false; value = value; zone = [] })
    ]
    else if d == b':'
    then zoned_ipv6 cs
    else if d == b'%'
    then none
    else later

unfoldable pub parse_addr_codes : List ℕ → Option Addr
unfolding parse_marked
parse_addr_codes cs = parse_marked cs cs

-- netip.ParseAddr
unfoldable pub parse_addr : String → Option Addr
parse_addr s = parse_addr_codes (codes s)

-- net.ParseIP, less the zone that it refuses.
unfoldable pub parse_ip : String → Option Addr
parse_ip s = elim (parse_addr s) [ none ↦ none | some a ↦ if is_empty a.zone then some a else none ]

-- The codes in front of the last `/`, and those behind it.
split_slash : List ℕ → Option (List ℕ × List ℕ)
split_slash [] = none
split_slash (c ∷ cs) = elim (split_slash cs) [
  | some (front, back) ↦ some (c ∷ front, back)
  | none ↦ if c == b'/' then some ([], cs) else none
]

-- A decimal number without sign, and with a leading zero only if it is 0.
decimal_from : ℕ → List ℕ → Option ℕ
decimal_from value [] = some value
decimal_from value (c ∷ cs) =
    let rest = decimal_from (value * 10 + (c - b'0')) cs in if is_digit c then rest else none

parse_bits : List ℕ → Option ℕ
unfolding decimal_from
parse_bits [] = none
parse_bits (c ∷ cs) =
    if not (is_empty cs) && not (leb b'1' c && leb c b'9') then none else decimal_from 0 (c ∷ cs)

unfoldable pub prefix_of : Option Addr → Option ℕ → Option Prefix
prefix_of (some a) (some bits) =
    if is_empty a.zone && leb bits (bit_len a)
    then some (record { addr = a; bits = bits })
    else none
prefix_of _ _ = none

prefix_of_parts : Option (List ℕ × List ℕ) → Option Prefix
unfolding parse_addr_codes parse_bits prefix_of
prefix_of_parts none = none
prefix_of_parts (some (front, back)) = prefix_of (parse_addr_codes front) (parse_bits back)

-- netip.ParsePrefix
unfoldable pub parse_prefix : String → Option Prefix
unfolding split_slash prefix_of_parts
parse_prefix s = prefix_of_parts (split_slash (codes s))

prefix_of-zone :
    (a : Option Addr) (bits : Option ℕ) (p : Prefix)
    → prefix_of a bits ≡ some p
    → is_empty p.addr.zone ≡ true
unfolding prefix_of
prefix_of-zone none bits p h = ground arith
prefix_of-zone (some a) none p h = ground arith
prefix_of-zone (some a) (some bits) p h = ground arith

prefix_of_parts-zone :
    (parts : Option (List ℕ × List ℕ)) (p : Prefix)
    → prefix_of_parts parts ≡ some p
    → is_empty p.addr.zone ≡ true
unfolding prefix_of_parts
prefix_of_parts-zone none p h = ground arith
prefix_of_parts-zone (some (front, back)) p h =
    prefix_of-zone (parse_addr_codes front) (parse_bits back) p h

-- A prefix that was read has no zone.
pub parse_prefix-zone :
    (s : String) (p : Prefix) → parse_prefix s ≡ some p → is_empty p.addr.zone ≡ true
unfolding parse_prefix
parse_prefix-zone s p h = prefix_of_parts-zone (split_slash (codes s)) p h
