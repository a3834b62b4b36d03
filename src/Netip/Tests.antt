-- ===== src/Netip/Tests.antt =====
-- Addresses and prefixes, read and printed.
use soha_app.Base.{String, Bool, true, false, ◌≡◌, none, some, [], refl, ◌*◌, ◌+◌}
use soha_app.Netip.Addr.{Addr, Prefix, is_4in6, contains_addr, is_global_unicast}
use soha_app.Netip.Parse.{parse_addr, parse_addr_codes, parse_prefix}
use soha_app.Netip.Print.{prints_prefix, prints_addr}

round_trips : String → Bool
round_trips s = elim (parse_prefix s) [ none ↦ false | some p ↦ prints_prefix p s ]

address_round_trips : String → Bool
address_round_trips s = elim (parse_addr s) [ none ↦ false | some a ↦ prints_addr a s ]

prefixes_print :
    (round_trips "10.0.0.0/8" ≡ true)
    × (round_trips "2001:db8::/32" ≡ true)
    × (round_trips "::/0" ≡ true)
    × (round_trips "2001:db8:0:1:0:1::/96" ≡ true)
    × (round_trips "2001:DB8::/32" ≡ false)
    × (round_trips "10.0.0.0/08" ≡ false)
    × (round_trips "10.0.0/8" ≡ false)
unfolding parse_prefix prints_prefix round_trips soha_app.Netip.Parse.ipv4_from
    soha_app.Netip.Addr.bit_len soha_app.Netip.Parse.ipv6_from soha_app.Netip.Parse.next_group
    soha_app.Netip.Parse.hex_group
prefixes_print = (refl, refl, refl, refl, refl, refl, refl)

addresses :
    (parse_addr "192.168.1.20"
      ≡ some (record { is6 = false; value = ((192 * 256 + 168) * 256 + 1) * 256 + 20; zone = [] }))
    × (parse_addr "1:2:3:4:5:6:7:8:9" ≡ none)
    × (parse_addr "1:2:3:4:5:6:7" ≡ none)
    × (parse_addr "::ffff:1.2.3.4"
        ≡ some (record { is6 = true; value = 0xffff01020304; zone = [] }))
    × (parse_addr "1::2::3" ≡ none)
    × (parse_addr "01.2.3.4" ≡ none)
    × (parse_addr "fe80::1%" ≡ none)
    × (address_round_trips "fe80::1%en0" ≡ true)
    × (address_round_trips "0:0:1::" ≡ true)
    × (address_round_trips "::1:0:0:0:0:4" ≡ false)
    × (address_round_trips "::1:0:0:4" ≡ true)
unfolding parse_addr parse_addr_codes prints_addr address_round_trips soha_app.Netip.Parse.ipv4_from
    soha_app.Netip.Parse.ipv6_from soha_app.Netip.Parse.next_group soha_app.Netip.Parse.hex_group
addresses = (refl, refl, refl, refl, refl, refl, refl, refl, refl, refl, refl)
