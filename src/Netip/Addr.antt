-- ===== src/Netip/Addr.antt =====
-- netip.Addr and netip.Prefix as numbers.
use soha_app.Base.{
  ℕ, ◌-◌, ◌/◌, ◌%◌, ◌^◌, Bool, false, not, ◌&&◌, List, [], leb, ◌==◌, if◌then◌else◌, is_empty,
}

-- The value of an address as one number; the codes of the zone, none where there is none.
pub record Addr : Type 0 where
  pub is6 : Bool
  pub value : ℕ
  pub zone : List ℕ

-- Its address has no zone, and `bits` is at most the length of the address.
pub record Prefix : Type 0 where
  pub addr : Addr
  pub bits : ℕ

unfoldable pub bit_len : Addr → ℕ
bit_len a = if a.is6 then 128 else 32

-- Is4In6: an address of ::ffff:0:0/96
unfoldable pub is_4in6 : Addr → Bool
is_4in6 a = a.is6 && a.value / 2 ^ 32 == 0xffff

unfoldable pub unmap : Addr → Addr
unfolding is_4in6
unmap a = if is_4in6 a then record { is6 = false; value = a.value % 2 ^ 32; zone = [] } else a

-- The comparison with IPv6Unspecified reads the zone too.
unfoldable pub is_unspecified : Addr → Bool
is_unspecified a = a.value == 0 && is_empty a.zone

unfoldable pub is_loopback : Addr → Bool
is_loopback a = if a.is6 then a.value == 1 else a.value / 2 ^ 24 == 127

unfoldable pub is_multicast : Addr → Bool
is_multicast a = if a.is6 then a.value / 2 ^ 120 == 0xff else a.value / 2 ^ 28 == 0xe

-- fe80::/10 and 169.254.0.0/16
unfoldable pub is_link_local_unicast : Addr → Bool
is_link_local_unicast a = if a.is6 then a.value / 2 ^ 118 == 0x3fa else a.value / 2 ^ 16 == 0xa9fe

-- IsGlobalUnicast of an address that is not Is4In6.
unfoldable pub is_global_unicast : Addr → Bool
unfolding is_unspecified is_loopback is_multicast is_link_local_unicast
is_global_unicast a =
    not (is_unspecified a)
    && not (not a.is6 && a.value == 0xffffffff)
    && not (is_loopback a)
    && not (is_multicast a)
    && not (is_link_local_unicast a)

-- The number of addresses of a prefix.
unfoldable pub span : Prefix → ℕ
unfolding bit_len
span p = 2 ^ (bit_len p.addr - p.bits)

unfoldable pub is_masked : Prefix → Bool
unfolding span
is_masked p = p.addr.value % span p == 0

bool_eq : Bool → Bool → Bool
bool_eq a b = if a then b else not b

-- Prefix.Contains; an address with a zone is in no prefix.
unfoldable pub contains_addr : Prefix → Addr → Bool
unfolding span bool_eq
contains_addr p a =
    bool_eq p.addr.is6 a.is6 && is_empty a.zone && a.value / span p == p.addr.value / span p

unfoldable pub overlaps : Prefix → Prefix → Bool
unfolding contains_addr
overlaps p q = if leb p.bits q.bits then contains_addr p q.addr else contains_addr q p.addr

-- netip.PrefixFrom(a, a.BitLen()), which forgets the zone.
unfoldable pub host_prefix : Addr → Prefix
unfolding bit_len
host_prefix a = record { addr = record a { zone = [] }; bits = bit_len a }
