-- ===== src/Endpoint/Manager/Leases.antt =====
-- manager.go: the checks on leases, scopes and times.
pub mod Ids
use Prim.Native.Nat.{Ordering, min}
use Prim.Native.String.{compare}
use soha_app.Base.{
  ℕ, ◌-◌, ◌/◌, String, Bool, true, false, not, ◌&&◌, ◌||◌, Option, none, some, List, [], ◌∷◌, ltb,
  leb, ◌==◌, if◌then◌else◌, length, is_empty, str_eq, blank, contains,
}
use soha_app.Endpoint.Identifier.{matches_identifier, all_identifiers, raw_url_decoded_length}
use soha_app.Endpoint.Protocol.{Time, NetworkLease, ResourceLease}

-- `s <= t` on strings, the order of slices.Sort
unfoldable pub str_leb : String → String → Bool
str_leb s t = elim (compare s t) [ Ordering.gt ↦ false | _ ↦ true ]

unfoldable pub insert : String → List String → List String
insert s [] = s ∷ []
insert s (t ∷ ts) = if str_leb s t then s ∷ t ∷ ts else t ∷ insert s ts

-- slices.Sort
unfoldable pub sort : List String → List String
unfolding insert
sort [] = []
sort (s ∷ ss) = insert s (sort ss)

-- slices.Compact, for a list whose last kept element is `s`
compact_from : String → List String → List String
compact_from s [] = []
compact_from s (t ∷ ts) = if str_eq t s then compact_from s ts else t ∷ compact_from t ts

unfoldable pub compact : List String → List String
unfolding compact_from
compact [] = []
compact (s ∷ ss) = s ∷ compact_from s ss

valid_ids : List String → List String
valid_ids [] = []
valid_ids (s ∷ ss) = if matches_identifier s then s ∷ valid_ids ss else valid_ids ss

unfoldable pub all_ids : List NetworkLease → List ResourceLease → List String
all_ids [] [] = []
all_ids [] (lease ∷ leases) = lease.id ∷ all_ids [] leases
all_ids (lease ∷ leases) resources = lease.id ∷ all_ids leases resources

-- leaseIDs
unfoldable pub lease_ids : List NetworkLease → List ResourceLease → List String
unfolding sort compact valid_ids all_ids
lease_ids networks resources = compact (sort (valid_ids (all_ids networks resources)))

abbrev pub decodes_32 : Option ℕ → Bool
decodes_32 none = false
decodes_32 (some n) = n == 32

unfoldable pub valid_connect_scope : String → List String → String → String → Bool
valid_connect_scope mode resource_ids grant_id grant_token =
    if ltb 256 (length resource_ids) || not (all_identifiers resource_ids)
    then false
    else if str_eq mode "external_vpn"
    then is_empty resource_ids && blank grant_id && blank grant_token
    else if str_eq mode "internal_ztna"
        || str_eq mode "external_vpn_ztna"
        || str_eq mode "external_direct_ztna"
    then ltb 0 (length resource_ids)
      && matches_identifier grant_id
      && decodes_32 (raw_url_decoded_length grant_token)
    else false

unfoldable pub valid_lease_shape : String → ℕ → ℕ → Bool
valid_lease_shape mode networks resources =
    if ltb 256 networks || ltb 512 resources
    then false
    else if str_eq mode "external_vpn"
    then ltb 0 networks && resources == 0
    else if str_eq mode "external_vpn_ztna"
    then ltb 0 networks && ltb 0 resources
    else if str_eq mode "internal_ztna" || str_eq mode "external_direct_ztna"
    then networks == 0 && ltb 0 resources
    else false

unfoldable pub intersects : List String → List String → Bool
intersects [] right = false
intersects (item ∷ items) right = contains right item || intersects items right

-- renewalTime; `validUntil.Sub(now)` saturates after 292 years, which no lease reaches.
unfoldable pub renewal_time : Time → Time → ℕ → Time
renewal_time now valid_until before =
    if leb valid_until now then now else valid_until - min before ((valid_until - now) / 3)

unfoldable pub fallback : String → String → String
fallback value fallback_value = if blank value then fallback_value else value
