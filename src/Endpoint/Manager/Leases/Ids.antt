-- ===== src/Endpoint/Manager/Leases/Ids.antt =====
-- manager.go: leaseIDs, as the set of the identifiers it returns.
use Prim.Native.String.compare
use soha_app.Base.{
  Bool, false, not, sym, String, true, ◌≡◌, ◌&&◌, List, [], ◌∷◌, arith, str_eq, contains,
  str_eq_iff, Bool-cases, inl, inr, refl,
}
use soha_app.Endpoint.Identifier.{matches_identifier}
use soha_app.Endpoint.Protocol.{NetworkLease, ResourceLease}
use soha_app.Endpoint.Manager.Leases.{
  all_ids, compact, compact_from, insert, lease_ids, sort, str_leb, valid_ids,
}

str_eq-sym : (s t : String) → str_eq s t ≡ true → str_eq t s ≡ true
str_eq-sym s t h = let eq : s ≡ t = (str_eq_iff s t).0 h in (str_eq_iff t s).1 (sym eq)

contains-insert :
    (s id : String) (ts : List String) → contains (insert s ts) id ≡ contains (s ∷ ts) id
unfolding insert
contains-insert s id [] = refl
contains-insert s id (t ∷ ts) = ground (arith, contains-insert s id ts)

contains-sort : (id : String) (ss : List String) → contains (sort ss) id ≡ contains ss id
unfolding sort
contains-sort id [] = refl
contains-sort id (s ∷ ss) = ground (arith, contains-insert s id (sort ss), contains-sort id ss)

contains-compact_from :
    (s id : String) (ts : List String) → contains (s ∷ compact_from s ts) id ≡ contains (s ∷ ts) id
unfolding compact_from
contains-compact_from s id [] = refl
contains-compact_from s id (t ∷ ts) = elim (Bool-cases (str_eq t s)) [
  | inl same ↦
      let eq : t ≡ s = (str_eq_iff t s).0 same in
      ground (arith, same, eq, contains-compact_from s id ts)
  | inr other ↦ ground (arith, other, contains-compact_from t id ts)
]

contains-compact : (id : String) (ss : List String) → contains (compact ss) id ≡ contains ss id
unfolding compact
contains-compact id [] = refl
contains-compact id (s ∷ ss) = contains-compact_from s id ss

contains-valid_ids :
    (id : String) (ss : List String)
    → contains (valid_ids ss) id ≡ (contains ss id && matches_identifier id)
unfolding valid_ids
contains-valid_ids id [] = refl
contains-valid_ids id (s ∷ ss) = elim (Bool-cases (str_eq s id)) [
  | inl same ↦
      let eq : s ≡ id = (str_eq_iff s id).0 same in
      let self : str_eq id id ≡ true = (str_eq_iff id id).1 refl in
      rw eq (ground (arith, self, contains-valid_ids id ss))
  | inr other ↦ ground (arith, other, contains-valid_ids id ss)
]

-- The first text is below the second: not above it, and another.
abbrev pub is_below_text : String → String → Bool
is_below_text s t = str_leb s t && not (str_eq s t)

-- Each text is not above the next.
is_sorted_from : String → List String → Bool
is_sorted_from s [] = true
is_sorted_from s (t ∷ ts) = str_leb s t && is_sorted_from t ts

is_sorted : List String → Bool
unfolding is_sorted_from
is_sorted [] = true
is_sorted (s ∷ ss) = is_sorted_from s ss

-- Each text is below the next.
is_increasing_from : String → List String → Bool
is_increasing_from s [] = true
is_increasing_from s (t ∷ ts) = is_below_text s t && is_increasing_from t ts

unfoldable pub is_increasing : List String → Bool
unfolding is_increasing_from
is_increasing [] = true
is_increasing (s ∷ ss) = is_increasing_from s ss

str_leb-total : (s t : String) → str_leb s t ≡ false → str_leb t s ≡ true
unfolding str_leb
str_leb-total String.[] String.[] h = ground (arith, compare.nil-nil)
str_leb-total String.[] (String.◌∷◌ d t) h = ground (arith, compare.nil-cons d t)
str_leb-total (String.◌∷◌ c s) String.[] h = ground (arith, compare.nil-cons c s)
str_leb-total (String.◌∷◌ c s) (String.◌∷◌ d t) h =
    ground (arith, compare.cons-cons c d s t, compare.cons-cons d c t s, str_leb-total s t)

insert-is_sorted_from :
    (s t : String) (ts : List String)
    → str_leb t s ≡ true
    → is_sorted_from t ts ≡ true
    → is_sorted_from t (insert s ts) ≡ true
unfolding insert is_sorted_from
insert-is_sorted_from s t [] l h = ground arith
insert-is_sorted_from s t (u ∷ us) l h = elim (Bool-cases (str_leb s u)) [
  | inl low ↦ ground (arith, low)
  | inr high ↦ ground (arith, high, insert-is_sorted_from s u us (str_leb-total s u high))
]

insert-is_sorted :
    (s : String) (ts : List String) → is_sorted ts ≡ true → is_sorted (insert s ts) ≡ true
unfolding insert is_sorted is_sorted_from
insert-is_sorted s [] h = refl
insert-is_sorted s (t ∷ ts) h = elim (Bool-cases (str_leb s t)) [
  | inl low ↦ ground (arith, low)
  | inr high ↦ ground (arith, high, insert-is_sorted_from s t ts (str_leb-total s t high))
]

sort-is_sorted : (ss : List String) → is_sorted (sort ss) ≡ true
unfolding sort is_sorted
sort-is_sorted [] = refl
sort-is_sorted (s ∷ ss) = insert-is_sorted s (sort ss) (sort-is_sorted ss)

compact_from-is_increasing :
    (s : String) (ts : List String)
    → is_sorted_from s ts ≡ true
    → is_increasing_from s (compact_from s ts) ≡ true
unfolding compact_from is_sorted_from is_increasing_from
compact_from-is_increasing s [] h = refl
compact_from-is_increasing s (t ∷ ts) h = elim (Bool-cases (str_eq t s)) [
  | inl same ↦
      let eq : t ≡ s = (str_eq_iff t s).0 same in
      let sorted : is_sorted_from s ts ≡ true = rw (← eq) (ground arith) in
      ground (arith, same, compact_from-is_increasing s ts sorted)
  | inr other ↦ ground (arith, other, str_eq-sym s t, compact_from-is_increasing t ts)
]

compact-is_increasing : (ss : List String) → is_sorted ss ≡ true → is_increasing (compact ss) ≡ true
unfolding compact is_sorted is_increasing
compact-is_increasing [] h = refl
compact-is_increasing (s ∷ ss) h = compact_from-is_increasing s ss h

-- The lease identifiers of a session are those of its leases, in order and each once. A text is among them if
-- and only if it is the identifier of a network lease or of a resource lease, and matches the identifier
-- pattern; and each of them is below the next in the order of strings.
pub lease_ids-contains :
    (id : String) (networks : List NetworkLease) (resources : List ResourceLease)
    → (contains (lease_ids networks resources) id
        ≡ (contains (all_ids networks resources) id && matches_identifier id))
      × (is_increasing (lease_ids networks resources) ≡ true)
unfolding lease_ids
lease_ids-contains id networks resources =
    let valid = valid_ids (all_ids networks resources) in
    (
      ground (
        arith,
        contains-compact id (sort valid),
        contains-sort id valid,
        contains-valid_ids id (all_ids networks resources),
      ),
      compact-is_increasing (sort valid) (sort-is_sorted valid),
    )
