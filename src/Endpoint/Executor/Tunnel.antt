-- ===== src/Endpoint/Executor/Tunnel.antt =====
-- executor.go: the plan of a tunnel and what the system reads back of it.
use soha_app.Base.{
  ℕ, ℤ, pos, negsuc, String, Bool, true, false, ◌&&◌, ◌≡◌, Option, none, some, List, [], ◌∷◌, ◌==◌,
  ==_iff, str_eq, str_eq_iff, arith, refl,
}

pub record TunnelPeer : Type 0 where
  pub public_key : String
  pub endpoint : String
  pub allowed_ips : Option (List String)
  pub persistent_keepalive_seconds : ℤ

pub record TunnelPlan : Type 0 where
  pub private_key : String
  pub public_key : String
  pub addresses : List String
  pub mtu : ℕ
  pub peer : TunnelPeer
  pub routes : List String
  pub dns_servers : List String

-- `none` is a nil slice, which reflect.DeepEqual tells from an empty one.
pub record TunnelReadback : Type 0 where
  pub public_key : String
  pub addresses : Option (List String)
  pub mtu : ℕ
  pub peer : TunnelPeer
  pub routes : Option (List String)
  pub dns_servers : Option (List String)

-- plan.Readback()
abbrev pub readback_of : TunnelPlan → TunnelReadback
readback_of plan = record {
  public_key = plan.public_key;
  addresses = some plan.addresses;
  mtu = plan.mtu;
  peer = plan.peer;
  routes = some plan.routes;
  dns_servers = some plan.dns_servers;
}

-- TunnelReadback{}
abbrev pub empty_readback : TunnelReadback
empty_readback = record {
  public_key = "";
  addresses = none;
  mtu = 0;
  peer = record {
    public_key = "";
    endpoint = "";
    allowed_ips = none;
    persistent_keepalive_seconds = pos 0;
  };
  routes = none;
  dns_servers = none;
}

unfoldable pub strings_eq : List String → List String → Bool
strings_eq [] [] = true
strings_eq (s ∷ ss) (t ∷ ts) = str_eq s t && strings_eq ss ts
strings_eq _ _ = false

slice_eq : Option (List String) → Option (List String) → Bool
unfolding strings_eq
slice_eq none none = true
slice_eq (some ss) (some ts) = strings_eq ss ts
slice_eq _ _ = false

int_eq : ℤ → ℤ → Bool
int_eq (pos i) (pos j) = i == j
int_eq (negsuc i) (negsuc j) = i == j
int_eq _ _ = false

peer_eq : TunnelPeer → TunnelPeer → Bool
unfolding slice_eq int_eq strings_eq
peer_eq p q =
    str_eq p.public_key q.public_key
    && str_eq p.endpoint q.endpoint
    && slice_eq p.allowed_ips q.allowed_ips
    && int_eq p.persistent_keepalive_seconds q.persistent_keepalive_seconds

-- reflect.DeepEqual
unfoldable pub readback_eq : TunnelReadback → TunnelReadback → Bool
unfolding peer_eq slice_eq int_eq strings_eq
readback_eq a b =
    str_eq a.public_key b.public_key
    && slice_eq a.addresses b.addresses
    && a.mtu == b.mtu
    && peer_eq a.peer b.peer
    && slice_eq a.routes b.routes
    && slice_eq a.dns_servers b.dns_servers

strings_eq→≡ : (ss ts : List String) → strings_eq ss ts ≡ true → ss ≡ ts
unfolding strings_eq
strings_eq→≡ [] [] h = refl
strings_eq→≡ (s ∷ ss) (t ∷ ts) h = ground (arith, str_eq_iff s t, strings_eq→≡ ss ts)
strings_eq→≡ [] (t ∷ ts) h = ground arith
strings_eq→≡ (s ∷ ss) [] h = ground arith

slice_eq→≡ : (a b : Option (List String)) → slice_eq a b ≡ true → a ≡ b
unfolding slice_eq
slice_eq→≡ none none h = refl
slice_eq→≡ (some ss) (some ts) h = ground (arith, strings_eq→≡ ss ts)
slice_eq→≡ none (some ts) h = ground arith
slice_eq→≡ (some ss) none h = ground arith

int_eq→≡ : (i j : ℤ) → int_eq i j ≡ true → i ≡ j
unfolding int_eq
int_eq→≡ (pos i) (pos j) h = ground (arith, ==_iff i j)
int_eq→≡ (negsuc i) (negsuc j) h = ground (arith, ==_iff i j)
int_eq→≡ (pos i) (negsuc j) h = ground arith
int_eq→≡ (negsuc i) (pos j) h = ground arith

peer_eq→≡ : (p q : TunnelPeer) → peer_eq p q ≡ true → p ≡ q
unfolding peer_eq
peer_eq→≡ p q h = ground (
  arith,
  str_eq_iff p.public_key q.public_key,
  str_eq_iff p.endpoint q.endpoint,
  slice_eq→≡ p.allowed_ips q.allowed_ips,
  int_eq→≡ p.persistent_keepalive_seconds q.persistent_keepalive_seconds,
)

-- What DeepEqual finds equal is equal.
pub readback_eq→≡ : (a b : TunnelReadback) → readback_eq a b ≡ true → a ≡ b
unfolding readback_eq
readback_eq→≡ a b h = ground (
  arith,
  str_eq_iff a.public_key b.public_key,
  slice_eq→≡ a.addresses b.addresses,
  ==_iff a.mtu b.mtu,
  peer_eq→≡ a.peer b.peer,
  slice_eq→≡ a.routes b.routes,
  slice_eq→≡ a.dns_servers b.dns_servers,
)
