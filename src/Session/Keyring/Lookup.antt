-- ===== src/Session/Keyring/Lookup.antt =====
-- The keyring as a list: what is looked up after a token is stored or removed.
use soha_app.Base.{String, false, ◌≡◌, none, some, List, [], ◌∷◌, arith, refl, str_eq, str_eq_iff}
use soha_app.Session.State.{Credential, lookup, remove, store}

pub lookup-remove :
    (account : String) (cs : List Credential) → lookup account (remove account cs) ≡ none
unfolding lookup remove
lookup-remove account [] = refl
lookup-remove account (c ∷ cs) = ground (arith, lookup-remove account cs)

pub lookup-remove_other :
    (account other : String) (cs : List Credential)
    → str_eq account other ≡ false
    → lookup other (remove account cs) ≡ lookup other cs
unfolding lookup remove
lookup-remove_other account other [] d = refl
lookup-remove_other account other (c ∷ cs) d = ground (
  arith,
  lookup-remove_other account other cs d,
  str_eq_iff c.account account,
  str_eq_iff c.account other,
  str_eq_iff account other,
)

pub lookup-store :
    (account token : String) (cs : List Credential)
    → lookup account (store account token cs) ≡ some token
unfolding lookup store
lookup-store account token cs = ground (arith, str_eq_iff account account)

pub lookup-store_other :
    (account other token : String) (cs : List Credential)
    → str_eq account other ≡ false
    → lookup other (store account token cs) ≡ lookup other cs
unfolding lookup store
lookup-store_other account other token cs d = ground (arith, lookup-remove_other account other cs d)
